-- ===== src/DatabaseWorkflow/Delivery.antt =====
-- After `sign` returns, the artifacts of all signatures can be read, and so can the signed document.
use Prim.Native.String.{◌++◌ as ◌<>◌}
use rubrica_back.Base.{ℕ, ◌≡◌, String, Bool, true, false, none, some, List, [], ◌∷◌, ◌++◌, is_none}
use rubrica_back.Base.Actions.{Result, ok, err}
use rubrica_back.Base.Dict.{lookup}
use rubrica_back.Store.{Instant}
use rubrica_back.Workflow.Types.{Bytes}
use rubrica_back.DatabaseWorkflow.Tables.{
  SignerEntity, SignatureEntity, Evidence, Tables, Env, World,
}
use rubrica_back.DatabaseWorkflow.Links.{signed_document}

-- The request can still be found after its completion.
is_found : ℕ → Tables → Bool
is_found i t = elim (lookup i t.requests) [ none ↦ false | some r ↦ is_none r.deleted_at ]

-- The signature is written, and its request can be found.
abbrev Writes : SignatureEntity → ℕ → Tables → Result SignerEntity × Tables → Type 0
Writes x i t (err _, t') = Unit
Writes x i t (ok s, t') =
    (t'.signatures ≡ t.signatures ++ x ∷ []) × (is_found i t' ≡ true) × (s.signature_request_id ≡ i)

module _ (env : Env) where
  -- The artifact of a signature can be read, with the digest that was recorded.
  unfoldable pub IsReadable : env.Files → SignatureEntity → Type 0
  IsReadable f x =
      (content : Bytes) × (env.get x.artifact_storage_key f ≡ some content)
      × (x.artifact_sha256 ≡ env.digest content)

  -- The artifacts of all the signatures can be read.
  unfoldable pub AreReadable : env.Files → List SignatureEntity → Type 0
  unfolding IsReadable
  AreReadable f [] = Unit
  AreReadable f (x ∷ xs) = IsReadable f x × AreReadable f xs

  -- The signed document of the request can be read, with the digest of its content.
  abbrev pub Serves : Instant → ℕ → World env → Type 0
  Serves now i w =
      (content : Bytes) × (signed_document env now i none w ≡ (ok (env.digest content, content), w))

  abbrev pub Delivers : Instant → Result SignerEntity × World env → Type 0
  Delivers now (err _, w) = Unit
  Delivers now (ok s, w) =
      AreReadable w.files w.tables.signatures × Serves now s.signature_request_id w
