-- ===== src/DatabaseWorkflow/SignerSteps.antt =====
-- The operations on signers keep the tables sound: one lemma for each operation.
use rubrica_back.Base.{ℕ, ◌≡◌, refl, String, true, false, Option, none, some, arith}
use rubrica_back.Base.Dict.{lookup, lookup-insert}
use rubrica_back.Base.Keyed.{IsTable, lookup-key, insert-IsTable}
use rubrica_back.Store.{Instant}
use rubrica_back.DatabaseWorkflow.Tables.{SignatureRequestEntity, SignerEntity, Tables, Env, Actor}
use rubrica_back.DatabaseWorkflow.Signers.{
  ParticipantCreate, represent, representation_of, add_signer, revoke_signer_link,
}
use rubrica_back.DatabaseWorkflow.Links.{view, decline}
use rubrica_back.DatabaseWorkflow.Invariants.{IsKeyed, Keeps, Keeps-refl}
use rubrica_back.DatabaseWorkflow.Lookups.{
  get_document-Finds, get_signer-Finds, open_access-Finds, resolve_request-Resolves,
}

ruleset signer_rows = (arith, lookup-insert, insert-IsTable, lookup-key)

representation_of_state :
    (env : Env) (now : Instant) (r : SignatureRequestEntity) (p : ParticipantCreate)
    (email : String) (t : Tables)
    → (representation_of env now r p email t).1 ≡ t
unfolding representation_of represent
representation_of_state env now r p email t = grind (arith, get_document-Finds)

-- The same request and the same status.
abbrev SameAnswer : Option SignerEntity → Option SignerEntity → Type 0
SameAnswer none q = q ≡ none
SameAnswer (some s) none = true ≡ false
SameAnswer (some s) (some q) =
    (q.signature_request_id ≡ s.signature_request_id) × (q.status ≡ s.status)

SameAnswer-refl : (s : Option SignerEntity) → SameAnswer s s
SameAnswer-refl none = refl
SameAnswer-refl (some s) = (refl, refl)

module _ (env : Env) (t : Tables) (keyed : IsKeyed t) (now : ℕ) (actor : Actor) (i j : ℕ) where
  pub add_signer-Keeps :
      (id : ℕ) (token : String) (k : ℕ) (payload : ParticipantCreate)
      → Keeps i j t (add_signer env now id token k payload actor t).1
  unfolding add_signer
  add_signer-Keeps id token k payload = grind (
    signer_rows,
    open_access-Finds env now k actor t,
    representation_of_state env now,
    keyed.requests_keyed,
    keyed.documents_keyed,
    keyed.signers_keyed,
    Keeps-refl i j t keyed,
  )

  revoke_signer_link-SameAnswer :
      (k signer_id : ℕ) (t' : Tables)
      → (revoke_signer_link env now k signer_id actor t).1 ≡ t'
      → IsTable SignerEntity.id t'.signers
        × SameAnswer (lookup j t.signers) (lookup j t'.signers)
        × (t'.documents ≡ t.documents)
        × (t'.requests ≡ t.requests)
  unfolding revoke_signer_link
  revoke_signer_link-SameAnswer k signer_id t' e = grind (
    signer_rows,
    open_access-Finds env now k actor t,
    get_signer-Finds signer_id,
    keyed.signers_keyed,
    SameAnswer-refl,
    e,
  )

  pub revoke_signer_link-Keeps :
      (k signer_id : ℕ) → Keeps i j t (revoke_signer_link env now k signer_id actor t).1
  revoke_signer_link-Keeps k signer_id = grind (
    signer_rows,
    revoke_signer_link-SameAnswer k signer_id (revoke_signer_link env now k signer_id actor t).1
        refl,
    keyed.requests_keyed,
    keyed.documents_keyed,
    Keeps-refl i j t keyed,
  )

  pub view-Keeps : (token : String) → Keeps i j t (view env now token actor t).1
  unfolding view
  view-Keeps token = grind (
    signer_rows,
    resolve_request-Resolves env now token actor false t keyed,
    keyed.requests_keyed,
    keyed.documents_keyed,
    keyed.signers_keyed,
    Keeps-refl i j t keyed,
  )

  pub decline-Keeps : (token : String) → Keeps i j t (decline env now token actor t).1
  unfolding decline
  decline-Keeps token = grind (
    signer_rows,
    resolve_request-Resolves env now token actor false t keyed,
    keyed.requests_keyed,
    keyed.documents_keyed,
    keyed.signers_keyed,
    Keeps-refl i j t keyed,
  )
