-- ===== src/DatabaseWorkflow/Invariants.antt =====
-- What every operation of the database service keeps, seen at one request and at one signer.
use rubrica_back.Base.{
  ℕ, ◌≡◌, refl, Bool, true, false, ◌&&◌, ◌||◌, not, Option, none, some, arith, str_eq, ◌==◌,
}
use rubrica_back.Base.Dict.{lookup}
use rubrica_back.Base.Keyed.{IsTable}
use rubrica_back.Workflow.Types.{RequestStatus, cancelled}
use rubrica_back.Workflow.Service.{is_completed, is_signed}
use rubrica_back.Workflow.Documents.{is_frozen}
use rubrica_back.DatabaseWorkflow.Tables.{
  DocumentEntity, SignatureRequestEntity, SignerEntity, Tables,
}
use rubrica_back.DatabaseWorkflow.Access.{signs_for}

abbrev pub is_cancelled : RequestStatus → Bool
is_cancelled cancelled = true
is_cancelled _ = false

-- The rows of the three tables stand under their identifiers.
pub record IsKeyed (t : Tables) : Type 0 where
  pub documents_keyed : IsTable DocumentEntity.id t.documents
  pub requests_keyed : IsTable SignatureRequestEntity.id t.requests
  pub signers_keyed : IsTable SignerEntity.id t.signers

-- A signer of a completed request has signed.
abbrev pub is_settled : Option SignatureRequestEntity → Option SignerEntity → Bool
is_settled (some r) (some s) =
    not (is_completed r.status) || not (signs_for r.id s) || is_signed s.status
is_settled _ _ = true

-- The document is the one that the request froze.
abbrev pub is_unchanged : SignatureRequestEntity → Option DocumentEntity → Bool
is_unchanged r none = false
is_unchanged r (some d) = d.version == r.document_version && str_eq d.sha256 r.document_sha256

-- The document of an open or completed request is the one that the request froze.
abbrev pub is_matching : Option SignatureRequestEntity → Tables → Bool
is_matching none t = true
is_matching (some r) t =
    not (is_frozen r.status) || is_unchanged r (lookup r.document_id t.documents)

-- A completed request stays completed, and a cancelled one cancelled.
abbrev pub stays_final : Option SignatureRequestEntity → Option SignatureRequestEntity → Bool
stays_final none _ = true
stays_final (some r) none = false
stays_final (some r) (some q) =
    (not (is_completed r.status) || is_completed q.status)
    && (not (is_cancelled r.status) || is_cancelled q.status)

-- What an operation keeps, seen at the request `i` and at the signer `j`.
pub record Keeps (i j : ℕ) (t t' : Tables) : Type 0 where
  pub keeps_keyed : IsKeyed t'
  pub keeps_settled :
      is_settled (lookup i t.requests) (lookup j t.signers) ≡ true
      → is_settled (lookup i t'.requests) (lookup j t'.signers) ≡ true
  pub keeps_matching :
      is_matching (lookup i t.requests) t ≡ true → is_matching (lookup i t'.requests) t' ≡ true
  pub keeps_final : stays_final (lookup i t.requests) (lookup i t'.requests) ≡ true

module _ (i j : ℕ) where
  stays_final_refl : (r : Option SignatureRequestEntity) → stays_final r r ≡ true
  stays_final_refl none = refl
  stays_final_refl (some r) = ground arith

  pub Keeps-refl : (t : Tables) → IsKeyed t → Keeps i j t t
  Keeps-refl t h = record {
    keeps_keyed = h;
    keeps_settled = λ e. e;
    keeps_matching = λ e. e;
    keeps_final = stays_final_refl (lookup i t.requests);
  }

  -- Tables with the same documents, requests and signers.
  pub Keeps-same :
      (t t' : Tables)
      → IsKeyed t
      → t'.documents ≡ t.documents
      → t'.requests ≡ t.requests
      → t'.signers ≡ t.signers
      → Keeps i j t t'
  Keeps-same t t' h a b c = grind (arith, Keeps-refl t h)

  stays_final_trans :
      (p q r : Option SignatureRequestEntity)
      → stays_final p q ≡ true
      → stays_final q r ≡ true
      → stays_final p r ≡ true
  stays_final_trans p q r = ground arith

  pub Keeps-trans : (t u v : Tables) → Keeps i j t u → Keeps i j u v → Keeps i j t v
  Keeps-trans t u v a b = record {
    keeps_keyed = b.keeps_keyed;
    keeps_settled = λ e. b.keeps_settled (a.keeps_settled e);
    keeps_matching = λ e. b.keeps_matching (a.keeps_matching e);
    keeps_final =
        stays_final_trans (lookup i t.requests) (lookup i u.requests) (lookup i v.requests)
          a.keeps_final b.keeps_final;
  }
