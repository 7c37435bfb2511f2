-- ===== src/DatabaseWorkflow/Lookups.antt =====
-- What the lookups and access tests of the database service leave: the tables as they were, and
-- the row that they return is the stored one.
use rubrica_back.Base.{
  ℕ, ◌≡◌, String, Bool, true, false, ◌||◌, ◌&&◌, str_eq, Option, none, some, arith, is_none,
}
use rubrica_back.Base.Actions.{Result, ok, err}
use rubrica_back.Base.Dict.{lookup}
use rubrica_back.Base.Keyed.{find-values}
use rubrica_back.Store.{Instant, Role, Database}
use rubrica_back.Tenant.Members.{Caller, require_role}
use rubrica_back.Workflow.Service.{is_open}
use rubrica_back.DatabaseWorkflow.Tables.{
  DocumentEntity, SignatureRequestEntity, SignerEntity, Tables, Env, Actor,
}
use rubrica_back.DatabaseWorkflow.Access.{
  signs_for, get_document, get_request_row, get_signer, require_document_access,
  require_request_access, open_access, request_from_token, find_signer, check_link, resolve_request,
}
use rubrica_back.DatabaseWorkflow.Invariants.{IsKeyed}

-- A lookup returns what is stored, and writes nothing.
abbrev pub Finds : {A : Type 0} → Option A → Tables → Result A × Tables → Type 0
Finds o t (ok a, t') = (o ≡ some a) × (t' ≡ t)
Finds o t (err _, t') = t' ≡ t

abbrev pub Keyed : Tables → Result SignatureRequestEntity × Tables → Type 0
Keyed t (ok r, t') = (lookup r.id t.requests ≡ some r) × (is_none r.deleted_at ≡ true) × (t' ≡ t)
Keyed t (err _, t') = t' ≡ t

-- What a signing link resolves to: a stored request and a stored signer of it. The request is
-- open, unless completed ones are allowed. A refusal may write the audit trail.
abbrev pub Resolves :
    Bool → Tables → Result (SignerEntity × SignatureRequestEntity) × Tables → Type 0
Resolves allow_completed t (ok (s, r), t') =
    (t' ≡ t)
    × (lookup r.id t.requests ≡ some r)
    × (lookup s.id t.signers ≡ some s)
    × (s.signature_request_id ≡ r.id)
    × ((is_open r.status || allow_completed) ≡ true)
    × (is_none r.deleted_at ≡ true)
Resolves allow_completed t (err _, t') =
    (t'.documents ≡ t.documents) × (t'.requests ≡ t.requests) × (t'.signers ≡ t.signers)

pub require_role_state :
    (now : Instant) (i : ℕ) (c : Caller) (roles : Role → Bool) (over : Bool) (db : Database)
    → (require_role now i c roles over db).1 ≡ db
unfolding require_role
require_role_state now i c roles over db = grind arith

pub get_document-Finds : (i : ℕ) (t : Tables) → Finds (lookup i t.documents) t (get_document i t)
unfolding get_document
get_document-Finds i t = grind arith

pub get_request_row-Finds :
    (i : ℕ) (t : Tables) → Finds (lookup i t.requests) t (get_request_row i t)
unfolding get_request_row
get_request_row-Finds i t = grind arith

pub get_signer-Finds :
    (i request_id : ℕ) (t : Tables) → Finds (lookup i t.signers) t (get_signer i request_id t)
unfolding get_signer
get_signer-Finds i request_id t = grind arith

module _ (env : Env) where
  pub require_document_access_state :
      (now : Instant) (d : DocumentEntity) (r : Option ℕ) (actor : Actor) (t : Tables)
      → (require_document_access env now d r actor t).1 ≡ t
  unfolding require_document_access
  require_document_access_state now d r actor t = grind (arith, require_role_state)

  pub require_request_access_state :
      (now : Instant) (r : SignatureRequestEntity) (actor : Actor) (t : Tables)
      → (require_request_access env now r actor t).1 ≡ t
  unfolding require_request_access
  require_request_access_state now r actor t = grind (arith, require_document_access_state)

  pub open_access-Finds :
      (now : Instant) (i : ℕ) (actor : Actor) (t : Tables)
      → Finds (lookup i t.requests) t (open_access env now i actor t)
  unfolding open_access
  open_access-Finds now i actor t =
      grind (arith, get_request_row-Finds i t, require_request_access_state now)

  -- The request of a token is stored under its identifier.
  pub request_from_token-Keyed :
      (token : String) (t : Tables) → IsKeyed t → Keyed t (request_from_token env token t)
  unfolding request_from_token
  request_from_token-Keyed token t h =
      grind (arith, find-values SignatureRequestEntity.id, h.requests_keyed)

  find_signer_stored :
      (i : ℕ) (user : String) (s : SignerEntity) (t : Tables)
      → IsKeyed t
      → find_signer env i user t ≡ some s
      → (s.signature_request_id ≡ i) × (lookup s.id t.signers ≡ some s)
  unfolding find_signer
  find_signer_stored i user s t h e =
      let test : SignerEntity → Bool =
        λ x. signs_for i x && str_eq x.auth_user_id (env.lower user) in
      let found = find-values SignerEntity.id test s t.signers h.signers_keyed e in
      ground (arith, found)

  check_link_open :
      (now : Instant) (s : SignerEntity) (r : SignatureRequestEntity)
      → check_link env now false s r ≡ none
      → is_open r.status ≡ true
  unfolding check_link
  check_link_open now s r e = ground (arith, e)

  pub resolve_request-Resolves :
      (now : Instant) (token : String) (actor : Actor) (allow_completed : Bool) (t : Tables)
      → IsKeyed t
      → Resolves allow_completed t (resolve_request env now token actor allow_completed t)
  unfolding resolve_request
  resolve_request-Resolves now token actor true t h =
      grind (arith, request_from_token-Keyed token t h, find_signer_stored, check_link_open)
  resolve_request-Resolves now token actor false t h =
      grind (arith, request_from_token-Keyed token t h, find_signer_stored, check_link_open)
