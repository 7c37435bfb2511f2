-- ===== src/DatabaseWorkflow/RequestSteps.antt =====
-- The operations on requests and signers keep the tables sound: one lemma for each operation.
use rubrica_back.Base.{ℕ, ◌≡◌, String, true, none, some, arith}
use rubrica_back.Base.Actions.{Result, ok, err}
use rubrica_back.Base.Dict.{lookup, insert, lookup-insert}
use rubrica_back.Base.Keyed.{lookup-key, insert-IsTable}
use rubrica_back.Workflow.Types.{SignatureMode, SignatureRequestCreate}
use rubrica_back.DatabaseWorkflow.Tables.{SignatureRequestEntity, Tables, Env, Actor}
use rubrica_back.DatabaseWorkflow.Requests.{
  SigningLink, create_request, open_request, cancel_request, create_signing_link,
}
use rubrica_back.DatabaseWorkflow.Access.{RequestRead, request_read}
use rubrica_back.Workflow.Service.{is_open}
use rubrica_back.DatabaseWorkflow.Invariants.{IsKeyed, is_unchanged, stays_final, Keeps, Keeps-refl}
use rubrica_back.DatabaseWorkflow.Lookups.{
  get_document-Finds, open_access-Finds, require_role_state,
}

ruleset request_rows = (arith, lookup-insert, insert-IsTable, lookup-key, get_document-Finds)

-- What `open_request` has written: the request that it returns, which is open, was a draft, and
-- holds the version and the digest of its document.
abbrev pub Opens : ℕ → Tables → Result RequestRead × Tables → Type 0
Opens k t (err _, t') = t' ≡ t
Opens k t (ok q, t') =
    (q.request.id ≡ k)
    × (t'.documents ≡ t.documents)
    × (t'.requests ≡ insert k q.request t.requests)
    × (t'.signers ≡ t.signers)
    × (is_open q.request.status ≡ true)
    × (is_unchanged q.request (lookup q.request.document_id t.documents) ≡ true)
    × (stays_final (lookup k t.requests) (some q.request) ≡ true)

-- What `create_signing_link` has written: the nonce and the digest of the token of the request `k`.
abbrev relinked : SignatureRequestEntity → Tables → SignatureRequestEntity
relinked r t = elim (lookup r.id t.requests) [
  | none ↦ r
  | some q ↦ record r {
    signing_token_nonce = q.signing_token_nonce;
    signing_token_hash = q.signing_token_hash;
  }
]

abbrev Relinks : Tables → ℕ → Result SigningLink × Tables → Type 0
Relinks t k (err _, t') = t' ≡ t
Relinks t k (ok _, t') = elim (lookup k t.requests) [
  | none ↦ t' ≡ t
  | some r ↦
      (r.id ≡ k)
      × (t'.documents ≡ t.documents)
      × (t'.requests ≡ insert k (relinked r t') t.requests)
      × (t'.signers ≡ t.signers)
]

module _ (env : Env) (t : Tables) (keyed : IsKeyed t) (now k : ℕ) (actor : Actor) where
  open_request-Opens : (mode : SignatureMode) → Opens k t (open_request env now k actor mode t)
  unfolding open_request request_read
  open_request-Opens mode =
      grind (request_rows, open_access-Finds env now k actor t, keyed.requests_keyed)

  create_signing_link-Relinks :
      (nonce : String) → Relinks t k (create_signing_link env now nonce k actor t)
  unfolding create_signing_link
  create_signing_link-Relinks nonce =
      grind (request_rows, open_access-Finds env now k actor t, keyed.requests_keyed)

  module _ (i j : ℕ) where
    pub create_request-Keeps :
        (payload : SignatureRequestCreate)
        → lookup k t.requests ≡ none
        → Keeps i j t (create_request env now k payload actor.user_id t).1
    unfolding create_request
    create_request-Keeps payload fresh =
        grind (request_rows, require_role_state, keyed.requests_keyed, Keeps-refl i j t keyed)

    pub open_request-Keeps :
        (mode : SignatureMode) → Keeps i j t (open_request env now k actor mode t).1
    open_request-Keeps mode = grind (
      request_rows,
      open_request-Opens mode,
      keyed.requests_keyed,
      keyed.documents_keyed,
      keyed.signers_keyed,
      Keeps-refl i j t keyed,
    )

    pub cancel_request-Keeps : Keeps i j t (cancel_request env now k actor t).1
    unfolding cancel_request
    cancel_request-Keeps = grind (
      request_rows,
      open_access-Finds env now k actor t,
      keyed.requests_keyed,
      keyed.documents_keyed,
      keyed.signers_keyed,
      Keeps-refl i j t keyed,
    )

    pub create_signing_link-Keeps :
        (nonce : String) → Keeps i j t (create_signing_link env now nonce k actor t).1
    create_signing_link-Keeps nonce = grind (
      request_rows,
      create_signing_link-Relinks nonce,
      keyed.requests_keyed,
      keyed.documents_keyed,
      keyed.signers_keyed,
      Keeps-refl i j t keyed,
    )
