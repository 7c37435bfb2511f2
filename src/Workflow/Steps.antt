-- ===== src/Workflow/Steps.antt =====
-- Every operation of the workflow moves requests and signers along their state diagrams: one lemma
-- for each operation.
use rubrica_back.Base.{ℕ, ◌≡◌, String, Bool, true, false, Option, none, some, arith}
use rubrica_back.Base.Actions.{Result, ok, err}
use rubrica_back.Base.Dict.{IsDict, lookup, lookup-insert, insert-IsDict}
use rubrica_back.Workflow.Types.{
  SignatureMode, Bytes, SignatureRequest, Signer, StampPosition, DocumentCreate,
  SignatureRequestCreate, SignerCreate, Service, Env,
}
use rubrica_back.Workflow.Service.{is_open, is_signed, get_content}
use rubrica_back.Workflow.Documents.{create_document, add_version}
use rubrica_back.Workflow.Requests.{
  create_request, open_request, cancel_request, revoke_signer_link, add_signer, create_signing_link,
}
use rubrica_back.Workflow.Signing.{
  signing_context, signing_document, view, has_signed, complete_request, check_signature,
  record_signature, sign, decline,
}
use rubrica_back.Workflow.Resolve.{IsKeyed, SignerStep, SignerStep-refl, resolve_request-Resolves}
use rubrica_back.Workflow.Transitions.{RequestStep, RequestStep-refl, counts_state}

-- What two states may differ in, seen at the request `j` and at the signer `k`.
pub record Evolves {F : Type 0} (j k : ℕ) (s s' : Service F) : Type 0 where
  pub request_step : RequestStep j (lookup j s.requests) (lookup j s'.requests)
  pub signer_step : SignerStep k (lookup k s.signers) (lookup k s'.signers)
  pub distinct : IsDict s.requests → IsDict s'.requests

module _ {F : Type 0} (j k : ℕ) (s : Service F) where
  pub Evolves-refl : Evolves j k s s
  Evolves-refl = record {
    request_step = RequestStep-refl j (lookup j s.requests);
    signer_step = SignerStep-refl k (lookup k s.signers);
    distinct = λ h. h;
  }

  module _ (now i : ℕ) (actor : String) where
    pub create_request-Evolves :
        (payload : SignatureRequestCreate)
        → lookup i s.requests ≡ none
        → Evolves j k s (create_request now i payload s).1
    unfolding create_request
    create_request-Evolves payload fresh = grind (arith, lookup-insert, insert-IsDict, Evolves-refl)

    pub open_request-Evolves :
        (mode : SignatureMode) → Evolves j k s (open_request now i actor mode s).1
    unfolding open_request
    open_request-Evolves mode =
        grind (arith, counts_state, lookup-insert, insert-IsDict, Evolves-refl)

    pub cancel_request-Evolves : Evolves j k s (cancel_request now i actor s).1
    unfolding cancel_request
    cancel_request-Evolves = grind (arith, counts_state, lookup-insert, insert-IsDict, Evolves-refl)

    pub revoke_signer_link-Evolves :
        (signer_id : ℕ) → IsKeyed s → Evolves j k s (revoke_signer_link now i signer_id actor s).1
    unfolding revoke_signer_link
    revoke_signer_link-Evolves signer_id keyed =
        grind (arith, lookup-insert, insert-IsDict, Evolves-refl, keyed.signers_keyed)

-- The end of `sign` writes the request and the audit trail, and the request only from open to
-- completed.
complete_request-RequestStep :
    {F : Type 0} (j now : ℕ) (actor : String) (r : SignatureRequest) (s : Service F)
    → lookup r.id s.requests ≡ some r
    → is_open r.status ≡ true
    → RequestStep j (lookup j s.requests) (lookup j (complete_request now actor r s).1.requests)
unfolding complete_request
complete_request-RequestStep j now actor r s known allowed =
    grind (arith, lookup-insert, insert-IsDict, RequestStep-refl j (lookup j s.requests))

complete_request-IsDict :
    {F : Type 0} (now : ℕ) (actor : String) (r : SignatureRequest) (s : Service F)
    → IsDict s.requests
    → IsDict (complete_request now actor r s).1.requests
unfolding complete_request
complete_request-IsDict now actor r s h = grind (arith, insert-IsDict)

pub complete_request_signers :
    {F : Type 0} (now : ℕ) (actor : String) (r : SignatureRequest) (s : Service F)
    → (complete_request now actor r s).1.signers ≡ s.signers
unfolding complete_request
complete_request_signers now actor r s = ground arith

-- Reading a document changes nothing.
pub get_content_state :
    (env : Env) (i : ℕ) (v : Option ℕ) (s : Service env.Files) → (get_content env i v s).1 ≡ s
unfolding get_content
get_content_state env i v s = ground arith

-- What the tests of `sign` leave: the state as it was, and, where they pass, a signer who has not
-- signed.
abbrev pub Passes :
    {F : Type 0} → Signer → SignatureRequest → Service F → Result (Unit {0}) × Service F → Type 0
Passes g r s (ok _, s') =
    (s' ≡ s) × (is_signed g.status ≡ false) × (has_signed r.id g.id s.signatures ≡ false)
Passes g r s (err e, s') = s' ≡ s

pub check_signature-Passes :
    (env : Env) (g : Signer) (r : SignatureRequest) (s : Service env.Files)
    → Passes g r s (check_signature env g r s)
unfolding check_signature
check_signature-Passes env g r s = grind (arith, get_content_state)

module _ (env : Env) (j k : ℕ) (s : Service env.Files) where
  record_signature-Evolves :
      (now : ℕ) (user : String) (p : StampPosition) (g : Signer) (r : SignatureRequest)
      → lookup r.id s.requests ≡ some r
      → lookup g.id s.signers ≡ some g
      → is_open r.status ≡ true
      → is_signed g.status ≡ false
      → Evolves j k s (record_signature env now user p g r s).1
  unfolding record_signature
  record_signature-Evolves now user p g r known_r known_g opened unsigned = grind (
    arith,
    lookup-insert,
    insert-IsDict,
    complete_request_signers,
    SignerStep-refl k (lookup k s.signers),
    complete_request-RequestStep,
    complete_request-IsDict,
  )

  module _ (now i : ℕ) (actor : String) where
    pub create_document-Evolves :
        (payload : DocumentCreate) (content : Bytes)
        → Evolves j k s (create_document env now i payload content s).1
    unfolding create_document
    create_document-Evolves payload content = grind (arith, Evolves-refl j k s)

    pub add_version-Evolves :
        (filename content_type : String) (content : Bytes)
        → Evolves j k s (add_version env now i filename content_type actor content s).1
    unfolding add_version
    add_version-Evolves filename content_type content = grind (arith, Evolves-refl j k s)

    pub add_signer-Evolves :
        (fresh : ℕ) (payload : SignerCreate)
        → lookup fresh s.signers ≡ none
        → Evolves j k s (add_signer env now fresh i payload actor s).1
    unfolding add_signer
    add_signer-Evolves fresh payload new =
        grind (arith, lookup-insert, insert-IsDict, Evolves-refl j k s)

    pub create_signing_link-Evolves :
        (token : String) → Evolves j k s (create_signing_link env now token i actor s).1
    unfolding create_signing_link
    create_signing_link-Evolves token = grind (arith, Evolves-refl j k s)

  module _ (now : ℕ) (token user : String) (keyed : IsKeyed s) where
    pub view-Evolves : Evolves j k s (view env now token user s).1
    unfolding view
    view-Evolves = grind (
      arith,
      resolve_request-Resolves env k now false s token user keyed,
      Evolves-refl j k s,
      lookup-insert,
      insert-IsDict,
    )

    pub decline-Evolves : Evolves j k s (decline env now token user s).1
    unfolding decline
    decline-Evolves = grind (
      arith,
      resolve_request-Resolves env k now false s token user keyed,
      Evolves-refl j k s,
      lookup-insert,
      insert-IsDict,
    )

    pub signing_context-Evolves : Evolves j k s (signing_context env now token user s).1
    unfolding signing_context
    signing_context-Evolves = grind (
      arith,
      resolve_request-Resolves env k now true s token user keyed,
      Evolves-refl j k s,
      counts_state,
    )

    pub signing_document-Evolves : Evolves j k s (signing_document env now token user s).1
    unfolding signing_document
    signing_document-Evolves = grind (
      arith,
      resolve_request-Resolves env k now true s token user keyed,
      Evolves-refl j k s,
      get_content_state,
    )

    pub sign-Evolves :
        (consent : Bool) (p : StampPosition) → Evolves j k s (sign env now token user consent p s).1
    unfolding sign
    sign-Evolves consent p = grind (
      arith,
      resolve_request-Resolves env k now false s token user keyed,
      Evolves-refl j k s,
      check_signature-Passes,
      record_signature-Evolves,
    )
