-- ===== src/Workflow/Signing.antt =====
-- The operations of `SignatureWorkflowService` behind a signing link: reading, viewing, signing and
-- declining. The document is read again, and its digest compared, before a signature counts.
use rubrica_back.Base.{
  ℕ, String, Bool, true, false, ◌&&◌, ◌||◌, not, Option, none, some, List, [], ◌∷◌, str_eq, ◌==◌,
  if◌then◌else◌,
}
use rubrica_back.Base.Actions.{
  workflow_error, Action, pure, or_raise, raise_if, modify, ◌>>=◌, ◌>>◌,
}
use rubrica_back.Base.Dict.{lookup, insert}
use rubrica_back.Workflow.Types.{
  completed, SignerStatus, pending, viewed, signed, declined, Bytes, DocumentVersion,
  SignatureRequest, Signer, StampPosition, num, text, stamp, Service, Env,
}
use rubrica_back.Workflow.Service.{
  key_error, is_signed, is_answered, get_document, record_audit, any_signer, counts, get_content,
  resolve_request,
}

abbrev pub is_pending : SignerStatus → Bool
is_pending pending = true
is_pending _ = false

-- `(request.id, signer.id) in self.signatures`
unfoldable pub has_signed : ℕ → ℕ → List (ℕ × ℕ) → Bool
has_signed r g [] = false
has_signed r g ((r', g') ∷ pairs) = (r == r' && g == g') || has_signed r g pairs

-- `self.signature_evidence.get((request.id, signer.id))`; the last entry of a pair comes first
unfoldable pub find_stamp : ℕ → ℕ → List (ℕ × ℕ × StampPosition) → Option StampPosition
find_stamp r g [] = none
find_stamp r g ((r', g', p) ∷ rest) = if r == r' && g == g' then some p else find_stamp r g rest

-- `SigningRead`
pub record SigningRead : Type 0 where
  pub request : SignatureRequest
  pub signer : Signer
  pub document_title : String
  pub original_filename : String
  pub stamp : Option StampPosition

-- The last `if` of `sign`: `all(… == SIGNED)` holds when no signer has another status.
unfoldable pub complete_request :
    {F : Type 0} → ℕ → String → SignatureRequest → Action (Service F) (Unit {0})
complete_request now actor request s =
    (do
      ids ← or_raise (lookup request.id s.request_signers) key_error
      waiting ← or_raise (any_signer (λ x. not (is_signed x.status)) s.signers ids) key_error
      elim waiting [
        | true ↦ pure tt
        | false ↦ (do
          modify (λ t. record t {
            requests =
                insert request.id (record request { status = completed; completed_at = some now })
                  t.requests;
          })
          modify (
              record_audit now request.id actor "signature_request.completed" "signature_request"
                request.id []))
      ])
      s

module _ (env : Env) where
  open env use {Files, digest}

  unfoldable pub signing_context : ℕ → String → String → Action (Service Files) SigningRead
  signing_context now token user s =
      (do
        (signer, request) ← resolve_request env now token user true
        document ← get_document request.document_id
        read ← counts request
        pure (record {
          request = read;
          signer = signer;
          document_title = document.title;
          original_filename = document.original_filename;
          stamp = find_stamp request.id signer.id s.signature_evidence;
        }))
        s

  unfoldable pub signing_document :
      ℕ → String → String → Action (Service Files) (DocumentVersion × Bytes)
  signing_document now token user = do
    (signer, request) ← resolve_request env now token user true
    get_content env request.document_id (some request.document_version)

  unfoldable pub view : ℕ → String → String → Action (Service Files) Signer
  view now token user = do
    (signer, request) ← resolve_request env now token user false
    let seen = record signer { status = viewed }
    elim (is_pending signer.status) [
      | true ↦ (do
        modify (λ t. record t { signers = insert signer.id seen t.signers })
        modify (record_audit now request.id user "document.viewed" "signer" signer.id [])
        pure seen)
      | false ↦ pure signer
    ]

  -- The tests of `sign` between the resolution of the link and its first write.
  unfoldable pub check_signature : Signer → SignatureRequest → Action (Service Files) (Unit {0})
  check_signature signer request s =
      (do
        raise_if (is_signed signer.status || has_signed request.id signer.id s.signatures)
            (workflow_error "Signer has already signed" 409)
        document ← get_document request.document_id
        (version, content) ← get_content env document.id (some request.document_version)
        raise_if (not (str_eq (digest content) request.document_sha256))
            (workflow_error "Document hash does not match the frozen request" 409))
        s

  -- The writes of `sign`.
  unfoldable pub record_signature :
      ℕ → String → StampPosition → Signer → SignatureRequest → Action (Service Files) Signer
  record_signature now user position signer request = do
    let done = record signer { status = signed; signed_at = some now }
    modify (λ t. record t {
      signatures = (request.id, signer.id) ∷ t.signatures;
      signature_evidence = (request.id, signer.id, position) ∷ t.signature_evidence;
      signers = insert signer.id done t.signers;
    })
    modify (
        record_audit now request.id user "signature.completed" "signer" signer.id (
          ("document_sha256", text request.document_sha256)
          ∷ ("document_version", num request.document_version)
          ∷ ("stamp", stamp position)
          ∷ []))
    complete_request now user request
    pure done

  unfoldable pub sign : ℕ → String → String → Bool → StampPosition → Action (Service Files) Signer
  sign now token user consent position = do
    raise_if (not consent) (workflow_error "Explicit consent is required" 400)
    (signer, request) ← resolve_request env now token user false
    check_signature signer request
    record_signature now user position signer request

  unfoldable pub decline : ℕ → String → String → Action (Service Files) Signer
  decline now token user = do
    (signer, request) ← resolve_request env now token user false
    raise_if (is_answered signer.status) (workflow_error "Signer already answered" 409)
    let refused = record signer { status = declined }
    modify (λ t. record t { signers = insert signer.id refused t.signers })
    modify (record_audit now request.id user "signature.declined" "signer" signer.id [])
    pure refused
