-- ===== src/Workflow/Requests.antt =====
-- The operations of `SignatureWorkflowService` on requests and their signers, before anybody signs.
use Prim.Native.String.{◌++◌ as ◌<>◌}
use rubrica_back.Base.{
  ℕ, ◌+◌, ◌*◌, String, Bool, true, false, ◌||◌, not, none, some, [], ◌∷◌, ◌++◌, str_eq, leb, ◌==◌,
  is_none, length,
}
use rubrica_back.Base.Actions.{
  workflow_error, Action, pure, or_raise, raise_if, modify, ◌>>=◌, ◌>>◌,
}
use rubrica_back.Base.Dict.{lookup, insert, insert_text}
use rubrica_back.Workflow.Types.{
  RequestStatus, open_for_signing, cancelled, pending, SignatureMode, evidence, SignatureRequest,
  Signer, num, text, instant, SignatureRequestCreate, SignerCreate, Service, Env,
}
use rubrica_back.Workflow.Service.{
  key_error, is_open, is_signed, get_document, find_request, record_audit, any_signer, counts,
}
use rubrica_back.Workflow.Documents.{is_active}

abbrev pub is_draft : RequestStatus → Bool
is_draft RequestStatus.draft = true
is_draft _ = false

-- `timedelta(seconds=n)`, in microseconds
abbrev pub seconds : ℕ → ℕ
seconds n = n * 1000000

module _ {F : Type 0} where
  unfoldable pub create_request :
      ℕ → ℕ → SignatureRequestCreate → Action (Service F) SignatureRequest
  create_request now fresh payload s =
      (do
        document ← get_document payload.document_id
        raise_if (leb payload.expires_at now)
            (workflow_error "Expiration must be in the future" 400)
        let item : SignatureRequest = record {
          id = fresh;
          document_id = document.id;
          document_version = document.version;
          document_sha256 = document.sha256;
          status = RequestStatus.draft;
          expires_at = payload.expires_at;
          created_by = payload.created_by;
          created_at = now;
          completed_at = none;
          signer_count = 0;
          signed_count = 0;
          signature_mode = evidence;
        }
        modify (λ t. record t {
          requests = insert fresh item t.requests;
          request_signers = insert fresh [] t.request_signers;
          audit = insert fresh [] t.audit;
        })
        modify (
            record_audit now fresh payload.created_by "signature_request.created"
              "signature_request" fresh
              (("document_version", num document.version)
                ∷ ("document_sha256", text document.sha256)
                ∷ []))
        pure item)
        s

  unfoldable pub open_request : ℕ → ℕ → String → SignatureMode → Action (Service F) SignatureRequest
  open_request now i actor mode s =
      (do
        request ← find_request i
        raise_if (not (is_draft request.status))
            (workflow_error "Only a draft request can be opened" 409)
        ids ← or_raise (lookup i s.request_signers) key_error
        raise_if (length ids == 0) (workflow_error "At least one signer is required" 409)
        document ← get_document request.document_id
        raise_if
            (not (document.version == request.document_version)
              || not (str_eq document.sha256 request.document_sha256))
            (workflow_error "Document changed after request creation" 409)
        let updated = record request { status = open_for_signing; signature_mode = mode }
        modify (λ t. record t { requests = insert i updated t.requests })
        modify (record_audit now i actor "signature_request.opened" "signature_request" i [])
        counts updated)
        s

  unfoldable pub cancel_request : ℕ → ℕ → String → Action (Service F) SignatureRequest
  cancel_request now i actor s =
      (do
        request ← find_request i
        raise_if (not (is_active request.status)) (workflow_error "Request cannot be cancelled" 409)
        let updated = record request { status = cancelled }
        modify (λ t. record t { requests = insert i updated t.requests })
        modify (record_audit now i actor "signature_request.cancelled" "signature_request" i [])
        counts updated)
        s

  unfoldable pub revoke_signer_link : ℕ → ℕ → ℕ → String → Action (Service F) Signer
  revoke_signer_link now i signer_id actor s =
      (do
        request ← find_request i
        signer ← or_raise (lookup signer_id s.signers) (workflow_error "Signer not found" 404)
        raise_if (not (signer.signature_request_id == request.id))
            (workflow_error "Signer not found" 404)
        raise_if (is_signed signer.status)
            (workflow_error "A completed signature link cannot be revoked" 409)
        let revoked = record signer { link_revoked_at = some now }
        elim (is_none signer.link_revoked_at) [
          | true ↦ (do
            modify (λ t. record t { signers = insert signer.id revoked t.signers })
            modify (record_audit now request.id actor "signer.link_revoked" "signer" signer.id [])
            pure revoked)
          | false ↦ pure signer
        ])
        s

module _ (env : Env) where
  open env use {Files, digest, encode, lower, signing_app_url}

  unfoldable pub add_signer : ℕ → ℕ → ℕ → SignerCreate → String → Action (Service Files) Signer
  add_signer now fresh i payload actor s =
      (do
        request ← find_request i
        raise_if (not (is_draft request.status))
            (workflow_error "Signers can only be added to a draft request" 409)
        let email = lower payload.email
        ids ← or_raise (lookup i s.request_signers) key_error
        taken ← or_raise (any_signer (λ x. str_eq x.auth_user_id email) s.signers ids) key_error
        raise_if taken (workflow_error "This authenticated user is already a signer" 409)
        let signer : Signer = record {
          id = fresh;
          signature_request_id = request.id;
          auth_user_id = email;
          name = payload.name;
          email = email;
          preferred_locale = payload.preferred_locale;
          status = pending;
          token_expires_at = now + seconds payload.token_ttl_seconds;
          link_revoked_at = none;
          signed_at = none;
        }
        modify (λ t. record t {
          signers = insert fresh signer t.signers;
          request_signers = insert i (ids ++ fresh ∷ []) t.request_signers;
        })
        modify (
            record_audit now i actor "signer.link_created" "signer" fresh
              (("token_expires_at", instant signer.token_expires_at) ∷ []))
        pure signer)
        s

  -- The random token is an argument.
  unfoldable pub create_signing_link : ℕ → String → ℕ → String → Action (Service Files) String
  create_signing_link now token i actor s =
      (do
        request ← find_request i
        raise_if (not (is_open request.status))
            (workflow_error "Only an open request can receive a signing link" 409)
        modify (λ t. record t {
          request_token_index =
              insert_text (digest (encode token)) request.id t.request_token_index;
        })
        modify (
            record_audit now request.id actor "signature_request.link_created" "signature_request"
              request.id [])
        pure (signing_app_url <> "/" <> token))
        s
