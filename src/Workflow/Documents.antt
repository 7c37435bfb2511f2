-- ===== src/Workflow/Documents.antt =====
-- The operations of `SignatureWorkflowService` on documents. Each takes the instant `now` and the
-- fresh identifier that the source draws.
use rubrica_back.Base.{
  ℕ, ◌+◌, String, Bool, true, false, ◌&&◌, not, List, [], ◌∷◌, ◌++◌, ◌==◌, length, any, keep,
}
use rubrica_back.Base.Actions.{
  workflow_error, Action, pure, or_raise, raise_if, modify, ◌>>=◌, ◌>>◌,
}
use rubrica_back.Base.Dict.{lookup, insert, erase, values}
use rubrica_back.Workflow.Types.{
  RequestStatus, open_for_signing, completed, cancelled, ready, Bytes, Document, DocumentVersion,
  StoredVersion, SignatureRequest, num, text, DocumentCreate, Service, Env,
}
use rubrica_back.Workflow.Service.{key_error, get_document, record_audit}

abbrev pub is_empty : Bytes → Bool
is_empty [] = true
is_empty (_ ∷ _) = false

-- `status in {RequestStatus.OPEN, RequestStatus.COMPLETED}`
abbrev pub is_frozen : RequestStatus → Bool
is_frozen open_for_signing = true
is_frozen completed = true
is_frozen _ = false

-- `status in {RequestStatus.DRAFT, RequestStatus.OPEN}`
abbrev pub is_active : RequestStatus → Bool
is_active RequestStatus.draft = true
is_active open_for_signing = true
is_active _ = false

-- The documents and requests that `list_documents` and the comprehension of `delete_document` read.
unfoldable pub list_documents : {F : Type 0} → Service F → List Document
list_documents s = values s.documents

unfoldable pub active_requests : {F : Type 0} → ℕ → Service F → List SignatureRequest
active_requests i s = keep (λ r. (r.document_id == i) && is_active r.status) (values s.requests)

-- One round of the loop of `delete_document`.
unfoldable pub cancel_with_document :
    {F : Type 0} → ℕ → String → SignatureRequest → Service F → Service F
cancel_with_document now actor r s =
    record_audit now r.id actor "signature_request.cancelled" "signature_request" r.id
      (("reason", text "document_deleted") ∷ [])
      (record s { requests = insert r.id (record r { status = cancelled }) s.requests })

unfoldable pub cancel_all :
    {F : Type 0} → ℕ → String → List SignatureRequest → Service F → Service F
cancel_all now actor [] s = s
cancel_all now actor (r ∷ rs) s = cancel_all now actor rs (cancel_with_document now actor r s)

unfoldable pub delete_document :
    {F : Type 0} → ℕ → ℕ → String → Bool → Action (Service F) (Unit {0})
delete_document now i actor force s =
    (do
      get_document i
      let active = active_requests i s
      raise_if (not (length active == 0) && not force)
          (workflow_error "Document has signature requests in progress" 409)
      modify (cancel_all now actor active)
      modify (λ t. record t { documents = erase i t.documents })
      modify (
          record_audit now i actor "document.deleted" "document" i
            (("cancelled_request_count", num (length active)) ∷ [])))
      s

module _ (env : Env) where
  open env use {Files, put, digest}

  unfoldable pub create_document : ℕ → ℕ → DocumentCreate → Bytes → Action (Service Files) Document
  create_document now fresh payload content s =
      (do
        raise_if (is_empty content) (workflow_error "Document content cannot be empty" 400)
        let sha = digest content
        let stored = put content payload.original_filename s.storage
        let item : Document = record {
          id = fresh;
          organization_id = payload.organization_id;
          title = payload.title;
          original_filename = payload.original_filename;
          content_type = payload.content_type;
          sha256 = sha;
          version = 1;
          status = ready;
          created_by = payload.created_by;
          created_at = now;
          updated_at = now;
        }
        let version : DocumentVersion = record {
          document_id = fresh;
          version = 1;
          original_filename = payload.original_filename;
          content_type = payload.content_type;
          sha256 = sha;
          size_bytes = stored.0.1;
          created_by = payload.created_by;
          created_at = now;
        }
        let kept : StoredVersion = record { read = version; storage_key = stored.0.0 }
        modify (λ t. record t {
          storage = stored.1;
          documents = insert fresh item t.documents;
          versions = insert fresh (kept ∷ []) t.versions;
        })
        modify (
            record_audit now fresh payload.created_by "document.uploaded" "document" fresh
              (("version", num 1) ∷ ("sha256", text sha) ∷ []))
        pure item)
        s

  unfoldable pub add_version :
      ℕ → ℕ → String → String → String → Bytes → Action (Service Files) Document
  add_version now i filename content_type actor content s =
      (do
        raise_if (is_empty content) (workflow_error "Document content cannot be empty" 400)
        current ← get_document i
        raise_if (any (λ r. (r.document_id == i) && is_frozen r.status) (values s.requests))
            (workflow_error "A frozen document cannot receive a new version" 409)
        let number = current.version + 1
        let sha = digest content
        let stored = put content filename s.storage
        let version : DocumentVersion = record {
          document_id = i;
          version = number;
          original_filename = filename;
          content_type = content_type;
          sha256 = sha;
          size_bytes = stored.0.1;
          created_by = actor;
          created_at = now;
        }
        let kept : StoredVersion = record { read = version; storage_key = stored.0.0 }
        let updated = record current {
          original_filename = filename;
          content_type = content_type;
          sha256 = sha;
          version = number;
          updated_at = now;
        }
        modify (λ t. record t { storage = stored.1 })
        old ← or_raise (lookup i s.versions) key_error
        modify (λ t. record t {
          versions = insert i (old ++ kept ∷ []) t.versions;
          documents = insert i updated t.documents;
        })
        modify (
            record_audit now i actor "document.version_created" "document" i
              (("version", num number) ∷ ("sha256", text sha) ∷ []))
        pure updated)
        s
