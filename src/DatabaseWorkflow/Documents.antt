-- ===== src/DatabaseWorkflow/Documents.antt =====
-- The operations of `DatabaseSignatureWorkflowService` on documents and their versions.
use rubrica_back.Base.{
  ℕ, ◌+◌, String, Bool, true, false, ◌&&◌, ◌||◌, not, Option, none, some, List, [], ◌∷◌, ◌++◌,
  str_eq, ◌==◌, if◌then◌else◌, is_none, find, any, keep, length, nonzero, get_or,
}
use rubrica_back.Base.Actions.{
  integrity_error, Result, ok, err, workflow_error, Action, pure, or_raise, raise_if, modify,
  transaction, ◌>>=◌, ◌>>◌,
}
use rubrica_back.Base.Dict.{values}
use rubrica_back.Store.{Instant, Tenant, Member, Database}
use rubrica_back.Billing.Account.{consume_document}
use rubrica_back.Tenant.Members.{is_admin, require_role}
use rubrica_back.Workflow.Types.{cancelled, ready, Bytes, DocumentCreate}
use rubrica_back.Workflow.Documents.{is_empty, is_frozen, is_active}
use rubrica_back.DatabaseWorkflow.Tables.{
  DocumentEntity, DocumentVersionEntity, SignatureRequestEntity, Tables, num, text, Env, Actor,
  caller_of, World, in_core, save_document, save_request, record_audit,
}
use rubrica_back.DatabaseWorkflow.Access.{
  may_write, get_document, document_read, DocumentRead, require_document_access,
}

-- The unique columns `storage_key` of the documents and their versions.
unfoldable pub key_is_used : String → Tables → Bool
key_is_used key t =
    any (λ d. str_eq d.storage_key key) (values t.documents)
    || any (λ v. str_eq v.storage_key key) t.versions

abbrev pub is_version : ℕ → ℕ → DocumentVersionEntity → Bool
is_version document_id version v = v.document_id == document_id && v.version == version

-- The insertion of a version, with its unique constraint.
unfoldable pub add_version_row : DocumentVersionEntity → Action Tables (Unit {0})
add_version_row v = λ t.
    (do
      raise_if (any (is_version v.document_id v.version) t.versions) integrity_error
      modify (λ u. record u { versions = u.versions ++ v ∷ [] }))
      t

-- The requests that freeze the document.
abbrev pub freezes : ℕ → SignatureRequestEntity → Bool
freezes document_id r = r.document_id == document_id && is_frozen r.status

abbrev pub active_for : ℕ → SignatureRequestEntity → Bool
active_for document_id r = r.document_id == document_id && is_active r.status

-- The loop of `delete_document`.
unfoldable pub cancel_requests : Instant → String → List SignatureRequestEntity → Tables → Tables
cancel_requests now actor [] t = t
cancel_requests now actor (r ∷ rs) t = cancel_requests now actor rs (
    record_audit now (some r.id) actor "signature_request.cancelled" "signature_request" r.id
      (("reason", text "document_deleted") ∷ []) (save_request (record r { status = cancelled }) t))

abbrev pub find_tenant_by_slug : String → Database → Option Tenant
find_tenant_by_slug slug db =
    find (λ t. str_eq t.slug slug && is_none t.deleted_at) (values db.tenants)

module _ (env : Env) where
  open env use {Files, digest, lower, account_of_subject}

  -- `with SessionLocal.begin() as db:`
  abbrev pub committed : {A : Type 0} → Action Tables A → Action (World env) A
  committed m w = let (r, t) = transaction m w.tables in (r, record w { tables = t })

  -- The world after the work on the tables around a stored object: the object is discarded again
  -- where the work raised.
  abbrev pub placed : {A : Type 0} → Result A × Tables → Files → Files → Result A × World env
  placed (ok a, t) stored discarded = (ok a, record { tables = t; files = stored })
  placed (err e, t) stored discarded = (err e, record { tables = t; files = discarded })

  -- An object that is put into the storage before its transaction ends.
  abbrev pub with_object :
      {A : Type 0} → ℕ → ℕ → String → Bytes → (String → ℕ → Action Tables A) → Action (World env) A
  with_object tenant_id account_id filename content rest w =
      let ((key, size), files) = env.put tenant_id account_id filename content w.files in
      placed (rest key size w.tables) files (env.discard_uncommitted key files)

  -- A transaction on the tables around work that also uses the storage.
  abbrev pub rollback : {A : Type 0} → Action (World env) A → Action (World env) A
  rollback m w =
      let (r, v) = m w in
      elim r [ ok a ↦ (ok a, v) | err e ↦ (err e, record v { tables = w.tables }) ]

  abbrev pub in_tables : {A : Type 0} → Action Tables A → Action (World env) A
  in_tables m w = let (r, t) = m w.tables in (r, record w { tables = t })

  -- `_account_storage_id`
  abbrev pub account_storage_id : Option ℕ → String → ℕ
  account_storage_id (some user) subject = user
  account_storage_id none subject = account_of_subject subject

  -- The part of `create_document` before the storage: the tenant, and a document of its allowance.
  unfoldable pub admit_upload : Instant → DocumentCreate → Actor → Action Tables (Tenant × Member)
  admit_upload now payload actor t = elim (find_tenant_by_slug payload.organization_id t.core) [
    | none ↦ (err (workflow_error "Tenant not found" 404), t)
    | some tenant ↦
        (do
          uploader ← in_core (require_role now tenant.id (caller_of env actor) may_write false)
          in_core (consume_document now tenant.id)
          pure (tenant, uploader))
          t
  ]

  -- The rows of a new document.
  unfoldable pub insert_document :
      Instant → ℕ → DocumentCreate → ℕ → Bytes → String → ℕ → Action Tables DocumentRead
  unfolding add_version_row key_is_used
  insert_document now id payload tenant_id content key size t =
      let d : DocumentEntity = record {
        id = id;
        organization_id = payload.organization_id;
        tenant_id = tenant_id;
        title = payload.title;
        original_filename = payload.original_filename;
        content_type = payload.content_type;
        storage_key = key;
        sha256 = digest content;
        version = 1;
        status = ready;
        created_by = payload.created_by;
        deleted_at = none;
      } in
      (do
        raise_if (key_is_used key t) integrity_error
        modify (save_document d)
        add_version_row (record {
          document_id = id;
          version = 1;
          original_filename = payload.original_filename;
          content_type = payload.content_type;
          storage_key = key;
          sha256 = digest content;
          size_bytes = size;
          created_by = payload.created_by;
        })
        modify (
            record_audit now none payload.created_by "document.uploaded" "document" id
              (("version", num 1) ∷ ("sha256", text (digest content)) ∷ []))
        λ u. (ok (document_read d u), u))
        t

  -- `create_document`; `created_by` of the payload is the actor.
  unfoldable pub create_document :
      Instant → ℕ → DocumentCreate → Option ℕ → Bytes → Action (World env) DocumentRead
  create_document now id payload user_id content w = elim (is_empty content) [
    | true ↦ (err (workflow_error "Document content cannot be empty" 400), w)
    | false ↦
        rollback
          (do
            (tenant, uploader) ← in_tables (
                admit_upload now payload
                  (record { subject = payload.created_by; user_id = user_id }))
            with_object tenant.id (account_storage_id uploader.auth_user_uuid payload.created_by)
                payload.original_filename content
                (insert_document now id payload tenant.id content))
          w
  ]

  -- The part of `add_version` before the storage.
  unfoldable pub admit_version : Instant → ℕ → Actor → Action Tables (DocumentEntity × Member)
  unfolding get_document
  admit_version now document_id actor = do
    d ← get_document document_id
    uploader ← in_core (require_role now d.tenant_id (caller_of env actor) may_write false)
    λ t.
        (do
          raise_if (any (freezes document_id) (values t.requests))
              (workflow_error "A frozen document cannot receive a new version" 409)
          pure (d, uploader))
          t

  -- The rows of a new version.
  unfoldable pub insert_version :
      Instant
      → DocumentEntity
      → String
      → String
      → String
      → Bytes
      → String
      → ℕ
      → Action Tables DocumentRead
  unfolding add_version_row key_is_used
  insert_version now d filename content_type actor content key size t =
      let e = record d {
        version = d.version + 1;
        original_filename = filename;
        content_type = content_type;
        storage_key = key;
        sha256 = digest content;
      } in
      (do
        raise_if (key_is_used key t) integrity_error
        modify (save_document e)
        add_version_row (record {
          document_id = d.id;
          version = d.version + 1;
          original_filename = filename;
          content_type = content_type;
          storage_key = key;
          sha256 = digest content;
          size_bytes = size;
          created_by = actor;
        })
        modify (
            record_audit now none actor "document.version_created" "document" d.id
              (("version", num (d.version + 1)) ∷ ("sha256", text (digest content)) ∷ []))
        λ u. (ok (document_read e u), u))
        t

  -- `add_version`
  unfoldable pub add_version :
      Instant → ℕ → String → String → Actor → Bytes → Action (World env) DocumentRead
  add_version now document_id filename content_type actor content w = elim (is_empty content) [
    | true ↦ (err (workflow_error "Document content cannot be empty" 400), w)
    | false ↦
        rollback
          (do
            (d, uploader) ← in_tables (admit_version now document_id actor)
            with_object d.tenant_id (account_storage_id uploader.auth_user_uuid actor.subject)
                filename content (insert_version now d filename content_type actor.subject content))
          w
  ]

  -- `get_document`
  unfoldable pub read_document : Instant → ℕ → Actor → Action Tables DocumentRead
  unfolding get_document
  read_document now document_id actor = do
    d ← get_document document_id
    require_document_access env now d none actor
    λ t. (ok (document_read d t), t)

  -- The part of `delete_document` that writes.
  unfoldable pub mark_deleted : Instant → Actor → Bool → DocumentEntity → Action Tables (Unit {0})
  mark_deleted now actor force d t =
      let active = keep (active_for d.id) (values t.requests) in
      (do
        raise_if (not (length active == 0) && not force)
            (workflow_error "Document has signature requests in progress" 409)
        modify (cancel_requests now actor.subject active)
        modify (save_document (record d { deleted_at = some now }))
        modify (
            record_audit now none actor.subject "document.deleted" "document" d.id
              (("cancelled_request_count", num (length active)) ∷ [])))
        t

  -- `delete_document`
  unfoldable pub delete_document : Instant → ℕ → Actor → Bool → Action Tables (Unit {0})
  unfolding get_document
  delete_document now document_id actor force = transaction (do
    d ← get_document document_id
    in_core (require_role now d.tenant_id (caller_of env actor) is_admin false)
    mark_deleted now actor force d)

  -- The content of a version: its digest is compared, and it is validated again.
  unfoldable pub read_version :
      DocumentVersionEntity → Action (World env) (DocumentVersionEntity × Bytes)
  read_version v w = elim (env.get v.storage_key w.files) [
    | none ↦ (err (workflow_error "StorageError" 500), w)
    | some content ↦
        if not (str_eq (digest content) v.sha256)
        then (err (workflow_error "Stored document integrity check failed" 409), w)
        else elim (env.validate_pdf content v.original_filename) [
          | some e ↦ (err e, w)
          | none ↦ (ok (v, content), w)
        ]
  ]

  -- `get_content`; the actor may be left out.
  unfoldable pub get_content :
      Instant → ℕ → Option ℕ → Option Actor → Action (World env) (DocumentVersionEntity × Bytes)
  unfolding get_document read_version
  get_content now document_id version actor = do
    v ← in_tables (do
      d ← get_document document_id
      elim actor [ none ↦ pure tt | some a ↦ require_document_access env now d none a ]
      λ t.
          or_raise (find (is_version d.id (get_or (nonzero version) d.version)) t.versions)
            (workflow_error "Document version not found" 404) t)
    read_version v
