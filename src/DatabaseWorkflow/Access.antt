-- ===== src/DatabaseWorkflow/Access.antt =====
-- The lookups of `DatabaseSignatureWorkflowService` that raise, its access tests, its resolution of
-- a signing link, and what it returns of a row.
use rubrica_back.Base.{
  ℕ, String, Bool, true, false, ◌&&◌, ◌||◌, not, Option, none, some, [], str_eq, leb, ◌==◌,
  if◌then◌else◌, is_none, is_some, find, any, count,
}
use rubrica_back.Base.Actions.{
  Error, ok, err, workflow_error, Action, pure, raise, raise_if, modify, ◌>>=◌, ◌>>◌,
}
use rubrica_back.Base.Dict.{lookup, values}
use rubrica_back.Store.{Instant, Tenant, Role, admin, member}
use rubrica_back.Tenant.Members.{is_admin, require_role}
use rubrica_back.Workflow.Service.{is_open, is_signed}
use rubrica_back.DatabaseWorkflow.Tables.{
  DocumentEntity, IssuerSnapshot, SignatureRequestEntity, SignerEntity, Tables, Env, Actor,
  caller_of, in_core, record_audit,
}

-- `{"admin", "member"}`
abbrev pub may_write : Role → Bool
may_write admin = true
may_write member = true
may_write _ = false

abbrev pub any_role : Role → Bool
any_role _ = true

-- `_document`; an identifier that is no `UUID` finds nothing either.
unfoldable pub get_document : ℕ → Action Tables DocumentEntity
get_document i t = elim (lookup i t.documents) [
  | none ↦ (err (workflow_error "Document not found" 404), t)
  | some d ↦
      if is_none d.deleted_at then (ok d, t) else (err (workflow_error "Document not found" 404), t)
]

-- `_request`
unfoldable pub get_request_row : ℕ → Action Tables SignatureRequestEntity
get_request_row i t = elim (lookup i t.requests) [
  | none ↦ (err (workflow_error "Signature request not found" 404), t)
  | some r ↦
      if is_none r.deleted_at
      then (ok r, t)
      else (err (workflow_error "Signature request not found" 404), t)
]

-- `_signer`
unfoldable pub get_signer : ℕ → ℕ → Action Tables SignerEntity
get_signer i request_id t = elim (lookup i t.signers) [
  | none ↦ (err (workflow_error "Signer not found" 404), t)
  | some s ↦
      if s.signature_request_id == request_id
      then (ok s, t)
      else (err (workflow_error "Signer not found" 404), t)
]

abbrev pub signs_for : ℕ → SignerEntity → Bool
signs_for request_id s = s.signature_request_id == request_id

abbrev pub names_user : String → SignerEntity → Bool
names_user user s = str_eq s.auth_user_id user || str_eq s.email user

-- A request of the document that is not deleted, and is the given one if one is given.
abbrev pub joins_document : ℕ → Option ℕ → SignatureRequestEntity → Bool
joins_document document_id request r =
    r.document_id == document_id
    && is_none r.deleted_at
    && elim request [ none ↦ true | some i ↦ r.id == i ]

-- The query of `_require_document_access`: a signer of such a request who is the user.
unfoldable pub is_invited : ℕ → Option ℕ → String → Tables → Bool
is_invited document_id request user t =
    any
      (λ s.
        names_user user s
        && any (λ r. r.id == s.signature_request_id && joins_document document_id request r)
            (values t.requests))
      (values t.signers)

-- `_document_read`, the part that is computed: the size of the current version, the requests that
-- are not deleted, and their signatures.
pub record DocumentRead : Type 0 where
  pub document : DocumentEntity
  pub size_bytes : Option ℕ
  pub signature_request_count : ℕ
  pub completed_signature_count : ℕ

unfoldable pub document_read : DocumentEntity → Tables → DocumentRead
document_read d t = record {
  document = d;
  size_bytes = elim (find (λ v. v.document_id == d.id && v.version == d.version) t.versions) [
    | none ↦ none
    | some v ↦ some v.size_bytes
  ];
  signature_request_count = count (joins_document d.id none) (values t.requests);
  completed_signature_count =
      count
        (λ s.
          is_signed s.status
          && any (λ r. r.id == s.signature_request_id && joins_document d.id none r)
              (values t.requests))
        (values t.signers);
}

-- `_request_read`
pub record RequestRead : Type 0 where
  pub request : SignatureRequestEntity
  pub signer_count : ℕ
  pub signed_count : ℕ
  pub document_title : String
  pub original_filename : String

unfoldable pub request_read : SignatureRequestEntity → Tables → RequestRead
request_read r t = record {
  request = r;
  signer_count = count (signs_for r.id) (values t.signers);
  signed_count = count (λ s. signs_for r.id s && is_signed s.status) (values t.signers);
  document_title = elim (lookup r.document_id t.documents) [ none ↦ "" | some d ↦ d.title ];
  original_filename = elim (lookup r.document_id t.documents) [
    | none ↦ ""
    | some d ↦ d.original_filename
  ];
}

-- `issuer_snapshot`
unfoldable pub issuer_snapshot : Tenant → IssuerSnapshot
issuer_snapshot t = record {
  tenant_id = t.id;
  tenant_kind = t.kind;
  display_name = t.name;
  legal_name = t.legal_name;
  registration_country = t.registration_country;
  registration_type = t.registration_type;
  registration_masked = t.registration_masked;
  registration_verification_status = t.registration_verification_status;
}

module _ (env : Env) where
  -- `_require_document_access`
  unfoldable pub require_document_access :
      Instant → DocumentEntity → Option ℕ → Actor → Action Tables (Unit {0})
  unfolding is_invited
  require_document_access now d request actor = do
    found ← in_core (require_role now d.tenant_id (caller_of env actor) any_role false)
    λ t.
        raise_if
          (not (
            is_admin found.role
            || str_eq (env.lower d.created_by) (env.lower actor.subject)
            || is_invited d.id request (env.lower actor.subject) t))
          (workflow_error "Document access is not allowed" 403) t

  -- `_require_request_access`; the document may be deleted.
  unfoldable pub require_request_access :
      Instant → SignatureRequestEntity → Actor → Action Tables (Unit {0})
  unfolding require_document_access
  require_request_access now r actor t = elim (lookup r.document_id t.documents) [
    | none ↦ (err (workflow_error "Document not found" 404), t)
    | some d ↦ require_document_access now d (some r.id) actor t
  ]

  -- `_request` and `_require_request_access`, with which most operations begin.
  unfoldable pub open_access : Instant → ℕ → Actor → Action Tables SignatureRequestEntity
  unfolding require_request_access get_request_row
  open_access now i actor = do r ← get_request_row i; require_request_access now r actor; pure r

  -- `_request_from_token`
  unfoldable pub request_from_token : String → Action Tables SignatureRequestEntity
  request_from_token token t =
      elim (find
        (λ r.
          elim r.signing_token_hash [ none ↦ false | some h ↦ str_eq h (env.digest_text token) ]
          && is_none r.deleted_at)
        (values t.requests)) [
          | none ↦ (err (workflow_error "Signing link is invalid" 404), t)
          | some r ↦ (ok r, t)
        ]

  -- The signer of the request who is the user; the pair is unique.
  unfoldable pub find_signer : ℕ → String → Tables → Option SignerEntity
  find_signer request_id user t =
      find (λ s. signs_for request_id s && str_eq s.auth_user_id (env.lower user))
        (values t.signers)

  -- The tests of `_resolve_request` on a signer and a request.
  unfoldable pub check_link : Instant → Bool → SignerEntity → SignatureRequestEntity → Option Error
  check_link now allow_completed s r =
      let signed_history = allow_completed && is_signed s.status in
      if is_some s.link_revoked_at
      then some (workflow_error "Signing access has been revoked" 410)
      else if leb r.expires_at now && not signed_history
      then some (workflow_error "Signature request has expired" 410)
      else if not (is_open r.status) && not signed_history
      then some (workflow_error "Signature request is not open" 409)
      else none

  -- `_resolve_request`: the failed authorization is recorded before the error is raised.
  unfoldable pub resolve_request :
      Instant → String → Actor → Bool → Action Tables (SignerEntity × SignatureRequestEntity)
  unfolding request_from_token find_signer check_link
  resolve_request now token actor allow_completed = do
    r ← request_from_token token
    λ t. elim (find_signer r.id actor.subject t) [
      | none ↦
          (do
            modify (
                record_audit now (some r.id) actor.subject "authorization.failed"
                  "signature_request" r.id [])
            raise
                (workflow_error "Authenticated user does not match a signer for this request" 403))
            t
      | some s ↦ elim (check_link now allow_completed s r) [
        | some e ↦ (err e, t)
        | none ↦ (ok (s, r), t)
      ]
    ]
