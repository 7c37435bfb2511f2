-- ===== src/DatabaseWorkflow/Requests.antt =====
-- The operations of `DatabaseSignatureWorkflowService` on requests.
use Prim.Native.String.{◌++◌ as ◌<>◌}
use rubrica_back.Base.{
  ℕ, String, Bool, true, false, ◌&&◌, ◌||◌, not, Option, none, some, List, [], ◌∷◌, str_eq, leb,
  ◌==◌, if◌then◌else◌, is_none, is_some, any, keep, map, count, truthy,
}
use rubrica_back.Base.Actions.{
  integrity_error, Error, ok, err, workflow_error, Action, pure, raise, or_raise, raise_if, modify,
  transaction, ◌>>=◌, ◌>>◌,
}
use rubrica_back.Base.Dict.{lookup, values}
use rubrica_back.Store.{Instant}
use rubrica_back.Billing.Access.{business_features_enabled}
use rubrica_back.Tenant.Members.{require_role}
use rubrica_back.Workflow.Types.{
  draft, open_for_signing, cancelled, SignatureMode, evidence, serpro_timestamp, serproid,
  SignatureRequestCreate, SignerStatus,
}
use rubrica_back.Workflow.Documents.{is_frozen, is_active}
use rubrica_back.Workflow.Requests.{is_draft}
use rubrica_back.DatabaseWorkflow.Tables.{
  SignatureRequestEntity, SignerEntity, AuditEventEntity, Tables, num, text, Env, Actor, caller_of,
  in_core, save_request, record_audit,
}
use rubrica_back.DatabaseWorkflow.Access.{
  may_write, get_document, signs_for, issuer_snapshot, RequestRead, request_read, open_access,
}

abbrev pub mode_name : SignatureMode → String
mode_name evidence = "evidence"
mode_name serpro_timestamp = "serpro_timestamp"
mode_name serproid = "serproid"

-- `identifier_type in {"BR_CPF", "BR_CNPJ"}`
abbrev pub is_brazilian : Option String → Bool
is_brazilian none = false
is_brazilian (some t) = str_eq t "BR_CPF" || str_eq t "BR_CNPJ"

-- `status in {PENDING, VIEWED}`, and a link that is not revoked.
abbrev pub awaits : ℕ → SignerEntity → Bool
awaits request_id s =
    signs_for request_id s
    && elim s.status [ SignerStatus.pending ↦ true | SignerStatus.viewed ↦ true | _ ↦ false ]
    && is_none s.link_revoked_at

-- A mail that `send_signature_invitation` is asked for.
pub record Invitation : Type 0 where
  pub recipient : String
  pub signer_name : String
  pub locale : String
  pub document_title : String
  pub signing_url : String
  pub request_id : ℕ
  pub signer_id : ℕ
  pub nonce : String

-- The answer of `create_signing_link`, and the mails that follow its transaction.
pub record SigningLink : Type 0 where
  pub signing_url : String
  pub invitations : List Invitation

-- Another request has the token: `signing_token_hash` is unique.
abbrev pub has_hash : ℕ → String → SignatureRequestEntity → Bool
has_hash i hash r =
    not (r.id == i) && elim r.signing_token_hash [ none ↦ false | some h ↦ str_eq h hash ]

module _ (env : Env) where
  open env use {digest_text, request_token, signing_app_url}

  -- `create_request`
  unfoldable pub create_request :
      Instant → ℕ → SignatureRequestCreate → Option ℕ → Action Tables RequestRead
  unfolding get_document issuer_snapshot
  create_request now id payload user_id t =
      let actor : Actor = record { subject = payload.created_by; user_id = user_id } in
      elim (leb payload.expires_at now) [
        | true ↦ (err (workflow_error "Expiration must be in the future" 400), t)
        | false ↦
            transaction
              (do
                d ← get_document payload.document_id
                in_core (require_role now d.tenant_id (caller_of env actor) may_write false)
                λ u. elim (lookup d.tenant_id u.core.tenants) [
                  | none ↦ (err (workflow_error "Tenant not found" 404), u)
                  | some tenant ↦
                      (do
                        raise_if (is_some tenant.deleted_at) (workflow_error "Tenant not found" 404)
                        let r : SignatureRequestEntity = record {
                          id = id;
                          document_id = d.id;
                          document_version = d.version;
                          document_sha256 = d.sha256;
                          status = draft;
                          expires_at = payload.expires_at;
                          created_by = payload.created_by;
                          completed_at = none;
                          signing_token_hash = none;
                          signing_token_nonce = none;
                          signature_mode = evidence;
                          issuer_snapshot = issuer_snapshot tenant;
                          deleted_at = none;
                        }
                        modify (save_request r)
                        modify (
                            record_audit now (some id) payload.created_by
                              "signature_request.created" "signature_request" id
                              (("document_version", num d.version)
                                ∷ ("document_sha256", text d.sha256)
                                ∷ []))
                        λ v. (ok (request_read r v), v))
                        u
                ])
              t
      ]

  -- `get_request`
  unfoldable pub get_request : Instant → ℕ → Actor → Action Tables RequestRead
  get_request now i actor = do r ← open_access env now i actor; λ t. (ok (request_read r t), t)

  -- `list_signers`
  unfoldable pub list_signers : Instant → ℕ → Actor → Action Tables (List SignerEntity)
  list_signers now i actor = do
    r ← open_access env now i actor
    λ t. (ok (keep (signs_for r.id) (values t.signers)), t)

  abbrev pub is_event_of : ℕ → AuditEventEntity → Bool
  is_event_of i e = elim e.signature_request_id [ none ↦ false | some j ↦ j == i ]

  -- `audit_events`
  unfoldable pub audit_events : Instant → ℕ → Actor → Action Tables (List AuditEventEntity)
  audit_events now i actor = do
    r ← open_access env now i actor
    λ t. (ok (keep (is_event_of r.id) t.audit), t)

  -- The tests of `open_request` that depend on the mode.
  unfoldable pub check_mode : SignatureMode → ℕ → List SignerEntity → Option Error
  check_mode evidence n signers = none
  check_mode serpro_timestamp n signers =
      if env.timestamp_enabled
      then none
      else some (workflow_error "SERPRO timestamp is not configured" 409)
  check_mode serproid n signers =
      if not env.serproid_enabled
      then some (workflow_error "Serpro ID is not configured" 409)
      else if not (n == 1)
      then some (workflow_error "Serpro ID requests currently require exactly one signer" 409)
      else elim signers [
        | [] ↦ some (workflow_error "The Serpro ID signer must have a Brazilian CPF or CNPJ" 409)
        | s ∷ _ ↦
            if is_brazilian (env.identity_summary s.email).identifier_type
            then none
            else some (workflow_error "The Serpro ID signer must have a Brazilian CPF or CNPJ" 409)
      ]

  -- `open_request`
  unfoldable pub open_request : Instant → ℕ → Actor → SignatureMode → Action Tables RequestRead
  unfolding get_document check_mode
  open_request now i actor mode = transaction (do
    r ← open_access env now i actor
    λ t.
        (do
          raise_if (not (is_draft r.status))
              (workflow_error "Only a draft request can be opened" 409)
          let n : ℕ = count (signs_for r.id) (values t.signers)
          raise_if (n == 0) (workflow_error "At least one signer is required" 409)
          elim (check_mode mode n (keep (signs_for r.id) (values t.signers))) [
            | none ↦ pure tt
            | some e ↦ raise e
          ]
          d ← get_document r.document_id
          raise_if
              (not (d.version == r.document_version) || not (str_eq d.sha256 r.document_sha256))
              (workflow_error "Document changed after request creation" 409)
          let opened = record r { status = open_for_signing; signature_mode = mode }
          modify (save_request opened)
          modify (
              record_audit now (some r.id) actor.subject "signature_request.opened"
                "signature_request" r.id (("signature_mode", text (mode_name mode)) ∷ []))
          λ u. (ok (request_read opened u), u))
          t)

  -- `cancel_request`
  unfoldable pub cancel_request : Instant → ℕ → Actor → Action Tables RequestRead
  cancel_request now i actor = transaction (do
    r ← open_access env now i actor
    raise_if (not (is_active r.status)) (workflow_error "Request cannot be cancelled" 409)
    modify (save_request (record r { status = cancelled }))
    modify (
        record_audit now (some r.id) actor.subject "signature_request.cancelled" "signature_request"
          r.id [])
    λ u. (ok (request_read (record r { status = cancelled }) u), u))

  abbrev pub signing_url : String → String
  signing_url token = signing_app_url <> "/" <> token

  -- `create_signing_link`, with the random nonce as an argument
  unfoldable pub create_signing_link : Instant → String → ℕ → Actor → Action Tables SigningLink
  unfolding get_document
  create_signing_link now nonce i actor = transaction (do
    r ← open_access env now i actor
    raise_if (not (is_frozen r.status))
        (workflow_error "Only an open or completed request can receive a signing link" 409)
    let token : String = request_token r.id nonce
    λ t.
        (do
          raise_if (any (has_hash r.id (digest_text token)) (values t.requests)) integrity_error
          modify (
              save_request (record r {
                signing_token_nonce = some nonce;
                signing_token_hash = some (digest_text token);
              }))
          modify (
              record_audit now (some r.id) actor.subject "signature_request.link_created"
                "signature_request" r.id [])
          d ← get_document r.document_id
          λ u. (
            ok (record {
              signing_url = signing_url token;
              invitations =
                  if business_features_enabled now d.tenant_id u.core
                  then map
                      (λ (s : SignerEntity). record {
                        recipient = s.email;
                        signer_name = s.name;
                        locale = s.preferred_locale;
                        document_title = d.title;
                        signing_url = signing_url token;
                        request_id = r.id;
                        signer_id = s.id;
                        nonce = nonce;
                      })
                      (keep (awaits r.id) (values u.signers))
                  else [];
            }),
            u,
          ))
          t)

  -- `get_signing_link`
  unfoldable pub get_signing_link : Instant → ℕ → Actor → Action Tables String
  get_signing_link now i actor = do
    r ← open_access env now i actor
    nonce ←
        or_raise (truthy r.signing_token_nonce)
          (workflow_error "Signing link must be generated again" 404)
    raise_if
        (not (elim r.signing_token_hash [
          | none ↦ false
          | some h ↦ str_eq (digest_text (request_token r.id nonce)) h
        ]))
        (workflow_error "Signing link integrity check failed" 409)
    pure (signing_url (request_token r.id nonce))
