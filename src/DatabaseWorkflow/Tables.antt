-- ===== src/DatabaseWorkflow/Tables.antt =====
-- The tables of the signature workflow: document_entity.py and signature_request_entity.py of
-- apps/core_api/src/core_api/modules, and what the service takes from outside. A table is a dict
-- under its primary key, beside the tables of billing and tenants.
use rubrica_back.Base.{ℕ, String, Bool, Option, List, [], ◌∷◌, ◌++◌}
use rubrica_back.Base.Actions.{Error, Action}
use rubrica_back.Base.Dict.{Dict, insert}
use rubrica_back.Store.{Instant, Database, TenantKind, Role}
use rubrica_back.Tenant.Members.{Caller}
use rubrica_back.Workflow.Types.{
  RequestStatus, SignerStatus, SignatureMode, DocumentStatus, Bytes, StampPosition,
}

pub record DocumentEntity : Type 0 where
  pub id : ℕ
  pub organization_id : String
  pub tenant_id : ℕ
  pub title : String
  pub original_filename : String
  pub content_type : String
  pub storage_key : String
  pub sha256 : String
  pub version : ℕ
  pub status : DocumentStatus
  pub created_by : String
  pub deleted_at : Option Instant

pub record DocumentVersionEntity : Type 0 where
  pub document_id : ℕ
  pub version : ℕ
  pub original_filename : String
  pub content_type : String
  pub storage_key : String
  pub sha256 : String
  pub size_bytes : ℕ
  pub created_by : String

-- `issuer_snapshot`
pub record IssuerSnapshot : Type 0 where
  pub tenant_id : ℕ
  pub tenant_kind : TenantKind
  pub display_name : String
  pub legal_name : Option String
  pub registration_country : Option String
  pub registration_type : Option String
  pub registration_masked : Option String
  pub registration_verification_status : Option String

pub record SignatureRequestEntity : Type 0 where
  pub id : ℕ
  pub document_id : ℕ
  pub document_version : ℕ
  pub document_sha256 : String
  pub status : RequestStatus
  pub expires_at : Instant
  pub created_by : String
  pub completed_at : Option Instant
  pub signing_token_hash : Option String
  pub signing_token_nonce : Option String
  pub signature_mode : SignatureMode
  pub issuer_snapshot : IssuerSnapshot
  pub deleted_at : Option Instant

pub data ParticipantRole : Type 0 where
  personal_signer external_signer company_representative corporate_seal : ParticipantRole

-- `representation_snapshot`: the issuer, the role of the representative and the instant.
pub record RepresentationSnapshot : Type 0 where
  pub issuer : IssuerSnapshot
  pub representative_role : Role
  pub authorized_at : Instant

pub record SignerEntity : Type 0 where
  pub id : ℕ
  pub signature_request_id : ℕ
  pub auth_user_id : String
  pub name : String
  pub email : String
  pub preferred_locale : String
  pub signing_token_hash : String
  pub token_expires_at : Instant
  pub link_revoked_at : Option Instant
  pub status : SignerStatus
  pub signed_at : Option Instant
  pub participant_role : ParticipantRole
  pub represented_tenant_id : Option ℕ
  pub representation_snapshot : Option RepresentationSnapshot
  pub deleted_at : Option Instant

-- `ClientEvidence` and `GeolocationEvidence`; a float is kept as its text.
pub record ClientEvidence : Type 0 where
  pub platform : String
  pub language : String
  pub timezone : String
  pub screen_width : Option ℕ
  pub screen_height : Option ℕ

pub record GeolocationEvidence : Type 0 where
  pub status : String
  pub latitude : Option String
  pub longitude : Option String
  pub accuracy_meters : Option String

-- The dict of `_signature_evidence`, with the two entries that `sign` adds to it.
pub record Evidence : Type 0 where
  pub consent_version : String
  pub request_id : ℕ
  pub signer_id : ℕ
  pub document_id : ℕ
  pub document_version : ℕ
  pub original_sha256 : String
  pub subject_hmac_sha256 : String
  pub identity_binding_hmac_sha256 : String
  pub signer_name : String
  pub identity_document_type : Option String
  pub identity_document_country : Option String
  pub identity_document_masked : Option String
  pub signer_email : String
  pub participant_role : ParticipantRole
  pub represented_tenant_id : Option ℕ
  pub representation_snapshot : Option RepresentationSnapshot
  pub issuer_snapshot : IssuerSnapshot
  pub signed_at : Instant
  pub stamp : StampPosition
  pub country_code : Option String
  pub show_flag : Bool
  pub ip_address : String
  pub user_agent : String
  pub device_type : String
  pub client : ClientEvidence
  pub geolocation : GeolocationEvidence
  pub signature_mode : SignatureMode
  pub certificate_signature : Option String

pub record SignatureEntity : Type 0 where
  pub id : ℕ
  pub signature_request_id : ℕ
  pub signer_id : ℕ
  pub auth_user_id : String
  pub document_sha256 : String
  pub signed_at : Instant
  pub evidence : Evidence
  pub evidence_sha256 : String
  pub artifact_storage_key : String
  pub artifact_sha256 : String
  pub trusted_timestamp : Option String

-- The values that audit metadata holds.
pub data Detail : Type 0 where
  num : ℕ → Detail
  text : String → Detail
  instant : Instant → Detail

pub record AuditEventEntity : Type 0 where
  pub signature_request_id : Option ℕ
  pub occurred_at : Instant
  pub actor_id : String
  pub action : String
  pub entity_type : String
  pub entity_id : ℕ
  pub metadata : List (String × Detail)

pub record Tables : Type 0 where
  pub core : Database
  pub documents : Dict DocumentEntity
  pub versions : List DocumentVersionEntity
  pub requests : Dict SignatureRequestEntity
  pub signers : Dict SignerEntity
  pub signatures : List SignatureEntity
  pub audit : List AuditEventEntity

-- What `identity_summary` answers.
pub record IdentitySummary : Type 0 where
  pub identifier_type : Option String
  pub issuing_country : Option String
  pub masked_display : Option String

-- What the service takes from outside. A function that raises answers `none`, or the error.
pub record Env : Type 1 where
  pub Files : Type 0
  -- the storage: scope (tenant and account), file name, content
  pub put : ℕ → ℕ → String → Bytes → Files → (String × ℕ) × Files
  pub get : String → Files → Option Bytes
  pub discard_uncommitted : String → Files → Files
  pub digest : Bytes → String
  pub digest_text : String → String
  pub evidence_sha256 : Evidence → String
  pub hmac : String → String
  pub show : ℕ → String
  pub lower : String → String
  pub strip : String → String
  pub account_of_subject : String → ℕ
  pub request_token : ℕ → String → String
  pub signing_app_url : String
  pub validate_pdf : Bytes → String → Option Error
  pub has_embedded_signatures : Bytes → Bool
  pub generate_signed_pdf :
      Bytes → List (Evidence × String) → SignatureRequestEntity → String → Option Bytes
  pub apply_timestamp : Bytes → Option (Bytes × String)
  pub timestamp_enabled : Bool
  pub serproid_enabled : Bool
  pub identity_summary : String → IdentitySummary

-- The caller: the subject as it is given, and the user of the authentication context.
pub record Actor : Type 0 where
  pub subject : String
  pub user_id : Option ℕ

module _ (env : Env) where
  abbrev pub caller_of : Actor → Caller
  caller_of a = record { subject = env.lower a.subject; user_id = a.user_id }

  -- The tables and the object storage, which no rollback takes back.
  pub record World : Type 0 where
    pub tables : Tables
    pub files : env.Files

abbrev pub in_core : {A : Type 0} → Action Database A → Action Tables A
in_core m t = let (r, db) = m t.core in (r, record t { core = db })

abbrev pub save_document : DocumentEntity → Tables → Tables
save_document d t = record t { documents = insert d.id d t.documents }

abbrev pub save_request : SignatureRequestEntity → Tables → Tables
save_request r t = record t { requests = insert r.id r t.requests }

abbrev pub save_signer : SignerEntity → Tables → Tables
save_signer s t = record t { signers = insert s.id s t.signers }

-- `_audit`
abbrev pub record_audit :
    Instant → Option ℕ → String → String → String → ℕ → List (String × Detail) → Tables → Tables
record_audit now request_id actor action entity_type entity metadata t =
    let event : AuditEventEntity = record {
      signature_request_id = request_id;
      occurred_at = now;
      actor_id = actor;
      action = action;
      entity_type = entity_type;
      entity_id = entity;
      metadata = metadata;
    } in
    record t { audit = t.audit ++ event ∷ [] }
