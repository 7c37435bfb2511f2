-- ===== src/Workflow/Types.antt =====
-- The data of the signature workflow: workflow_schema.py and document_schema.py of
-- apps/core_api/src/core_api/modules, the fields of `SignatureWorkflowService`, and what the
-- service takes from outside. Identifiers (`UUID`) are numbers, instants are microseconds since
-- the epoch. Fields that this service neither sets nor reads are left out.
use rubrica_back.Base.{ℕ, String, Option, List}
use rubrica_back.Base.Dict.{Dict, TextDict}

pub data RequestStatus : Type 0 where
  draft open_for_signing completed expired cancelled : RequestStatus

pub data SignerStatus : Type 0 where
  pending viewed signed declined expired : SignerStatus

pub data SignatureMode : Type 0 where
  evidence serpro_timestamp serproid : SignatureMode

pub data DocumentStatus : Type 0 where
  draft ready archived : DocumentStatus

abbrev pub Bytes : Type 0
Bytes = List ℕ

pub record Document : Type 0 where
  pub id : ℕ
  pub organization_id : String
  pub title : String
  pub original_filename : String
  pub content_type : String
  pub sha256 : String
  pub version : ℕ
  pub status : DocumentStatus
  pub created_by : String
  pub created_at : ℕ
  pub updated_at : ℕ

pub record DocumentVersion : Type 0 where
  pub document_id : ℕ
  pub version : ℕ
  pub original_filename : String
  pub content_type : String
  pub sha256 : String
  pub size_bytes : ℕ
  pub created_by : String
  pub created_at : ℕ

pub record StoredVersion : Type 0 where
  pub read : DocumentVersion
  pub storage_key : String

pub record SignatureRequest : Type 0 where
  pub id : ℕ
  pub document_id : ℕ
  pub document_version : ℕ
  pub document_sha256 : String
  pub status : RequestStatus
  pub expires_at : ℕ
  pub created_by : String
  pub created_at : ℕ
  pub completed_at : Option ℕ
  pub signer_count : ℕ
  pub signed_count : ℕ
  pub signature_mode : SignatureMode

pub record Signer : Type 0 where
  pub id : ℕ
  pub signature_request_id : ℕ
  pub auth_user_id : String
  pub name : String
  pub email : String
  pub preferred_locale : String
  pub status : SignerStatus
  pub token_expires_at : ℕ
  pub link_revoked_at : Option ℕ
  pub signed_at : Option ℕ

-- `StampPosition`: the page, and the place on it as the texts of two floats.
pub record StampPosition : Type 0 where
  pub page : ℕ
  pub x : String
  pub y : String
  pub template : String

-- The values that audit metadata holds.
pub data Detail : Type 0 where
  num : ℕ → Detail
  text : String → Detail
  instant : ℕ → Detail
  stamp : StampPosition → Detail

-- `AuditEventRead`, without its two random identifiers, which nothing reads.
pub record AuditEvent : Type 0 where
  pub occurred_at : ℕ
  pub actor_id : String
  pub action : String
  pub entity_type : String
  pub entity_id : ℕ
  pub metadata : List (String × Detail)

-- The payloads of `create_document`, `create_request` and `add_signer`.
pub record DocumentCreate : Type 0 where
  pub organization_id : String
  pub title : String
  pub original_filename : String
  pub content_type : String
  pub created_by : String

pub record SignatureRequestCreate : Type 0 where
  pub document_id : ℕ
  pub expires_at : ℕ
  pub created_by : String

pub record SignerCreate : Type 0 where
  pub name : String
  pub email : String
  pub preferred_locale : String
  pub token_ttl_seconds : ℕ

-- The fields of `SignatureWorkflowService`; `Files` is the state of the object store.
pub record Service (Files : Type 0) : Type 0 where
  pub documents : Dict Document
  pub versions : Dict (List StoredVersion)
  pub requests : Dict SignatureRequest
  pub signers : Dict Signer
  pub request_signers : Dict (List ℕ)
  pub request_token_index : TextDict ℕ
  pub signatures : List (ℕ × ℕ)
  pub signature_evidence : List (ℕ × ℕ × StampPosition)
  pub audit : Dict (List AuditEvent)
  pub storage : Files

-- What the service takes from outside: the object store, the digest of bytes, the UTF-8 bytes of
-- a text, `str.lower`, and `settings.SIGNING_APP_URL` with its trailing slashes stripped.
pub record Env : Type 1 where
  pub Files : Type 0
  pub put : Bytes → String → Files → (String × ℕ) × Files
  pub get : String → Files → Option Bytes
  pub digest : Bytes → String
  pub encode : String → Bytes
  pub lower : String → String
  pub signing_app_url : String
