-- ===== src/DatabaseWorkflow/Call.antt =====
-- The calls of `DatabaseSignatureWorkflowService` that may change it, as data, with the identifiers,
-- nonces and tokens that they draw.
use rubrica_back.Base.{ℕ, String, Bool, Option}
use rubrica_back.Workflow.Types.{SignatureMode, Bytes, DocumentCreate, SignatureRequestCreate}
use rubrica_back.DatabaseWorkflow.Tables.{Actor}
use rubrica_back.DatabaseWorkflow.Signers.{ParticipantCreate}
use rubrica_back.DatabaseWorkflow.Evidence.{Submission, Drawn}

pub data Call : Type 0 where
  create_document : ℕ → DocumentCreate → Option ℕ → Bytes → Call
  add_version : ℕ → String → String → Actor → Bytes → Call
  delete_document : ℕ → Actor → Bool → Call
  create_request : ℕ → SignatureRequestCreate → Actor → Call
  add_signer : ℕ → String → ℕ → ParticipantCreate → Actor → Call
  create_signing_link : String → ℕ → Actor → Call
  revoke_signer_link : ℕ → ℕ → Actor → Call
  open_request : ℕ → Actor → SignatureMode → Call
  cancel_request : ℕ → Actor → Call
  view : String → Actor → Call
  sign : Drawn → String → Actor → Submission → Call
  decline : String → Actor → Call
