-- ===== src/Workflow/Op.antt =====
-- The calls of `SignatureWorkflowService` that may change it, as data.
use rubrica_back.Base.{ℕ, String, Bool}
use rubrica_back.Workflow.Types.{
  SignatureMode, Bytes, StampPosition, DocumentCreate, SignatureRequestCreate, SignerCreate,
}

-- A call of an operation that may change the service, with the instant of the call and the
-- identifier or token that it draws.
pub data Op : Type 0 where
  create_document : ℕ → ℕ → DocumentCreate → Bytes → Op
  add_version : ℕ → ℕ → String → String → String → Bytes → Op
  delete_document : ℕ → ℕ → String → Bool → Op
  create_request : ℕ → ℕ → SignatureRequestCreate → Op
  add_signer : ℕ → ℕ → ℕ → SignerCreate → String → Op
  create_signing_link : ℕ → String → ℕ → String → Op
  revoke_signer_link : ℕ → ℕ → ℕ → String → Op
  open_request : ℕ → ℕ → String → SignatureMode → Op
  cancel_request : ℕ → ℕ → String → Op
  signing_context : ℕ → String → String → Op
  signing_document : ℕ → String → String → Op
  view : ℕ → String → String → Op
  sign : ℕ → String → String → Bool → StampPosition → Op
  decline : ℕ → String → String → Op
