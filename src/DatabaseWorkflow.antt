-- ===== src/DatabaseWorkflow.antt =====
-- The signature workflow on the database:
-- apps/core_api/src/core_api/modules/signature_request/database_workflow_service.py.
pub mod Tables
pub mod Access
pub mod Documents
pub mod Requests
pub mod Signers
pub mod Links
pub mod Evidence
pub mod Admission
pub mod Signing
pub mod Invariants
pub mod Lookups
pub mod RequestSteps
pub mod SignerSteps
pub mod SigningSteps
pub mod Rollback
pub mod Storage
pub mod DocumentSteps
pub mod Deletion
pub mod Call
pub mod Reach
pub mod History
pub mod Delivery
pub mod Refusal
pub mod Contacts
pub mod SampleStorage
mod Tests
