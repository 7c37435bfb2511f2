-- ===== src/Workflow.antt =====
-- The in-memory signature workflow of
-- apps/core_api/src/core_api/modules/signature_request/workflow_service.py.
pub mod Types
pub mod Service
pub mod Documents
pub mod Requests
pub mod Signing
pub mod Resolve
pub mod Transitions
pub mod Steps
pub mod Deletion
pub mod Signature
pub mod Op
pub mod Lifecycle
pub mod Once
mod Tests
