-- ===== src/Mfa.antt =====
-- Multi-factor authentication: apps/auth_api/src/auth_api/modules/mfa/mfa_service.py.
pub mod Service
pub mod Verification
mod Tests
