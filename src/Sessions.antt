-- ===== src/Sessions.antt =====
-- The sessions of users: apps/auth_api/src/auth_api/modules/sessions/session_service.py.
pub mod Store
pub mod Service
pub mod Rotation
pub mod Reuse
pub mod Limits
mod Tests
