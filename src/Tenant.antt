-- ===== src/Tenant.antt =====
-- Tenants and their teams: apps/core_api/src/core_api/modules/tenant/tenant_service.py.
pub mod Members
pub mod Team
pub mod Enrollment
pub mod Identity
pub mod Seats
pub mod Selection
pub mod Downgrade
pub mod Registry
mod Tests
