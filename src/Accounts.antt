-- ===== src/Accounts.antt =====
-- The tokens of account mails: apps/auth_api/src/auth_api/modules/accounts/account_service.py.
pub mod Service
pub mod Tokens
mod Tests
