-- ===== src/Auth.antt =====
-- src/modules/auth/auth.service.ts: accounts, sessions and the rotation of refresh tokens.
pub mod Defs
pub mod Account
pub mod Steps
pub mod Rotation
pub mod Logins
pub mod Sessions
pub mod Accounts
pub mod Tests
