-- ===== src/Guards.antt =====
-- src/common: who may call what. The guards run in order before a handler; each reads and extends
-- the request, or throws.
pub mod Permissions
pub mod Request
pub mod Defs
pub mod Access
pub mod Chain
pub mod Tests
