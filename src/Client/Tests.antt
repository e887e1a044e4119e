-- ===== src/Client/Tests.antt =====
-- The theorems about the frontend at concrete inputs.
pub mod Sessions
pub mod Listeners
