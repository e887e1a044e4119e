-- ===== src/Routes.antt =====
-- src/modules: the controllers. A method of a controller hands the parts of a request to a service;
-- its route says for which requests, and behind which guards.
pub mod Defs
pub mod Accounts
pub mod Boards
pub mod Table
pub mod Reached
pub mod Guarded
pub mod Entry
pub mod Inline
pub mod Tests
