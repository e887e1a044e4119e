-- ===== src/Platform.antt =====
-- What all services stand on: the rows of the database, the errors that they throw, the state of
-- the running server, and the interfaces of the packages that the code calls.
pub mod Entities
pub mod Io
pub mod Loops
pub mod Drivers
pub mod Laws
