-- ===== src/Sample.antt =====
-- Packages to run the model on: in-memory tables and an in-memory Redis that never fails, with the
-- laws of Platform/Laws.antt proved of them. The examples of the theorems stand on these.
pub mod Table
pub mod Store
pub mod World
