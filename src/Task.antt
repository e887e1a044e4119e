-- ===== src/Task.antt =====
-- src/modules/task: the tasks of a project, their cache and their events.
pub mod Dto
pub mod Keys
pub mod Find
pub mod Create
pub mod Update
pub mod Frame
pub mod Coherence
pub mod Writes
pub mod Requested
pub mod Steps
pub mod Updates
pub mod Creates
pub mod Deletes
pub mod Completion
pub mod Tests
