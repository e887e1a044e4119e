-- ===== src/Subtask.antt =====
-- src/modules/subtask/subtask.service.ts: the tree of subtasks under a task.
pub mod Query
pub mod Tree
pub mod Adoption
pub mod Reach
pub mod Tests
