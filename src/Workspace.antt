-- ===== src/Workspace.antt =====
-- src/modules/workspace: workspaces and their members.
pub mod Slug
pub mod SlugForm
pub mod Defs
pub mod Creation
pub mod Members
pub mod Tests
