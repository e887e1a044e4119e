-- ===== src/Guards/Permissions.antt =====
-- src/common/constants/index.ts: roles and their permissions.
use task_scheduling_platform.Base.{
  ℕ, String, Bool, List, [], ◌∷◌, ◌==◌, str_eq, if◌then◌else◌, any, all,
}

pub data Permission : Type 0 where
  workspace_create workspace_update workspace_delete workspace_invite : Permission
  project_create project_update project_delete : Permission
  task_create task_assign task_update task_delete : Permission

-- `Object.values(Permission)`
abbrev pub all_permissions : List Permission
all_permissions =
    workspace_create ∷ workspace_update ∷ workspace_delete ∷ workspace_invite ∷ project_create
    ∷ project_update ∷ project_delete ∷ task_create ∷ task_assign ∷ task_update ∷ task_delete ∷ []

abbrev pub member_permissions : List Permission
member_permissions = project_create ∷ project_update ∷ task_create ∷ task_assign ∷ task_update ∷ []

-- `ROLE_PERMISSIONS[role] || []`
abbrev pub role_permissions : String → List Permission
role_permissions role =
    if str_eq role "ADMIN"
    then all_permissions
    else if str_eq role "MEMBER"
    then member_permissions
    else []

-- The position of a permission, by which two are compared.
abbrev position : Permission → ℕ
position workspace_create = 0
position workspace_update = 1
position workspace_delete = 2
position workspace_invite = 3
position project_create = 4
position project_update = 5
position project_delete = 6
position task_create = 7
position task_assign = 8
position task_update = 9
position task_delete = 10

abbrev pub includes : List Permission → Permission → Bool
includes ps perm = any (λ q. position q == position perm) ps

-- `requiredPermissions.every((perm) => userPermissions.includes(perm))`
abbrev pub has_permissions : String → List Permission → Bool
has_permissions role required = all (includes (role_permissions role)) required
