-- ===== src/Guards/Tests.antt =====
-- Runs of the guards, and their theorems at concrete inputs.
use task_scheduling_platform.Base.{◌+◌, ◌*◌, ◌≡◌, refl, none, some, [], ◌∷◌}
use task_scheduling_platform.Platform.Entities.{WorkspaceMember}
use task_scheduling_platform.Platform.Io.{ok}
use task_scheduling_platform.Platform.Drivers.{Claims}
use task_scheduling_platform.Platform.Laws.{Finds}
use task_scheduling_platform.Guards.Permissions.{task_delete}
use task_scheduling_platform.Guards.Request.{Request, Places}
use task_scheduling_platform.Guards.Defs.{
  attach, jwt_auth_guard, resolve_workspace, find_member, check_role, role_guard, permission_member,
  check_permissions, permission_guard, guard_chain,
}
use task_scheduling_platform.Sample.Table.{table-Finds}
use task_scheduling_platform.Sample.World.{sample, world}

runs : Unit {0}
unfolding jwt_auth_guard resolve_workspace find_member check_role role_guard permission_member
    check_permissions permission_guard guard_chain
runs = tt

abbrev nowhere : {A : Type 0} → Places A
nowhere = record { params = none; query = none; header = none; body = none }

abbrev ann : Claims
ann = record { user_id = 1; email = "ann@x.io" }

abbrev ann_member : WorkspaceMember
ann_member = record {
  workspace_id = 5;
  user_id = 1;
  role = "ADMIN";
  created_at = 1;
  updated_at = 1;
}

abbrev request : Request
request = record {
  authorization = some ("Bearer", some "access");
  workspace_ids = record nowhere { query = some 5 };
  slugs = nowhere;
  user = none;
  workspace_id = none;
  workspace_member = none;
}

abbrev authenticated : Request
authenticated = record request { user = some ann }

abbrev member_finds : Finds sample.members
member_finds = table-Finds (λ (r : WorkspaceMember). r.workspace_id * 1000 + r.user_id) (λ n r. r)

admin_deletes :
    guard_chain sample none (some (task_delete ∷ [])) request world
    ≡ (ok (attach 5 ann_member authenticated), world)
unfolding runs
admin_deletes = refl
