-- ===== src/Routes/Tests.antt =====
-- Requests of the client at their routes, and a request that the guards of a route let through.
use task_scheduling_platform.Base.{
  Option, nonempty, if◌then◌else◌, ℕ, List, ◌+◌, ◌*◌, ◌≡◌, refl, none, some, [], ◌∷◌, get_elem?,
  Elem-get_elem?,
}
use task_scheduling_platform.Platform.Entities.{text, obj, field, end, WorkspaceMember, AuditLog}
use task_scheduling_platform.Platform.Io.{ok, err, Result, failure}
use task_scheduling_platform.Routes.Inline.{
  Offset, plus, minus, offset, get_audit_logs, Signer, bucket_name, get_attachment_presign,
}
use task_scheduling_platform.Platform.Laws.{Finds}
use task_scheduling_platform.Guards.Request.{Request, Places}
use task_scheduling_platform.Guards.Defs.{
  attach, jwt_auth_guard, resolve_workspace, find_member, check_role, permission_member,
  check_permissions,
}
use task_scheduling_platform.Guards.Defs
use task_scheduling_platform.Guards.Permissions.{task_delete}
use task_scheduling_platform.Client.Endpoints.{Mutation}
use task_scheduling_platform.Routes.Defs.{
  Inputs, Call, Route, word, param, jwt_guard, role_guard, permission_guard, path_param,
}
use task_scheduling_platform.Routes.Table.{routes}
use task_scheduling_platform.Routes.Reached.{Visitor, Endpoint}
use task_scheduling_platform.Routes.Guarded.{pass_route}
use task_scheduling_platform.Routes.Entry.{Entered, pass_route-Entered}
use task_scheduling_platform.Sample.Table.{table-Finds}
use task_scheduling_platform.Sample.World.{sample, world}

abbrev ann : Visitor
ann = record { user_id = "1"; email = "ann@x.io"; ip = "::1"; user_agent = none }

abbrev finish_task : Endpoint
finish_task =
    Endpoint.mutation (Mutation.update_task "5" "7" (obj (field "status" (text "DONE") end)))

-- Whoever has an id may.
abbrev admit : Route → Inputs → Option Inputs
admit route i = if nonempty i.user_id then some i else none

abbrev nowhere : {A : Type 0} → Places A
nowhere = record { params = none; query = none; header = none; body = none }

abbrev request : Request
request = record {
  authorization = some ("Bearer", some "access");
  workspace_ids = record nowhere { params = some 5 };
  slugs = nowhere;
  user = none;
  workspace_id = none;
  workspace_member = none;
}

abbrev ann_member : WorkspaceMember
ann_member = record {
  workspace_id = 5;
  user_id = 1;
  role = "ADMIN";
  created_at = 1;
  updated_at = 1;
}

abbrev admitted : Request
admitted =
    attach 5 ann_member
      (record request { user = some (record { user_id = 1; email = "ann@x.io" }) })

abbrev member_finds : Finds sample.members
member_finds = table-Finds (λ (r : WorkspaceMember). r.workspace_id * 1000 + r.user_id) (λ n r. r)

abbrev delete_route : Route
delete_route = record {
  method = "DELETE";
  path = word "workspaces" ∷ param "workspaceId" ∷ word "tasks" ∷ param "taskId" ∷ [];
  guards = jwt_guard ∷ role_guard ∷ permission_guard ∷ [];
  permissions = some (task_delete ∷ []);
  handler = λ (r : Inputs).
      Call.delete_task (path_param "taskId" r) (path_param "workspaceId" r) r.user_id;
}

delete_listed : get_elem? routes 35 ≡ some delete_route
unfolding routes
delete_listed = refl

admin_passes : pass_route sample delete_route request world ≡ (ok admitted, world)
unfolding pass_route jwt_auth_guard resolve_workspace find_member check_role Defs.role_guard
    permission_member check_permissions Defs.permission_guard
admin_passes = refl

pass_route-Entered_example : Entered sample delete_route 5 request admitted world
pass_route-Entered_example =
    pass_route-Entered sample member_finds delete_route 5 request admitted world world
      (Elem-get_elem? routes 35 delete_route delete_listed) refl refl refl admin_passes

abbrev count_all : ℕ → Offset → List AuditLog → Result (List AuditLog × ℕ)
count_all take (plus n) logs = ok ([], take + n)
count_all take (minus n) logs = err (failure "OFFSET must not be negative")

admin_reads_logs :
    get_audit_logs count_all "admin@gmail.com" (some 3) none world ≡ (ok ([], 150), world)
unfolding get_audit_logs offset
admin_reads_logs = refl

page_zero_fails :
    get_audit_logs count_all "admin@gmail.com" (some 0) none world
    ≡ (err (failure "OFFSET must not be negative"), world)
unfolding get_audit_logs offset
page_zero_fails = refl

abbrev signer : Signer
signer = record {
  sign_put = λ bucket key type expires. ok key;
  sign_get = λ bucket key expires. ok bucket;
}

presign_names_task :
    get_attachment_presign signer (bucket_name none) "5" "7" "u" (some "a.txt") none world ≡ (
      ok (record {
        upload_url = "workspaces/5/tasks/7/u-a.txt";
        download_url = "task-attachments";
        key = "workspaces/5/tasks/7/u-a.txt";
      }),
      world,
    )
unfolding get_attachment_presign
presign_names_task = refl
