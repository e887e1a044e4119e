-- ===== src/Routes/Boards.antt =====
-- The routes of workspace.controller.ts, dashboard.controller.ts, project.controller.ts,
-- task.controller.ts, subtask.controller.ts and comment.controller.ts. Of two decorators of a
-- method that both set its route, NestJS keeps the outer one.
use task_scheduling_platform.Base.{String, none, some, List, [], ◌∷◌}
use task_scheduling_platform.Guards.Permissions.{
  Permission, workspace_update, workspace_delete, workspace_invite, project_create, project_update,
  project_delete, task_create, task_update, task_delete,
}
use task_scheduling_platform.Routes.Defs.{
  Segment, word, param, Inputs, value_of, path_param, body_field, Call, jwt_guard, role_guard,
  permission_guard, Route,
}

-- Behind JwtAuthGuard alone, with RoleGuard, and with PermissionGuard for one permission.
abbrev user_route : String → List Segment → (Inputs → Call) → Route
user_route method path handler = record {
  method = method;
  path = path;
  guards = jwt_guard ∷ [];
  permissions = none;
  handler = handler;
}

abbrev member_route : String → List Segment → (Inputs → Call) → Route
member_route method path handler = record {
  method = method;
  path = path;
  guards = jwt_guard ∷ role_guard ∷ [];
  permissions = none;
  handler = handler;
}

abbrev permitted_route : Permission → String → List Segment → (Inputs → Call) → Route
permitted_route permission method path handler = record {
  method = method;
  path = path;
  guards = jwt_guard ∷ role_guard ∷ permission_guard ∷ [];
  permissions = some (permission ∷ []);
  handler = handler;
}

abbrev workspace : Inputs → String
workspace r = path_param "workspaceId" r

abbrev project : Inputs → String
project r = path_param "projectId" r

abbrev task : Inputs → String
task r = path_param "taskId" r

abbrev in_workspace : List Segment → List Segment
in_workspace path = word "workspaces" ∷ param "workspaceId" ∷ path

abbrev in_task : List Segment → List Segment
in_task path = in_workspace (word "tasks" ∷ param "taskId" ∷ path)

abbrev in_project : List Segment → List Segment
in_project path = in_workspace (word "projects" ∷ param "projectId" ∷ path)

abbrev invite : Inputs → Call
invite r = Call.invite_member (workspace r) r.user_id (body_field "email" r) (body_field "role" r)

unfoldable pub workspace_routes : List Route
workspace_routes =
    user_route "POST" (word "workspaces" ∷ [])
      (λ r. Call.create_workspace r.user_id (body_field "name" r) (body_field "slug" r))
    ∷ user_route "GET" (word "workspaces" ∷ []) (λ r. Call.get_user_workspaces r.user_id)
    ∷ member_route "GET" (word "workspaces" ∷ word "slug" ∷ param "slug" ∷ [])
        (λ r. Call.find_by_slug (path_param "slug" r))
    ∷ member_route "GET" (in_workspace []) (λ r. Call.find_workspace (workspace r))
    ∷ permitted_route workspace_update "PATCH" (in_workspace [])
        (λ r. Call.update_workspace (workspace r) r.user_id (body_field "name" r))
    ∷ permitted_route workspace_delete "DELETE" (in_workspace [])
        (λ r. Call.delete_workspace (workspace r) r.user_id)
    ∷ permitted_route workspace_invite "POST" (in_workspace (word "invite" ∷ [])) invite
    ∷ permitted_route workspace_invite "POST" (in_workspace (word "members" ∷ word "invite" ∷ []))
        invite
    ∷ member_route "GET" (in_workspace (word "members" ∷ [])) (λ r. Call.get_members (workspace r))
    ∷ []

unfoldable pub dashboard_routes : List Route
dashboard_routes =
    member_route "GET" (in_workspace (word "dashboard" ∷ word "summary" ∷ []))
      (λ r. Call.get_summary (workspace r))
    ∷ member_route "GET" (in_workspace (word "dashboard" ∷ word "metrics" ∷ []))
        (λ r. Call.get_summary (workspace r))
    ∷ []

unfoldable pub project_routes : List Route
project_routes =
    permitted_route project_create "POST" (in_workspace (word "projects" ∷ [])) (λ r.
      Call.create_project (workspace r) r.user_id (body_field "name" r)
        (body_field "description" r))
    ∷ member_route "GET" (in_workspace (word "projects" ∷ []))
        (λ r. Call.get_projects (workspace r))
    ∷ member_route "GET" (in_project []) (λ r. Call.find_project (project r) (workspace r))
    ∷ permitted_route project_update "PATCH" (in_project []) (λ r.
      Call.update_project (project r) (workspace r) r.user_id (body_field "name" r)
        (body_field "description" r) (body_field "status" r))
    ∷ permitted_route project_delete "DELETE" (in_project [])
        (λ r. Call.delete_project (project r) (workspace r) r.user_id)
    ∷ []

unfoldable pub task_routes : List Route
task_routes =
    permitted_route task_create "POST" (in_project (word "tasks" ∷ []))
      (λ r. Call.create_task (workspace r) (project r) r.user_id r.body)
    ∷ member_route "GET" (in_project (word "tasks" ∷ []))
        (λ r. Call.get_tasks (workspace r) (project r) r.query)
    ∷ member_route "GET" (in_task []) (λ r. Call.find_task (task r) (workspace r))
    ∷ permitted_route task_update "PUT" (in_task [])
        (λ r. Call.update_task (task r) (workspace r) r.user_id r.body)
    ∷ permitted_route task_delete "DELETE" (in_task [])
        (λ r. Call.delete_task (task r) (workspace r) r.user_id)
    ∷ member_route "GET" (in_task (word "attachments" ∷ word "presign" ∷ [])) (λ r.
      Call.presign (workspace r) (task r) (value_of "filename" r.query)
        (value_of "contentType" r.query))
    ∷ []

unfoldable pub subtask_routes : List Route
subtask_routes =
    member_route "GET" (in_task (word "tree" ∷ [])) (λ r. Call.get_task_tree (task r) (workspace r))
    ∷ member_route "GET" (in_task (word "descendants" ∷ []))
        (λ r. Call.get_descendants (task r) (workspace r))
    ∷ member_route "GET" (in_task (word "ancestors" ∷ []))
        (λ r. Call.get_ancestors (task r) (workspace r))
    ∷ []

unfoldable pub comment_routes : List Route
comment_routes =
    member_route "POST" (in_task (word "comments" ∷ []))
      (λ r. Call.add_comment (workspace r) (task r) r.user_id (body_field "message" r))
    ∷ member_route "GET" (in_task (word "comments" ∷ []))
        (λ r. Call.get_comments (task r) (workspace r))
    ∷ []
