-- ===== src/Client/Endpoints.antt =====
-- frontend/src/app/api/endpoints.ts: the request of each endpoint, and the tags by which the client
-- knows which cached answers a mutation makes stale. A url is the list of its segments; a body that
-- is made of an argument without its ids is an argument of its own.
use task_scheduling_platform.Base.{String, Option, none, some, List, [], ◌∷◌}
use task_scheduling_platform.Platform.Entities.{Json, null}
use task_scheduling_platform.Client.Query.{Args}

pub data Query : Type 0 where
  get_sessions get_workspaces get_notifications : Query
  get_workspace_members get_projects get_dashboard_metrics : (workspace : String) → Query
  get_tasks : (workspace project : String) (params : List (String × String)) → Query
  get_task_by_id get_subtask_tree get_comments : (workspace task : String) → Query
  get_admin_audit_logs : (params : List (String × String)) → Query

pub data Mutation : Type 0 where
  login signup verify_email forgot_password reset_password : (body : Json) → Mutation
  revoke_session : (session : String) → Mutation
  create_workspace : (body : Json) → Mutation
  update_workspace : (id : String) (body : Json) → Mutation
  delete_workspace : (id : String) → Mutation
  invite_workspace_member create_project : (workspace : String) (body : Json) → Mutation
  update_project : (workspace id : String) (body : Json) → Mutation
  delete_project : (workspace id : String) → Mutation
  create_task : (workspace project : String) (body : Json) → Mutation
  update_task : (workspace task : String) (body : Json) → Mutation
  delete_task : (workspace task : String) → Mutation
  add_comment : (workspace task : String) (body : Json) → Mutation
  mark_notification_read : (id : String) → Mutation
  mark_all_notifications_read : Mutation

abbrev ask : List String → List (String × String) → Args
ask url params = record { url = url; method = "GET"; body = null; params = params; headers = [] }

abbrev tell : String → List String → Json → Args
tell method url body = record { url = url; method = method; body = body; params = []; headers = [] }

unfoldable pub query_args : Query → Args
query_args get_sessions = ask ("auth" ∷ "sessions" ∷ []) []
query_args get_workspaces = ask ("workspaces" ∷ []) []
query_args get_notifications = ask ("notifications" ∷ []) []
query_args (get_workspace_members w) = ask ("workspaces" ∷ w ∷ "members" ∷ []) []
query_args (get_projects w) = ask ("workspaces" ∷ w ∷ "projects" ∷ []) []
query_args (get_dashboard_metrics w) = ask ("workspaces" ∷ w ∷ "dashboard" ∷ "metrics" ∷ []) []
query_args (get_tasks w p params) = ask ("workspaces" ∷ w ∷ "projects" ∷ p ∷ "tasks" ∷ []) params
query_args (get_task_by_id w t) = ask ("workspaces" ∷ w ∷ "tasks" ∷ t ∷ []) []
query_args (get_subtask_tree w t) = ask ("workspaces" ∷ w ∷ "tasks" ∷ t ∷ "tree" ∷ []) []
query_args (get_comments w t) = ask ("workspaces" ∷ w ∷ "tasks" ∷ t ∷ "comments" ∷ []) []
query_args (get_admin_audit_logs params) = ask ("admin" ∷ "audit-logs" ∷ []) params

unfoldable pub mutation_args : Mutation → Args
mutation_args (login body) = tell "POST" ("auth" ∷ "login" ∷ []) body
mutation_args (signup body) = tell "POST" ("auth" ∷ "signup" ∷ []) body
mutation_args (verify_email body) = tell "POST" ("auth" ∷ "verify-email" ∷ []) body
mutation_args (forgot_password body) = tell "POST" ("auth" ∷ "forgot-password" ∷ []) body
mutation_args (reset_password body) = tell "POST" ("auth" ∷ "reset-password" ∷ []) body
mutation_args (revoke_session s) = tell "POST" ("auth" ∷ "sessions" ∷ s ∷ "revoke" ∷ []) null
mutation_args (create_workspace body) = tell "POST" ("workspaces" ∷ []) body
mutation_args (update_workspace w body) = tell "PUT" ("workspaces" ∷ w ∷ []) body
mutation_args (delete_workspace w) = tell "DELETE" ("workspaces" ∷ w ∷ []) null
mutation_args (invite_workspace_member w body) =
    tell "POST" ("workspaces" ∷ w ∷ "members" ∷ "invite" ∷ []) body
mutation_args (create_project w body) = tell "POST" ("workspaces" ∷ w ∷ "projects" ∷ []) body
mutation_args (update_project w p body) = tell "PUT" ("workspaces" ∷ w ∷ "projects" ∷ p ∷ []) body
mutation_args (delete_project w p) = tell "DELETE" ("workspaces" ∷ w ∷ "projects" ∷ p ∷ []) null
mutation_args (create_task w p body) =
    tell "POST" ("workspaces" ∷ w ∷ "projects" ∷ p ∷ "tasks" ∷ []) body
mutation_args (update_task w t body) = tell "PUT" ("workspaces" ∷ w ∷ "tasks" ∷ t ∷ []) body
mutation_args (delete_task w t) = tell "DELETE" ("workspaces" ∷ w ∷ "tasks" ∷ t ∷ []) null
mutation_args (add_comment w t body) =
    tell "POST" ("workspaces" ∷ w ∷ "tasks" ∷ t ∷ "comments" ∷ []) body
mutation_args (mark_notification_read n) = tell "POST" ("notifications" ∷ n ∷ "read" ∷ []) null
mutation_args mark_all_notifications_read = tell "POST" ("notifications" ∷ "read-all" ∷ []) null

pub data TagType : Type 0 where
  workspace project task comment notification user session dashboard audit_log : TagType

-- A tag without an id stands for all of its type.
pub record Tag : Type 0 where
  pub type : TagType
  pub id : Option String

abbrev whole : TagType → Tag
whole type = record { type = type; id = none }

abbrev one : TagType → String → Tag
one type id = record { type = type; id = some id }

unfoldable pub provides : Query → List Tag
provides get_sessions = whole session ∷ []
provides get_workspaces = whole workspace ∷ []
provides get_notifications = whole notification ∷ []
provides (get_workspace_members _) = whole workspace ∷ []
provides (get_projects _) = whole project ∷ []
provides (get_dashboard_metrics _) = whole dashboard ∷ []
provides (get_tasks _ _ _) = whole task ∷ []
provides (get_task_by_id _ t) = one task t ∷ []
provides (get_subtask_tree _ t) = one task t ∷ []
provides (get_comments _ _) = whole comment ∷ []
provides (get_admin_audit_logs _) = whole audit_log ∷ []

unfoldable pub invalidates : Mutation → List Tag
invalidates (login _) = whole user ∷ whole session ∷ []
invalidates (signup _) = []
invalidates (verify_email _) = []
invalidates (forgot_password _) = []
invalidates (reset_password _) = []
invalidates (revoke_session _) = whole session ∷ []
invalidates (create_workspace _) = whole workspace ∷ []
invalidates (update_workspace _ _) = whole workspace ∷ []
invalidates (delete_workspace _) = whole workspace ∷ []
invalidates (invite_workspace_member _ _) = whole workspace ∷ []
invalidates (create_project _ _) = whole project ∷ []
invalidates (update_project _ _ _) = whole project ∷ []
invalidates (delete_project _ _) = whole project ∷ []
invalidates (create_task _ _ _) = whole task ∷ whole dashboard ∷ []
invalidates (update_task _ t _) = whole task ∷ one task t ∷ whole dashboard ∷ []
invalidates (delete_task _ _) = whole task ∷ whole dashboard ∷ []
invalidates (add_comment _ _ _) = whole comment ∷ []
invalidates (mark_notification_read _) = whole notification ∷ []
invalidates mark_all_notifications_read = whole notification ∷ []
