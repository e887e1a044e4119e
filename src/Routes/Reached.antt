-- ===== src/Routes/Reached.antt =====
-- The endpoints of the client (frontend/src/app/api/endpoints.ts) against the routes of the
-- backend.
use task_scheduling_platform.Base.{
  String, Bool, true, false, Option, none, some, [], ◌≡◌, nonempty, str_eq, text_or, if◌then◌else◌,
}
use task_scheduling_platform.Platform.Entities.{text}
use task_scheduling_platform.Client.Query.{Args}
use task_scheduling_platform.Client.Endpoints.{Query, Mutation, query_args, mutation_args}
use task_scheduling_platform.Http.Json.{member, truthy_or}
use task_scheduling_platform.Routes.Defs.{Params, Inputs, Route, Call}

-- Who sends a request: what its token says, and the connection.
pub record Visitor : Type 0 where
  pub user_id : String
  pub email : String
  pub ip : String
  pub user_agent : Option String

abbrev pub inputs : Visitor → Args → Inputs
inputs v args = record {
  params = [];
  query = args.params;
  body = args.body;
  user_id = v.user_id;
  email = v.email;
  ip = v.ip;
  user_agent = v.user_agent;
}

-- An id is not empty, and is not the word that a route has in its place.
pub record IsId (s : String) : Type 0 where
  pub filled : nonempty s ≡ true
  pub no_word : str_eq "slug" s ≡ false

abbrev pub HaveIds : Query → Type 0
HaveIds (Query.get_workspace_members w) = IsId w
HaveIds (Query.get_projects w) = IsId w
HaveIds (Query.get_dashboard_metrics w) = IsId w
HaveIds (Query.get_tasks w p _) = IsId w × IsId p
HaveIds (Query.get_task_by_id w t) = IsId w × IsId t
HaveIds (Query.get_subtask_tree w t) = IsId w × IsId t
HaveIds (Query.get_comments w t) = IsId w × IsId t
HaveIds _ = Unit {0}

-- What each query is meant to call.
abbrev pub asked : Visitor → Query → Call
asked v Query.get_sessions = Call.get_sessions v.user_id
asked v Query.get_workspaces = Call.get_user_workspaces v.user_id
asked v Query.get_notifications = Call.get_notifications v.user_id
asked v (Query.get_workspace_members w) = Call.get_members w
asked v (Query.get_projects w) = Call.get_projects w
asked v (Query.get_dashboard_metrics w) = Call.get_summary w
asked v (Query.get_tasks w p params) = Call.get_tasks w p params
asked v (Query.get_task_by_id w t) = Call.find_task t w
asked v (Query.get_subtask_tree w t) = Call.get_task_tree t w
asked v (Query.get_comments w t) = Call.get_comments t w
asked v (Query.get_admin_audit_logs params) = Call.get_audit_logs v.email params

abbrev admit_all : Route → Inputs → Option Inputs
admit_all route i = some i

-- The request is let through as it is, at whatever route.
abbrev pub Admits : (Route → Inputs → Option Inputs) → Inputs → Type 0
Admits admit r =
    (route : Route) (ps : Params)
    → admit route (record r { params = ps }) ≡ some (record r { params = ps })

abbrev pub HaveMutationIds : Mutation → Type 0
HaveMutationIds (Mutation.revoke_session s) = IsId s
HaveMutationIds (Mutation.delete_workspace w) = IsId w
HaveMutationIds (Mutation.invite_workspace_member w _) = IsId w
HaveMutationIds (Mutation.create_project w _) = IsId w
HaveMutationIds (Mutation.delete_project w p) = IsId w × IsId p
HaveMutationIds (Mutation.create_task w p _) = IsId w × IsId p
HaveMutationIds (Mutation.update_task w t _) = IsId w × IsId t
HaveMutationIds (Mutation.delete_task w t) = IsId w × IsId t
HaveMutationIds (Mutation.add_comment w t _) = IsId w × IsId t
HaveMutationIds (Mutation.mark_notification_read n) = IsId n
HaveMutationIds _ = Unit {0}

-- What each mutation is meant to call.
abbrev pub told : Visitor → Mutation → Call
told v (Mutation.login body) =
    Call.login (member "email" body) (member "password" body)
      (truthy_or (member "deviceFingerprint" body) (text (text_or v.user_agent "unknown"))) v.ip
told v (Mutation.signup body) =
    Call.signup (member "email" body) (member "password" body) (member "name" body)
told v (Mutation.verify_email body) = Call.verify_email (member "email" body) (member "code" body)
told v (Mutation.forgot_password body) = Call.request_password_reset (member "email" body)
told v (Mutation.reset_password body) =
    Call.reset_password (member "email" body) (member "code" body) (member "newPassword" body)
told v (Mutation.revoke_session s) = Call.revoke_session s v.user_id
told v (Mutation.create_workspace body) =
    Call.create_workspace v.user_id (member "name" body) (member "slug" body)
told v (Mutation.update_workspace w body) = Call.update_workspace w v.user_id (member "name" body)
told v (Mutation.delete_workspace w) = Call.delete_workspace w v.user_id
told v (Mutation.invite_workspace_member w body) =
    Call.invite_member w v.user_id (member "email" body) (member "role" body)
told v (Mutation.create_project w body) =
    Call.create_project w v.user_id (member "name" body) (member "description" body)
told v (Mutation.update_project w p body) =
    Call.update_project p w v.user_id (member "name" body) (member "description" body)
      (member "status" body)
told v (Mutation.delete_project w p) = Call.delete_project p w v.user_id
told v (Mutation.create_task w p body) = Call.create_task w p v.user_id body
told v (Mutation.update_task w t body) = Call.update_task t w v.user_id body
told v (Mutation.delete_task w t) = Call.delete_task t w v.user_id
told v (Mutation.add_comment w t body) = Call.add_comment w t v.user_id (member "message" body)
told v (Mutation.mark_notification_read n) = Call.mark_as_read n v.user_id
told v Mutation.mark_all_notifications_read = Call.mark_all_as_read v.user_id

-- The two mutations for whose method the backend has no route.
abbrev pub is_unrouted : Mutation → Bool
is_unrouted (Mutation.update_workspace _ _) = true
is_unrouted (Mutation.update_project _ _ _) = true
is_unrouted _ = false

pub data Endpoint : Type 0 where
  query : Query → Endpoint
  mutation : Mutation → Endpoint

abbrev pub args_of : Endpoint → Args
args_of (query q) = query_args q
args_of (mutation m) = mutation_args m

abbrev pub HaveAllIds : Endpoint → Type 0
HaveAllIds (query q) = HaveIds q
HaveAllIds (mutation m) = HaveMutationIds m

abbrev pub meant : Visitor → Endpoint → Option Call
meant v (query q) = some (asked v q)
meant v (mutation m) = if is_unrouted m then none else some (told v m)
