-- ===== src/Routes/Defs.antt =====
-- Requests as NestJS hands them to a controller, and how it finds the method.
use task_scheduling_platform.Base.{
  String, Option, none, some, List, [], ◌∷◌, str_eq, nonempty, if◌then◌else◌,
}
use task_scheduling_platform.Platform.Entities.{Json}
use task_scheduling_platform.Http.Json.{member}
use task_scheduling_platform.Guards.Permissions.{Permission}

-- A segment of a route's path: a word, or a parameter by its name.
pub data Segment : Type 0 where
  word param : String → Segment

abbrev pub Params : Type 0
Params = List (String × String)

-- What the decorators of a method's arguments read: the parameters of the path, the query, the
-- body, the id and the email of the user, whose token JwtAuthGuard checked, the address of the
-- client and its user-agent header.
pub record Inputs : Type 0 where
  pub params : Params
  pub query : Params
  pub body : Json
  pub user_id : String
  pub email : String
  pub ip : String
  pub user_agent : Option String

abbrev pub value_of : String → Params → Option String
value_of name [] = none
value_of name ((k, v) ∷ rest) = if str_eq k name then some v else value_of name rest

-- `@Param(name)`
abbrev pub path_param : String → Inputs → String
path_param name r = elim (value_of name r.params) [ none ↦ "" | some v ↦ v ]

-- A field of the body, `none` where it has none of that name.
abbrev pub body_field : String → Inputs → Option Json
body_field name r = member name r.body

-- The calls of services that the methods make, with their arguments.
pub data Call : Type 0 where
  signup : (email password name : Option Json) → Call
  login : (email password : Option Json) (device : Json) (ip : String) → Call
  logout : (token : Option Json) (user : String) → Call
  refresh : (token : Option Json) → Call
  verify_email : (email code : Option Json) → Call
  request_password_reset : (email : Option Json) → Call
  reset_password : (email code password : Option Json) → Call
  get_sessions : (user : String) → Call
  revoke_session : (session user : String) → Call
  find_user : (user : String) → Call
  update_profile : (user : String) (body : Json) → Call
  get_notifications mark_all_as_read : (user : String) → Call
  mark_as_read : (id user : String) → Call
  get_audit_logs : (email : String) (query : Params) → Call
  create_workspace : (user : String) (name slug : Option Json) → Call
  get_user_workspaces : (user : String) → Call
  find_by_slug : (slug : String) → Call
  find_workspace get_members : (workspace : String) → Call
  update_workspace : (workspace user : String) (name : Option Json) → Call
  delete_workspace : (workspace user : String) → Call
  invite_member : (workspace user : String) (email role : Option Json) → Call
  get_summary : (workspace : String) → Call
  create_project : (workspace user : String) (name description : Option Json) → Call
  get_projects : (workspace : String) → Call
  find_project : (project workspace : String) → Call
  update_project : (project workspace user : String) (name description status : Option Json) → Call
  delete_project : (project workspace user : String) → Call
  create_task : (workspace project user : String) (body : Json) → Call
  get_tasks : (workspace project : String) (query : Params) → Call
  find_task : (task workspace : String) → Call
  update_task : (task workspace user : String) (body : Json) → Call
  delete_task : (task workspace user : String) → Call
  presign : (workspace task : String) (filename content_type : Option String) → Call
  get_task_tree get_descendants get_ancestors : (task workspace : String) → Call
  add_comment : (workspace task user : String) (message : Option Json) → Call
  get_comments : (task workspace : String) → Call

pub data Guard : Type 0 where
  jwt_guard role_guard permission_guard : Guard

-- A method with its route: the guards of the controller come before its own.
pub record Route : Type 0 where
  pub method : String
  pub path : List Segment
  pub guards : List Guard
  pub permissions : Option (List Permission)
  pub handler : Inputs → Call

-- Whether a path of segments has the form of a route's, and its parameters. A segment that a
-- parameter stands for is not empty.
unfoldable pub match_path : List Segment → List String → Option Params
match_path [] [] = some []
match_path [] (_ ∷ _) = none
match_path (_ ∷ _) [] = none
match_path (word w ∷ path) (s ∷ url) =
    let rest = match_path path url in if str_eq w s then rest else none
match_path (param name ∷ path) (s ∷ url) =
    let rest = match_path path url in
    if nonempty s then elim rest [ none ↦ none | some ps ↦ some ((name, s) ∷ ps) ] else none

-- The first route that fits a request, with the parameters.
unfoldable pub find_route :
    (method : String) (url : List String) → List Route → Option (Route × Params)
unfolding match_path
find_route method url [] = none
find_route method url (r ∷ routes) =
    let rest = find_route method url routes in
    if str_eq r.method method
    then elim (match_path r.path url) [ none ↦ rest | some ps ↦ some (r, ps) ]
    else rest
