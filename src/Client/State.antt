-- ===== src/Client/State.antt =====
-- The state of the frontend's store, src/app/store/slices of frontend/, with what the browser keeps
-- in local storage. An id is a text here, as the code tests whether it is empty.
use task_scheduling_platform.Base.{
  String, Bool, true, false, Option, none, some, List, [], nonempty,
}

pub record UserInfo : Type 0 where
  pub id : String
  pub email : String
  pub name : String
  pub avatar : Option String
  pub is_verified : Bool

pub record AuthState : Type 0 where
  pub token : Option String
  pub user : Option UserInfo
  pub is_authenticated : Bool

pub record WorkspaceInfo : Type 0 where
  pub id : String
  pub name : String
  pub slug : String
  pub owner_id : String
  pub created_at : String

-- `members` is of type any[]; only ids are kept of it.
pub record WorkspaceState : Type 0 where
  pub active_workspace_id : Option String
  pub workspaces : List WorkspaceInfo
  pub members : List String
  pub is_loading : Bool

pub record ProjectInfo : Type 0 where
  pub id : String
  pub workspace_id : String
  pub name : String
  pub description : Option String
  pub is_archived : Bool
  pub created_at : String

pub record ProjectState : Type 0 where
  pub active_project_id : Option String
  pub projects : List ProjectInfo

pub data View : Type 0 where
  list board calendar timeline table : View

pub record TaskFilters : Type 0 where
  pub status : Option String
  pub priority : Option String
  pub assigned_to : Option String
  pub search : Option String

pub record TaskState : Type 0 where
  pub view : View
  pub filters : TaskFilters
  pub selected_task_id : Option String

pub record UiState : Type 0 where
  pub sidebar_open : Bool
  pub notification_drawer_open : Bool
  pub right_context_panel_open : Bool
  pub command_palette_open : Bool
  pub quick_create_task_open : Bool

-- `user_info` holds the JSON of a user or of null; JSON text and back is the identity here.
pub record LocalStorage : Type 0 where
  pub access_token : Option String
  pub refresh_token : Option String
  pub user_info : Option (Option UserInfo)
  pub active_workspace_id : Option String

pub record App : Type 0 where
  pub auth : AuthState
  pub workspace : WorkspaceState
  pub project : ProjectState
  pub task : TaskState
  pub ui : UiState
  pub storage : LocalStorage

-- `!!text` and `if (text)` on a text that may be null
abbrev pub has_text : Option String → Bool
has_text none = false
has_text (some s) = nonempty s

abbrev pub stored_user : Option (Option UserInfo) → Option UserInfo
stored_user none = none
stored_user (some user) = user

unfoldable pub initial_auth : LocalStorage → AuthState
initial_auth s = record {
  token = s.access_token;
  user = stored_user s.user_info;
  is_authenticated = has_text s.access_token;
}

abbrev pub initial_workspace : LocalStorage → WorkspaceState
initial_workspace s = record {
  active_workspace_id = s.active_workspace_id;
  workspaces = [];
  members = [];
  is_loading = false;
}

abbrev pub initial_project : ProjectState
initial_project = record { active_project_id = none; projects = [] }

abbrev pub empty_filters : TaskFilters
empty_filters = record { status = none; priority = none; assigned_to = none; search = some "" }

abbrev pub initial_task : TaskState
initial_task = record { view = board; filters = empty_filters; selected_task_id = none }

abbrev pub initial_ui : UiState
initial_ui = record {
  sidebar_open = true;
  notification_drawer_open = false;
  right_context_panel_open = false;
  command_palette_open = false;
  quick_create_task_open = false;
}

-- The store of a page that has just been loaded.
unfoldable pub load_page : LocalStorage → App
unfolding initial_auth
load_page s = record {
  auth = initial_auth s;
  workspace = initial_workspace s;
  project = initial_project;
  task = initial_task;
  ui = initial_ui;
  storage = s;
}
