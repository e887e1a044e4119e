-- ===== src/Client/Actions.antt =====
-- The reducers of the store. A reducer that writes local storage changes it in the same step.
use task_scheduling_platform.Base.{
  String, Bool, true, false, not, Option, none, some, List, [], ◌∷◌, given, if◌then◌else◌,
}
use task_scheduling_platform.Client.State.{
  App, UserInfo, WorkspaceInfo, ProjectInfo, ProjectState, View, TaskFilters, TaskState, UiState,
  LocalStorage, has_text, empty_filters,
}

-- A partial user: the fields that are given.
pub record UserPatch : Type 0 where
  pub id : Option String
  pub email : Option String
  pub name : Option String
  pub avatar : Option (Option String)
  pub is_verified : Option Bool

pub record FilterPatch : Type 0 where
  pub status : Option (Option String)
  pub priority : Option (Option String)
  pub assigned_to : Option (Option String)
  pub search : Option (Option String)

abbrev pub store_refresh : Option String → LocalStorage → LocalStorage
store_refresh none s = s
store_refresh (some t) s = if has_text (some t) then record s { refresh_token = some t } else s

unfoldable pub set_credentials : String → Option String → Option UserInfo → App → App
set_credentials token refresh user app = record app {
  auth = record { token = some token; user = user; is_authenticated = true };
  storage = record (store_refresh refresh (record app.storage { access_token = some token })) {
    user_info = some user;
  };
}

abbrev pub patch_user : UserPatch → UserInfo → UserInfo
patch_user patch user = record {
  id = given patch.id user.id;
  email = given patch.email user.email;
  name = given patch.name user.name;
  avatar = given patch.avatar user.avatar;
  is_verified = given patch.is_verified user.is_verified;
}

abbrev store_user : Option UserInfo → App → App
store_user none app = app
store_user (some user) app = record app {
  auth = record app.auth { user = some user };
  storage = record app.storage { user_info = some (some user) };
}

abbrev patched : UserPatch → Option UserInfo → Option UserInfo
patched patch none = none
patched patch (some user) = some (patch_user patch user)

unfoldable pub update_user : UserPatch → App → App
update_user patch app = store_user (patched patch app.auth.user) app

unfoldable pub logout : App → App
logout app = record app {
  auth = record { token = none; user = none; is_authenticated = false };
  storage = record {
    access_token = none;
    refresh_token = none;
    user_info = none;
    active_workspace_id = none;
  };
}

unfoldable pub set_active_workspace_id : Option String → App → App
set_active_workspace_id id app = record app {
  workspace = record app.workspace { active_workspace_id = id };
  storage = record app.storage { active_workspace_id = if has_text id then id else none };
}

abbrev adopt_first : List WorkspaceInfo → App → App
adopt_first [] app = app
adopt_first (w ∷ _) app = if has_text app.workspace.active_workspace_id then app else record app {
  workspace = record app.workspace { active_workspace_id = some w.id };
  storage = record app.storage { active_workspace_id = some w.id };
}

unfoldable pub set_workspaces : List WorkspaceInfo → App → App
set_workspaces ws app =
    adopt_first ws (record app { workspace = record app.workspace { workspaces = ws } })

unfoldable pub clear_workspace_state : App → App
clear_workspace_state app = record app {
  workspace = record app.workspace { active_workspace_id = none; workspaces = []; members = [] };
}

abbrev pub set_filters : FilterPatch → TaskFilters → TaskFilters
set_filters patch filters = record {
  status = given patch.status filters.status;
  priority = given patch.priority filters.priority;
  assigned_to = given patch.assigned_to filters.assigned_to;
  search = given patch.search filters.search;
}

pub data UiAction : Type 0 where
  toggle_sidebar toggle_notification_drawer toggle_right_context_panel toggle_command_palette
        toggle_quick_create_task :
      UiAction
  set_sidebar_open set_notification_drawer_open set_right_context_panel_open
        set_command_palette_open set_quick_create_task_open :
      Bool → UiAction

unfoldable pub ui_reducer : UiAction → UiState → UiState
ui_reducer toggle_sidebar s = record s { sidebar_open = not s.sidebar_open }
ui_reducer (set_sidebar_open b) s = record s { sidebar_open = b }
ui_reducer toggle_notification_drawer s = record s {
  notification_drawer_open = not s.notification_drawer_open;
}
ui_reducer (set_notification_drawer_open b) s = record s { notification_drawer_open = b }
ui_reducer toggle_right_context_panel s = record s {
  right_context_panel_open = not s.right_context_panel_open;
}
ui_reducer (set_right_context_panel_open b) s = record s { right_context_panel_open = b }
ui_reducer toggle_command_palette s = record s { command_palette_open = not s.command_palette_open }
ui_reducer (set_command_palette_open b) s = record s { command_palette_open = b }
ui_reducer toggle_quick_create_task s = record s {
  quick_create_task_open = not s.quick_create_task_open;
}
ui_reducer (set_quick_create_task_open b) s = record s { quick_create_task_open = b }

pub data TaskAction : Type 0 where
  set_view : View → TaskAction
  change_filters : FilterPatch → TaskAction
  reset_filters : TaskAction
  set_selected_task_id : Option String → TaskAction

unfoldable pub task_reducer : TaskAction → TaskState → TaskState
task_reducer (set_view v) s = record s { view = v }
task_reducer (change_filters patch) s = record s { filters = set_filters patch s.filters }
task_reducer reset_filters s = record s { filters = empty_filters }
task_reducer (set_selected_task_id id) s = record s { selected_task_id = id }

pub data ProjectAction : Type 0 where
  set_active_project_id : Option String → ProjectAction
  set_projects : List ProjectInfo → ProjectAction
  clear_project_state : ProjectAction

unfoldable pub project_reducer : ProjectAction → ProjectState → ProjectState
project_reducer (set_active_project_id id) s = record s { active_project_id = id }
project_reducer (set_projects ps) s = record s { projects = ps }
project_reducer clear_project_state s = record s { active_project_id = none; projects = [] }

pub data Action : Type 0 where
  credentials : (token : String) (refresh : Option String) (user : Option UserInfo) → Action
  user_patch : UserPatch → Action
  logged_out clear_workspaces : Action
  active_workspace : Option String → Action
  workspaces : List WorkspaceInfo → Action
  members : List String → Action
  on_project : ProjectAction → Action
  on_task : TaskAction → Action
  on_ui : UiAction → Action

-- `store.dispatch`
unfoldable pub dispatch : Action → App → App
unfolding set_credentials update_user logout clear_workspace_state set_active_workspace_id
    set_workspaces project_reducer task_reducer ui_reducer
dispatch (credentials token refresh user) app = set_credentials token refresh user app
dispatch (user_patch patch) app = update_user patch app
dispatch logged_out app = logout app
dispatch clear_workspaces app = clear_workspace_state app
dispatch (active_workspace id) app = set_active_workspace_id id app
dispatch (workspaces ws) app = set_workspaces ws app
dispatch (members ms) app = record app { workspace = record app.workspace { members = ms } }
dispatch (on_project a) app = record app { project = project_reducer a app.project }
dispatch (on_task a) app = record app { task = task_reducer a app.task }
dispatch (on_ui a) app = record app { ui = ui_reducer a app.ui }

unfoldable pub dispatch_all : List Action → App → App
dispatch_all [] app = app
dispatch_all (a ∷ rest) app = dispatch_all rest (dispatch a app)
