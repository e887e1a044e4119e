-- ===== src/Client/Mirror.antt =====
-- What of the store survives a reload of the page, and what of a session survives a logout.
use task_scheduling_platform.Base.{
  ◌≡◌, true, Option, none, some, List, [], ◌∷◌, arith, Option-cases, inl, inr, String, nonempty,
  Bool-cases,
}
use task_scheduling_platform.Client.State.{
  App, LocalStorage, UserInfo, WorkspaceInfo, has_text, stored_user, load_page,
}
use task_scheduling_platform.Client.Actions.{
  Action, UserPatch, credentials, user_patch, logged_out, clear_workspaces, active_workspace,
  workspaces, dispatch, dispatch_all, update_user, set_workspaces, set_credentials,
}

-- A login with an empty token is none.
abbrev pub HasToken : Action → Type 0
HasToken (credentials token _ _) = nonempty token ≡ true
HasToken _ = Unit {0}

abbrev pub HaveTokens : List Action → Type 0
HaveTokens [] = Unit {0}
HaveTokens (a ∷ rest) = HasToken a × HaveTokens rest

-- The store says of the user what local storage says.
pub record IsMirrored (app : App) : Type 0 where
  pub token : app.auth.token ≡ app.storage.access_token
  pub user : app.auth.user ≡ stored_user app.storage.user_info
  pub flag : app.auth.is_authenticated ≡ has_text app.storage.access_token

update_user-IsMirrored :
    (patch : UserPatch) (app : App) → IsMirrored app → IsMirrored (update_user patch app)
unfolding update_user
update_user-IsMirrored patch app h = elim (Option-cases app.auth.user) [
  | inl e ↦ ground arith
  | inr (u, e) ↦ ground arith
]

set_workspaces-IsMirrored :
    (ws : List WorkspaceInfo) (app : App) → IsMirrored app → IsMirrored (set_workspaces ws app)
unfolding set_workspaces
set_workspaces-IsMirrored [] app h = ground arith
set_workspaces-IsMirrored (w ∷ ws) app h =
    elim (Bool-cases (has_text app.workspace.active_workspace_id)) [
      | inl e ↦ rw e (ground arith)
      | inr e ↦ rw e (ground arith)
    ]

set_credentials-IsMirrored :
    (token : String) (refresh : Option String) (user : Option UserInfo) (app : App)
    → nonempty token ≡ true
    → IsMirrored (set_credentials token refresh user app)
unfolding set_credentials
set_credentials-IsMirrored token none user app h = ground arith
set_credentials-IsMirrored token (some r) user app h = elim (Bool-cases (nonempty r)) [
  | inl e ↦ rw e (ground arith)
  | inr e ↦ rw e (ground arith)
]

-- Every action keeps it.
pub dispatch-IsMirrored :
    (a : Action) (app : App) → HasToken a → IsMirrored app → IsMirrored (dispatch a app)
unfolding dispatch
dispatch-IsMirrored (credentials token refresh user) app t h =
    set_credentials-IsMirrored token refresh user app t
dispatch-IsMirrored (user_patch patch) app t h = update_user-IsMirrored patch app h
dispatch-IsMirrored logged_out app t h = ground arith
dispatch-IsMirrored clear_workspaces app t h = ground arith
dispatch-IsMirrored (active_workspace id) app t h = ground arith
dispatch-IsMirrored (workspaces ws) app t h = set_workspaces-IsMirrored ws app h
dispatch-IsMirrored _ app t h = ground arith

dispatch_all-IsMirrored :
    (actions : List Action) (app : App)
    → HaveTokens actions
    → IsMirrored app
    → IsMirrored (dispatch_all actions app)
unfolding dispatch_all
dispatch_all-IsMirrored [] app t h = h
dispatch_all-IsMirrored (a ∷ rest) app t h =
    dispatch_all-IsMirrored rest (dispatch a app) t.1 (dispatch-IsMirrored a app t.0 h)

load_page-IsMirrored : (s : LocalStorage) → IsMirrored (load_page s)
unfolding load_page
load_page-IsMirrored s = ground arith

auth_of_mirror : (app : App) → IsMirrored app → (load_page app.storage).auth ≡ app.auth
unfolding load_page
auth_of_mirror app h = ground arith

-- A page is loaded from any local storage, and then any actions are dispatched, none of which
-- logs in with an empty token. Loading the page again, from what they left in local storage, gives
-- the same authentication state: the token, the user and whether somebody is logged in.
pub load_page-dispatch_all :
    (s : LocalStorage) (actions : List Action)
    → HaveTokens actions
    → let app = dispatch_all actions (load_page s) in (load_page app.storage).auth ≡ app.auth
load_page-dispatch_all s actions t =
    auth_of_mirror _ (dispatch_all-IsMirrored actions (load_page s) t (load_page-IsMirrored s))
