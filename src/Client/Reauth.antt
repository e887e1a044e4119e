-- ===== src/Client/Reauth.antt =====
-- baseQueryWithReauth of frontend/src/app/api/apiSlice.ts, with any number of calls at once. Between
-- two awaits a call runs alone, so each event below is one such stretch of code; the events come in
-- any order. `refreshing` says whether `refreshPromise` is set.
pub mod Attempts
pub mod Flight
pub mod Waiting
pub mod Ends
pub mod Returns
pub mod Session
use task_scheduling_platform.Base.{
  ℕ, String, Bool, true, false, ◌==◌, Option, none, some, List, [], ◌∷◌, ◌++◌, map, length,
  get_elem?, set, if◌then◌else◌,
}
use task_scheduling_platform.Client.State.{App, UserInfo, has_text}
use task_scheduling_platform.Client.Actions.{Action, credentials, logged_out, dispatch}
use task_scheduling_platform.Client.Query.{
  Headers, Args, Reply, QueryResult, answer, failure, query_result, request_headers,
}

-- Where a call stands: its request is sent; it awaits the refresh, with the 401 that it got; the
-- refresh has ended with this token; its request is sent again; it has returned.
pub data Phase : Type 0 where
  sent : Phase
  awaiting : QueryResult → Phase
  woken : QueryResult → Option String → Phase
  retried : Phase
  settled : QueryResult → Phase

pub record Call : Type 0 where
  pub args : Args
  pub phase : Phase

-- The requests sent so far: those of the calls, and those for new tokens.
pub data Request : Type 0 where
  attempt : (call : ℕ) → Headers → Request
  refresh : Headers → (token : Option String) → Request

-- What /auth/refresh answers with.
pub record Credentials : Type 0 where
  pub access_token : String
  pub refresh_token : String
  pub user : Option UserInfo

pub record Client : Type 0 where
  pub app : App
  pub calls : List Call
  pub refreshing : Bool
  pub log : List Request

unfoldable pub idle_client : App → Client
idle_client app = record { app = app; calls = []; refreshing = false; log = [] }

abbrev pub put : ℕ → Call → Phase → Client → Client
put i c phase s = record s { calls = set s.calls i (record c { phase = phase }) }

abbrev pub send : ℕ → Args → Client → Client
send i args s = record s { log = attempt i (request_headers s.app args.headers) ∷ s.log }

unfoldable pub call_api : Args → Client → Client
call_api args s =
    send (length s.calls) args
      (record s { calls = s.calls ++ record { args = args; phase = sent } ∷ [] })

abbrev pub is_unauthorized : QueryResult → Bool
is_unauthorized (answer _) = false
is_unauthorized (failure status _) = status == 401

-- `if (!refreshPromise) refreshPromise = refreshQuery();`
unfoldable pub ensure_refresh : Client → Client
ensure_refresh s = if s.refreshing then s else record s {
  refreshing = true;
  log = refresh (request_headers s.app []) s.app.storage.refresh_token ∷ s.log;
}

abbrev pub sign_out : Client → Client
sign_out s = record s { app = dispatch logged_out s.app }

unfoldable pub on_unauthorized : ℕ → Call → QueryResult → Client → Client
unfolding ensure_refresh
on_unauthorized i c result s =
    if has_text s.app.storage.refresh_token
    then put i c (awaiting result) (ensure_refresh s)
    else put i c (settled result) (sign_out s)

unfoldable pub receive : Phase → ℕ → Call → QueryResult → Client → Client
unfolding on_unauthorized
receive sent i c result s =
    if is_unauthorized result then on_unauthorized i c result s else put i c (settled result) s
receive retried i c result s = put i c (settled result) s
receive _ i c result s = s

-- The reply to the request of a call; one to a call that waits for none is no event.
unfoldable pub on_reply : ℕ → Reply → Client → Client
unfolding receive
on_reply i reply s = elim (get_elem? s.calls i) [
  | none ↦ s
  | some c ↦ receive c.phase i c (query_result reply) s
]

abbrev pub wake_phase : Option String → Phase → Phase
wake_phase token (awaiting result) = woken result token
wake_phase token phase = phase

abbrev pub wake : Option String → Call → Call
wake token c = record c { phase = wake_phase token c.phase }

-- `data.user || state.auth.user`
abbrev pub user_or : Option UserInfo → Option UserInfo → Option UserInfo
user_or none d = d
user_or (some user) d = some user

abbrev pub store_credentials : Credentials → App → App
store_credentials c app =
    let logged_in = dispatch (credentials c.access_token none (user_or c.user app.auth.user)) app in
    record logged_in { storage = record logged_in.storage { refresh_token = some c.refresh_token } }

unfoldable pub finish_refresh : Option Credentials → Client → Client
finish_refresh none s = record s { calls = map (wake none) s.calls; refreshing = false }
finish_refresh (some c) s = record s {
  app = store_credentials c s.app;
  calls = map (wake (some c.access_token)) s.calls;
  refreshing = false;
}

-- The end of the refresh in flight: its data, or none where it failed.
unfoldable pub on_refreshed : Option Credentials → Client → Client
unfolding finish_refresh
on_refreshed c s = if s.refreshing then finish_refresh c s else s

unfoldable pub continue_call : Phase → ℕ → Call → Client → Client
continue_call (woken result token) i c s =
    if has_text token
    then put i c retried (send i c.args s)
    else put i c (settled result) (sign_out s)
continue_call _ i c s = s

-- A call goes on after `await refreshPromise`.
unfoldable pub on_resume : ℕ → Client → Client
unfolding continue_call
on_resume i s = elim (get_elem? s.calls i) [ none ↦ s | some c ↦ continue_call c.phase i c s ]

pub data Event : Type 0 where
  called : Args → Event
  replied : ℕ → Reply → Event
  refreshed : Option Credentials → Event
  resumed : ℕ → Event
  acted : Action → Event

unfoldable pub step : Event → Client → Client
unfolding call_api on_reply on_refreshed on_resume
step (called args) s = call_api args s
step (replied i reply) s = on_reply i reply s
step (refreshed c) s = on_refreshed c s
step (resumed i) s = on_resume i s
step (acted a) s = record s { app = dispatch a s.app }

unfoldable pub run : List Event → Client → Client
run [] s = s
run (e ∷ rest) s = run rest (step e s)
