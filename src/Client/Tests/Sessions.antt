-- ===== src/Client/Tests/Sessions.antt =====
-- Sessions: a login, a 401, the refresh and what follows.
use Prim.Native.String
use task_scheduling_platform.Base.{
  ◌+◌, ◌≤◌, ◌≡◌, refl, true, false, none, some, List, [], ◌∷◌, get_elem?,
}
use task_scheduling_platform.Platform.Entities.{Json, null, text, obj, field, end}
use task_scheduling_platform.Client.State.{App, UserInfo, LocalStorage, load_page}
use task_scheduling_platform.Client.Actions.{
  Action, credentials, active_workspace, logged_out, dispatch_all,
}
use task_scheduling_platform.Client.Mirror.{load_page-dispatch_all}
use task_scheduling_platform.Client.Query.{
  Args, Reply, resolved, rejected, QueryResult, failure, query_result, Headers, header,
  request_headers,
}
use task_scheduling_platform.Client.Reauth.{
  sent, settled, Call, attempt, refresh, Credentials, Client, idle_client, Event, called, replied,
  refreshed, resumed, acted, step, run,
}
use task_scheduling_platform.Client.Reauth.Attempts.{attempts, attempts-le_two}
use task_scheduling_platform.Client.Reauth.Flight.{refreshes, refresh_events, flag, refreshes-run}
use task_scheduling_platform.Client.Reauth.Returns.{call_returns}
use task_scheduling_platform.Client.Reauth.Session.{call_renews, call_signs_out, logout_undone}

abbrev ann : UserInfo
ann = record { id = "1"; email = "ann@x.io"; name = "Ann"; avatar = none; is_verified = true }

abbrev nothing_stored : LocalStorage
nothing_stored = record {
  access_token = none;
  refresh_token = none;
  user_info = none;
  active_workspace_id = none;
}

abbrev visit : List Action
visit = credentials "t1" (some "r1") (some ann) ∷ active_workspace (some "5") ∷ []

load_page-dispatch_all_example :
    let app = dispatch_all visit (load_page nothing_stored) in
    (load_page app.storage).auth ≡ app.auth
load_page-dispatch_all_example = load_page-dispatch_all nothing_stored visit (refl, (tt, tt))

abbrev stored : LocalStorage
stored = record {
  access_token = some "t1";
  refresh_token = some "r1";
  user_info = some (some ann);
  active_workspace_id = some "5";
}

abbrev app : App
app = load_page stored

abbrev my_tasks : Args
my_tasks = record {
  url = "workspaces" ∷ "5" ∷ "projects" ∷ "6" ∷ "tasks" ∷ [];
  method = "GET";
  body = null;
  params = [];
  headers = [];
}

abbrev denied : Json
denied = obj (field "message" (text "Invalid or expired access token") end)

abbrev unauthorized : Reply
unauthorized = rejected (some (401, denied)) "Request failed"

abbrev found : Reply
found = resolved (obj (field "total" null end))

abbrev fresh : Credentials
fresh = record { access_token = "t2"; refresh_token = "r2"; user = none }

abbrev renewal : List Event
renewal =
    called my_tasks
    ∷ replied 0 unauthorized
    ∷ refreshed (some fresh)
    ∷ resumed 0
    ∷ replied 0 found
    ∷ []

abbrev asked : Client
asked = run (called my_tasks ∷ []) (idle_client app)

abbrev waiting : Client
waiting = run (called my_tasks ∷ replied 0 unauthorized ∷ []) (idle_client app)

abbrev first_call : Call
first_call = record { args = my_tasks; phase = sent }

attempts-le_two_example : attempts 0 (run renewal (idle_client app)).log ≤ 2
attempts-le_two_example = attempts-le_two app renewal 0

refreshes-run_example :
    let s = run renewal (idle_client app) in
    refreshes s.log ≤ refresh_events renewal + flag s.refreshing
refreshes-run_example = refreshes-run app renewal

asked_first : get_elem? asked.calls 0 ≡ some first_call
unfolding run step idle_client
asked_first = refl

asked_idle : asked.refreshing ≡ false
unfolding run step idle_client
asked_idle = refl

asked_stored : asked.app.storage.refresh_token ≡ some "r1"
unfolding run step idle_client load_page
asked_stored = refl

denial : query_result unauthorized ≡ failure 401 denied
unfolding query_result
denial = refl

call_returns_example :
    let answered = run [] (step (replied 0 unauthorized) asked) in
    let ready = run (called my_tasks ∷ []) (step (refreshed none) answered) in
    let resent = run [] (step (resumed 0) ready) in
    (d : Call) × (result : QueryResult) × (get_elem? (step (replied 0 found) resent).calls 0
      ≡ some d)
    × (d.phase ≡ settled result)
call_returns_example =
    call_returns app (called my_tasks ∷ []) [] (called my_tasks ∷ []) [] 0 first_call unauthorized
      found none asked_first

call_renews_example :
    let s' =
      step
        (replied 0 found)
        (step (resumed 0) (step (refreshed (some fresh)) (step (replied 0 unauthorized) asked))) in
    (get_elem? s'.calls 0 ≡ some (record { args = my_tasks; phase = settled (query_result found) }))
    × ((h h' : Headers) × (s'.log ≡ attempt 0 h ∷ refresh h' (some "r1") ∷ asked.log)
        × (header "Authorization" h ≡ some (String.◌++◌ "Bearer " "t2")))
    × (s'.app.auth.token ≡ some "t2")
    × (s'.app.storage.refresh_token ≡ some "r2")
call_renews_example =
    call_renews asked 0 my_tasks unauthorized denied "r1" asked_first denial asked_idle asked_stored
      refl fresh found refl

call_signs_out_example :
    let s' = step (resumed 0) (step (refreshed none) (step (replied 0 unauthorized) asked)) in
    (get_elem? s'.calls 0 ≡ some (record { args = my_tasks; phase = settled (failure 401 denied) }))
    × (s'.log ≡ refresh (request_headers asked.app []) (some "r1") ∷ asked.log)
    × (s'.app.auth.is_authenticated ≡ false)
    × (s'.app.auth.token ≡ none)
    × (s'.app.storage.access_token ≡ none)
    × (s'.app.storage.refresh_token ≡ none)
    × (s'.app.storage.user_info ≡ none)
call_signs_out_example =
    call_signs_out asked 0 my_tasks unauthorized denied "r1" asked_first denial asked_idle
      asked_stored refl

in_flight : waiting.refreshing ≡ true
unfolding run step idle_client load_page query_result
in_flight = refl

logout_undone_example :
    let s' = step (refreshed (some fresh)) (step (acted logged_out) waiting) in
    (s'.app.auth.is_authenticated ≡ true)
    × (s'.app.auth.token ≡ some "t2")
    × (s'.app.storage.refresh_token ≡ some "r2")
logout_undone_example = logout_undone waiting fresh in_flight
