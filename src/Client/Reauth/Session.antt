-- ===== src/Client/Reauth/Session.antt =====
-- What a 401 does to the session: the tokens are renewed and the request is sent again, or the
-- user is logged out.
use Prim.Native.String
use task_scheduling_platform.Base.{
  ℕ, String, ◌≡◌, refl, true, false, Option, none, some, List, [], ◌∷◌, map, get_elem?, set,
  nonempty, get_elem?-set_self, get_elem?-map, arith,
}
use task_scheduling_platform.Platform.Entities.{Json}
use task_scheduling_platform.Client.State.{App}
use task_scheduling_platform.Client.Actions.{logged_out, dispatch, logout}
use task_scheduling_platform.Client.Query.{
  Headers, Args, Reply, failure, query_result, header, request_headers,
}
use task_scheduling_platform.Client.Headers.{header-request_headers}
use task_scheduling_platform.Client.Reauth.{
  Phase, sent, awaiting, woken, retried, settled, Call, attempt, refresh, Credentials, Client,
  on_reply, wake, store_credentials, on_resume, replied, refreshed, resumed, acted, step,
}

abbrev in_phase : Args → Phase → Call
in_phase args phase = record { args = args; phase = phase }

module _ (s : Client) (i : ℕ) (args : Args) (reply : Reply) (body : Json) (token : String)
    (found : get_elem? s.calls i ≡ some (in_phase args sent))
    (refused : query_result reply ≡ failure 401 body) (idle : s.refreshing ≡ false)
    (stored : s.app.storage.refresh_token ≡ some token) (kept : nonempty token ≡ true) where
  -- The state in which the call waits.
  abbrev waiting : Client
  waiting = record {
    app = s.app;
    calls = set s.calls i (in_phase args (awaiting (failure 401 body)));
    refreshing = true;
    log = refresh (request_headers s.app []) (some token) ∷ s.log;
  }

  step-waiting : step (replied i reply) s ≡ waiting
  unfolding step
  step-waiting = rw (on_reply, found, refused) (rw (stored, idle, kept) refl)

  -- The state once the refresh has ended, with the outcome `o`.
  abbrev calls_after : Option String → List Call
  calls_after t = map (wake t) (set s.calls i (in_phase args (awaiting (failure 401 body))))

  woken_call :
      (t : Option String)
      → get_elem? (calls_after t) i ≡ some (in_phase args (woken (failure 401 body) t))
  woken_call t = get_elem?-map (wake t) _ i (in_phase args (awaiting (failure 401 body))) (
      get_elem?-set_self s.calls i (in_phase args (awaiting (failure 401 body)))
        (in_phase args sent) found)

  module _ (c : Credentials) (last : Reply) (access : nonempty c.access_token ≡ true) where
    abbrev renewed : Client
    renewed = record {
      app = store_credentials c s.app;
      calls = calls_after (some c.access_token);
      refreshing = false;
      log = refresh (request_headers s.app []) (some token) ∷ s.log;
    }

    abbrev resent : Client
    resent = record renewed {
      calls = set (calls_after (some c.access_token)) i (in_phase args retried);
      log =
          attempt i (request_headers (store_credentials c s.app) args.headers)
          ∷ refresh (request_headers s.app []) (some token)
          ∷ s.log;
    }

    renewed-step : step (refreshed (some c)) waiting ≡ renewed
    unfolding step
    renewed-step = refl

    resent-step : step (resumed i) renewed ≡ resent
    unfolding step
    resent-step = rw (on_resume, woken_call (some c.access_token)) (rw access refl)

    last_step : step (replied i last) resent ≡ record resent {
      calls =
          set
            (set (calls_after (some c.access_token)) i (in_phase args retried))
            i
            (in_phase args (settled (query_result last)));
    }
    unfolding step
    last_step =
        rw
          (
            on_reply,
            get_elem?-set_self (calls_after (some c.access_token)) i (in_phase args retried) _
                (woken_call (some c.access_token)),
          )
          refl

    authorized :
        header "Authorization" (request_headers (store_credentials c s.app) args.headers)
        ≡ some (String.◌++◌ "Bearer " c.access_token)
    unfolding dispatch
    authorized =
        rw (header-request_headers (store_credentials c s.app) args.headers "Authorization")
          (rw access refl)

    -- A call is answered with a 401 while no refresh is in flight, and local storage has a refresh
    -- token. The refresh answers with credentials, the call goes on, and its request is answered:
    -- the call returns what this last answer gives; the two requests sent are the refresh, with the
    -- stored token, and the request again, with the new access token; the new tokens are stored.
    pub call_renews :
        let s' =
          step
            (replied i last)
            (step (resumed i) (step (refreshed (some c)) (step (replied i reply) s))) in
        (get_elem? s'.calls i ≡ some (in_phase args (settled (query_result last))))
        × ((h h' : Headers) × (s'.log ≡ attempt i h ∷ refresh h' (some token) ∷ s.log)
            × (header "Authorization" h ≡ some (String.◌++◌ "Bearer " c.access_token)))
        × (s'.app.auth.token ≡ some c.access_token)
        × (s'.app.storage.refresh_token ≡ some c.refresh_token)
    call_renews =
        rw (step-waiting, renewed-step, resent-step, last_step)
          (
            get_elem?-set_self _ i _ (in_phase args retried) (
                get_elem?-set_self _ i (in_phase args retried) _
                  (woken_call (some c.access_token))),
            (_, _, refl, authorized),
            unfold dispatch in refl,
            unfold dispatch in refl,
          )

  abbrev failed : Client
  failed = record waiting { calls = calls_after none; refreshing = false }

  abbrev signed_out : Client
  signed_out = record failed {
    app = dispatch logged_out s.app;
    calls = set (calls_after none) i (in_phase args (settled (failure 401 body)));
  }

  failed-step : step (refreshed none) waiting ≡ failed
  unfolding step
  failed-step = refl

  out_step : step (resumed i) failed ≡ signed_out
  unfolding step
  out_step = rw (on_resume, woken_call none) refl

  -- A call is answered with a 401 while no refresh is in flight, and local storage has a refresh
  -- token, but the refresh fails: the call returns the 401, no request is sent again, and the
  -- user is logged out, with nothing left of the session in local storage.
  pub call_signs_out :
      let s' = step (resumed i) (step (refreshed none) (step (replied i reply) s)) in
      (get_elem? s'.calls i ≡ some (in_phase args (settled (failure 401 body))))
      × (s'.log ≡ refresh (request_headers s.app []) (some token) ∷ s.log)
      × (s'.app.auth.is_authenticated ≡ false)
      × (s'.app.auth.token ≡ none)
      × (s'.app.storage.access_token ≡ none)
      × (s'.app.storage.refresh_token ≡ none)
      × (s'.app.storage.user_info ≡ none)
  call_signs_out =
      rw (step-waiting, failed-step, out_step)
        (
          get_elem?-set_self (calls_after none) i _ _ (woken_call none),
          refl,
          unfold dispatch in refl,
          unfold dispatch in refl,
          unfold dispatch in refl,
          unfold dispatch in refl,
          unfold dispatch in refl,
        )

-- Whoever logs out while a refresh is in flight is logged in again when it answers: for every such
-- state and all credentials that it answers with.
pub logout_undone :
    (s : Client) (c : Credentials)
    → s.refreshing ≡ true
    → let s' = step (refreshed (some c)) (step (acted logged_out) s) in
      (s'.app.auth.is_authenticated ≡ true)
      × (s'.app.auth.token ≡ some c.access_token)
      × (s'.app.storage.refresh_token ≡ some c.refresh_token)
unfolding step dispatch
logout_undone s c e = ground arith

-- After a logout, the requests still name the workspace that was active before it, until another
-- is chosen: whatever the state, where the active workspace has an id that is not empty.
pub logout_keeps_workspace :
    (app : App) (given : Headers) (id : String)
    → app.workspace.active_workspace_id ≡ some id
    → nonempty id ≡ true
    → let out = dispatch logged_out app in
      (header "x-workspace-id" (request_headers out given) ≡ some id)
      × (out.storage.active_workspace_id ≡ none)
unfolding dispatch
logout_keeps_workspace app given id e n =
    (rw (header-request_headers (logout app) given "x-workspace-id") (rw (e, n) refl), refl)
