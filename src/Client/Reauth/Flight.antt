-- ===== src/Client/Reauth/Flight.antt =====
-- The refresh in flight: how many there are, and that each call that waits for it ends.
use task_scheduling_platform.Base.{
  ℕ, suc, ◌+◌, ◌≤◌, ◌≡◌, refl, Bool, true, false, none, some, List, [], ◌∷◌, get_elem?, arith,
  Option-cases, Bool-cases, inl, inr,
}
use task_scheduling_platform.Client.State.{App, has_text}
use task_scheduling_platform.Client.Query.{QueryResult, query_result}
use task_scheduling_platform.Client.Reauth.{
  Phase, sent, woken, retried, Call, Request, attempt, refresh, Client, idle_client,
  is_unauthorized, ensure_refresh, on_unauthorized, receive, on_reply, continue_call, on_resume,
  Event, called, replied, refreshed, resumed, acted, step, run,
}

abbrev pub refreshes : List Request → ℕ
refreshes [] = 0
refreshes (attempt _ _ ∷ log) = refreshes log
refreshes (refresh _ _ ∷ log) = suc (refreshes log)

abbrev pub refresh_events : List Event → ℕ
refresh_events [] = 0
refresh_events (refreshed _ ∷ events) = suc (refresh_events events)
refresh_events (_ ∷ events) = refresh_events events

abbrev pub flag : Bool → ℕ
flag true = 1
flag false = 0

-- The refreshes that have ended.
abbrev ended : Event → ℕ
ended (refreshed _) = 1
ended _ = 0

ensure_refresh_counts :
    (s : Client)
    → refreshes (ensure_refresh s).log + flag s.refreshing
      ≡ refreshes s.log + flag (ensure_refresh s).refreshing
unfolding ensure_refresh
ensure_refresh_counts s = ground arith

receive_counts :
    (phase : Phase) (i : ℕ) (c : Call) (result : QueryResult) (s : Client)
    → refreshes (receive phase i c result s).log + flag s.refreshing
      ≡ refreshes s.log + flag (receive phase i c result s).refreshing
unfolding receive on_unauthorized
receive_counts sent i c result s = elim (Bool-cases (is_unauthorized result)) [
  | inl e ↦ rw e (elim (Bool-cases (has_text s.app.storage.refresh_token)) [
    | inl stored ↦ rw stored (ensure_refresh_counts s)
    | inr missing ↦ rw missing refl
  ])
  | inr e ↦ rw e refl
]
receive_counts retried i c result s = refl
receive_counts _ i c result s = refl

continue_counts :
    (phase : Phase) (i : ℕ) (c : Call) (s : Client)
    → (refreshes (continue_call phase i c s).log ≡ refreshes s.log)
      × ((continue_call phase i c s).refreshing ≡ s.refreshing)
unfolding continue_call
continue_counts sent i c s = (refl, refl)
continue_counts (woken result token) i c s = ground arith
continue_counts _ i c s = (refl, refl)

step_counts :
    (e : Event) (s : Client)
    → refreshes (step e s).log + flag s.refreshing
      ≤ refreshes s.log + flag (step e s).refreshing + ended e
unfolding step
step_counts (called args) s = ground arith
step_counts (replied i reply) s = elim (Option-cases (get_elem? s.calls i)) [
  | inl e ↦ rw (e, on_reply) (omega arith)
  | inr (c, e) ↦ rw (e, on_reply) (omega (arith, receive_counts c.phase i c (query_result reply) s))
]
step_counts (refreshed none) s = ground arith
step_counts (refreshed (some c)) s = ground arith
step_counts (resumed i) s = elim (Option-cases (get_elem? s.calls i)) [
  | inl e ↦ rw (e, on_resume) (omega arith)
  | inr (c, e) ↦ rw (e, on_resume) (ground (arith, continue_counts c.phase i c s))
]
step_counts (acted a) s = omega arith

run_counts :
    (events : List Event) (s : Client)
    → refreshes (run events s).log + flag s.refreshing
      ≤ refreshes s.log + flag (run events s).refreshing + refresh_events events
unfolding run
run_counts [] s = omega arith
run_counts (e ∷ rest) s =
    omega (arith, step_counts e s, run_counts rest (step e s), refresh_events_cons e rest)
  where
    refresh_events_cons :
        (e : Event) (rest : List Event) → refresh_events (e ∷ rest) ≡ ended e + refresh_events rest
    refresh_events_cons (called _) rest = omega arith
    refresh_events_cons (replied _ _) rest = omega arith
    refresh_events_cons (refreshed _) rest = omega arith
    refresh_events_cons (resumed _) rest = omega arith
    refresh_events_cons (acted _) rest = omega arith

-- At most one refresh is in flight: after any events, in any order, no more requests for new tokens
-- have been sent than have ended, and one more while `refreshPromise` is set.
pub refreshes-run :
    (app : App) (events : List Event)
    → let s = run events (idle_client app) in
      refreshes s.log ≤ refresh_events events + flag s.refreshing
unfolding idle_client
refreshes-run app events = omega (arith, run_counts events (idle_client app))
