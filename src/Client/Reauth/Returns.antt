-- ===== src/Client/Reauth/Returns.antt =====
-- Every call returns.
use task_scheduling_platform.Base.{
  ℕ, zero, suc, String, ◌≤◌, ◌≡◌, refl, Option, none, some, List, [], ◌∷◌, map, get_elem?, arith,
  Option-cases, Bool-cases, inl, inr, ap,
}
use task_scheduling_platform.Client.State.{App}
use task_scheduling_platform.Client.Query.{Reply, QueryResult, query_result}
use task_scheduling_platform.Client.Reauth.{
  Phase, sent, awaiting, woken, retried, settled, Call, Credentials, Client, idle_client, on_reply,
  wake, on_refreshed, on_resume, Event, replied, refreshed, resumed, step, run,
}
use task_scheduling_platform.Client.Reauth.Flight.{flag}
use task_scheduling_platform.Client.Reauth.Waiting.{
  IsAwaited, waits, run-IsAwaited, step-IsAwaited, idle_client-IsAwaited,
}
use task_scheduling_platform.Client.Reauth.Ends.{
  rank, rank_of, rank_at, receive_rank, continue_rank, run_rank,
}

replied_rank :
    (i : ℕ) (reply : Reply) (s : Client)
    → (rank_at i s ≤ 4 → rank_at i (step (replied i reply) s) ≤ 3)
      × (rank_at i s ≤ 1 → rank_at i (step (replied i reply) s) ≡ 0)
unfolding step
replied_rank i reply s = elim (Option-cases (get_elem? s.calls i)) [
  | inl e ↦ (
    λ h. let h' = rw e at h in absurd (omega arith),
    λ h. let h' = rw e at h in absurd (omega arith),
  )
  | inr (c, e) ↦
      let (low, _) = receive_rank c.phase i c (query_result reply) s e refl in
      (
        λ h. rw (e, on_reply) (ground (arith, low)),
        λ h. let h' = rw e at h in rw (e, on_reply) (ground (arith, low, h')),
      )
]

woken_rank :
    (token : Option String) (calls : List Call) (j : ℕ)
    → rank_of (get_elem? calls j) ≤ 3
    → rank_of (get_elem? (map (wake token) calls) j) ≤ 2
woken_rank token [] j h = absurd (omega arith)
woken_rank token (c ∷ calls) zero h = ground arith
woken_rank token (c ∷ calls) (suc j) h = woken_rank token calls j h

-- Where no refresh is in flight, a call of rank 3 would wait for none.
unawaited : (c : Option Call) → waits c ≤ 0 → rank_of c ≤ 3 → rank_of c ≤ 2
unawaited none w h = absurd (omega arith)
unawaited (some c) w h = ground arith

refreshed_rank :
    (c : Option Credentials) (s : Client) (i : ℕ)
    → IsAwaited s
    → rank_at i s ≤ 3
    → rank_at i (step (refreshed c) s) ≤ 2
unfolding step
refreshed_rank c s i h low = elim (Bool-cases s.refreshing) [
  | inl e ↦ elim (Option-cases c) [
    | inl n ↦ rw (n, on_refreshed, e) (woken_rank none s.calls i low)
    | inr (d, n) ↦ rw (n, on_refreshed, e) (woken_rank (some d.access_token) s.calls i low)
  ]
  | inr e ↦ rw (on_refreshed, e) (unawaited (get_elem? s.calls i) (rw (← ap flag e) (h i)) low)
]

resumed_rank : (i : ℕ) (s : Client) → rank_at i s ≤ 2 → rank_at i (step (resumed i) s) ≤ 1
unfolding step
resumed_rank i s h = elim (Option-cases (get_elem? s.calls i)) [
  | inl e ↦ let h' = rw e at h in absurd (omega arith)
  | inr (c, e) ↦
      let (low, _) = continue_rank c.phase i c s e refl in
      let h' = rw e at h in rw (e, on_resume) (ground (arith, low, h'))
]

settled_of_rank :
    (c : Option Call)
    → rank_of c ≡ 0
    → (d : Call) × (result : QueryResult) × (c ≡ some d) × (d.phase ≡ settled result)
settled_of_rank none e = absurd (omega arith)
settled_of_rank (some c) e = let (r, is) = settled_phase c.phase e in (c, r, refl, is)
  where
    settled_phase : (phase : Phase) → rank phase ≡ 0 → (r : QueryResult) × (phase ≡ settled r)
    settled_phase sent e = absurd (omega arith)
    settled_phase (awaiting _) e = absurd (omega arith)
    settled_phase (woken _ _) e = absurd (omega arith)
    settled_phase retried e = absurd (omega arith)
    settled_phase (settled r) e = (r, refl)

rank-le_four : (phase : Phase) → rank phase ≤ 4
rank-le_four phase = ground arith

-- After any events a call is under way. Then its request is answered, a refresh ends, the call goes
-- on and its request is answered once more, with any other events before, between and after these:
-- the call has returned a result, whatever the answers are and however the refresh ended.
pub call_returns :
    (app : App) (before first second third : List Event) (i : ℕ) (c : Call) (reply last : Reply)
    (fresh : Option Credentials)
    → get_elem? (run before (idle_client app)).calls i ≡ some c
    → let answered = run first (step (replied i reply) (run before (idle_client app))) in
      let ready = run second (step (refreshed fresh) answered) in
      let resent = run third (step (resumed i) ready) in
      (d : Call) × (result : QueryResult) × (get_elem? (step (replied i last) resent).calls i
        ≡ some d)
      × (d.phase ≡ settled result)
call_returns app before first second third i c reply last fresh found =
    let s = run before (idle_client app) in
    let s1 = step (replied i reply) s in
    let answered = run first s1 in
    let s2 = step (refreshed fresh) answered in
    let ready = run second s2 in
    let s3 = step (resumed i) ready in
    let resent = run third s3 in
    let live : IsAwaited answered = run-IsAwaited first s1 (
      step-IsAwaited (replied i reply) s
        (run-IsAwaited before (idle_client app) (idle_client-IsAwaited app))) in
    let started : rank_at i s ≤ 4 = rw found (rank-le_four c.phase) in
    let r1 : rank_at i answered ≤ 3 =
      omega (arith, run_rank first s1 i, (replied_rank i reply s).0 started) in
    let r2 : rank_at i ready ≤ 2 =
      omega (arith, run_rank second s2 i, refreshed_rank fresh answered i live r1) in
    let r3 : rank_at i resent ≤ 1 = omega (arith, run_rank third s3 i, resumed_rank i ready r2) in
    settled_of_rank _ ((replied_rank i last resent).1 r3)
