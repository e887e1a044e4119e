-- ===== src/Client/Reauth/Attempts.antt =====
-- How often the request of a call is sent.
use task_scheduling_platform.Base.{
  ℕ, zero, suc, String, ◌+◌, ◌≤◌, ◌≡◌, refl, true, ◌==◌, Option, none, some, List, [], ◌∷◌, map,
  length, get_elem?, get_elem?-set, get_elem?-snoc, get_elem?-length, subst, if◌then◌else◌, arith,
  Option-cases, Bool-cases, inl, inr,
}
use task_scheduling_platform.Client.State.{App, has_text}
use task_scheduling_platform.Client.Query.{Args, QueryResult, query_result}
use task_scheduling_platform.Client.Reauth.{
  Phase, sent, awaiting, woken, retried, settled, Call, Request, attempt, refresh, Credentials,
  Client, idle_client, put, send, call_api, is_unauthorized, ensure_refresh, on_unauthorized,
  receive, on_reply, sign_out, wake, on_refreshed, continue_call, on_resume, Event, called, replied,
  refreshed, resumed, acted, step, run,
}

abbrev pub attempts : ℕ → List Request → ℕ
attempts i [] = 0
attempts i (attempt j _ ∷ log) = (if j == i then 1 else 0) + attempts i log
attempts i (refresh _ _ ∷ log) = attempts i log

-- How often it may still be sent.
abbrev left_in : Phase → ℕ
left_in sent = 1
left_in (awaiting _) = 1
left_in (woken _ _) = 1
left_in retried = 0
left_in (settled _) = 0

abbrev left_for : Option Call → ℕ
left_for none = 2
left_for (some c) = left_in c.phase

abbrev IsWithin : Client → Type 0
IsWithin s = (i : ℕ) → attempts i s.log + left_for (get_elem? s.calls i) ≤ 2

fresh_index : (s : Client) (i : ℕ) → (length s.calls == i) ≡ true → get_elem? s.calls i ≡ none
fresh_index s i e =
    let same : length s.calls ≡ i = ground arith in
    subst (λ n. get_elem? s.calls n ≡ none) same (get_elem?-length s.calls)

call_api-IsWithin : (args : Args) (s : Client) → IsWithin s → IsWithin (call_api args s)
unfolding call_api
call_api-IsWithin args s h i =
    rw (get_elem?-snoc s.calls (record { args = args; phase = sent }) i)
      (elim (Bool-cases (length s.calls == i)) [
        | inl e ↦
            let new = fresh_index s i e in
            let before = rw new at (h i) in rw e (ground (arith, before))
        | inr e ↦ rw e (omega (arith, h i))
      ])

-- A call in a phase moves to another, and its request is sent `n` times more.
put-IsWithin :
    (i : ℕ) (c : Call) (phase : Phase) (s t : Client) (n : ℕ)
    → get_elem? s.calls i ≡ some c
    → t.calls ≡ s.calls
    → ((j : ℕ) → attempts j t.log ≡ (if i == j then n else 0) + attempts j s.log)
    → left_in phase + n ≤ left_in c.phase
    → IsWithin s
    → IsWithin (put i c phase t)
put-IsWithin i c phase s t n found same more less h j =
    rw (same, more j, get_elem?-set s.calls i j (record c { phase = phase }) c found)
      (elim (Bool-cases (i == j)) [
        | inl e ↦
            let eq : i ≡ j = ground arith in
            let here : get_elem? s.calls j ≡ some c =
              subst (λ k. get_elem? s.calls k ≡ some c) eq found in
            let before = rw here at (h j) in rw e (omega (arith, before, less))
        | inr e ↦ rw e (omega (arith, h j))
      ])

-- As above, where no request of a call is sent.
quiet-IsWithin :
    (i : ℕ) (c : Call) (phase : Phase) (s t : Client)
    → get_elem? s.calls i ≡ some c
    → t.calls ≡ s.calls
    → ((j : ℕ) → attempts j t.log ≡ attempts j s.log)
    → left_in phase ≤ left_in c.phase
    → IsWithin s
    → IsWithin (put i c phase t)
quiet-IsWithin i c phase s t found same equal less h =
    put-IsWithin i c phase s t 0 found same (λ j. ground (arith, equal j)) (omega (arith, less)) h

ensure_refresh_quiet :
    (s : Client)
    → ((ensure_refresh s).calls ≡ s.calls)
      × ((j : ℕ) → attempts j (ensure_refresh s).log ≡ attempts j s.log)
unfolding ensure_refresh
ensure_refresh_quiet s = elim (Bool-cases s.refreshing) [
  | inl e ↦ (ground arith, λ j. ground arith)
  | inr e ↦ (ground arith, λ j. ground arith)
]

on_unauthorized-IsWithin :
    (i : ℕ) (c : Call) (result : QueryResult) (s : Client)
    → get_elem? s.calls i ≡ some c
    → c.phase ≡ sent
    → IsWithin s
    → IsWithin (on_unauthorized i c result s)
unfolding on_unauthorized
on_unauthorized-IsWithin i c result s found first h =
    let (same, equal) = ensure_refresh_quiet s in
    elim (Bool-cases (has_text s.app.storage.refresh_token)) [
      | inl e ↦ rw e (
          quiet-IsWithin i c (awaiting result) s (ensure_refresh s) found same equal
            (rw first (omega arith)) h)
      | inr e ↦ rw e (
          quiet-IsWithin i c (settled result) s (sign_out s) found refl (λ j. refl)
            (rw first (omega arith)) h)
    ]

receive-IsWithin :
    (phase : Phase) (i : ℕ) (c : Call) (result : QueryResult) (s : Client)
    → get_elem? s.calls i ≡ some c
    → c.phase ≡ phase
    → IsWithin s
    → IsWithin (receive phase i c result s)
unfolding receive
receive-IsWithin sent i c result s found is h = elim (Bool-cases (is_unauthorized result)) [
  | inl e ↦ rw e (on_unauthorized-IsWithin i c result s found is h)
  | inr e ↦
      rw e (quiet-IsWithin i c (settled result) s s found refl (λ j. refl) (rw is (omega arith)) h)
]
receive-IsWithin retried i c result s found is h =
    quiet-IsWithin i c (settled result) s s found refl (λ j. refl) (rw is (omega arith)) h
receive-IsWithin _ i c result s found is h = h

left-wake : (token : Option String) (c : Call) → left_in (wake token c).phase ≡ left_in c.phase
left-wake token c = ground arith

left-map-wake :
    (token : Option String) (calls : List Call) (j : ℕ)
    → left_for (get_elem? (map (wake token) calls) j) ≡ left_for (get_elem? calls j)
left-map-wake token [] j = refl
left-map-wake token (c ∷ calls) zero = left-wake token c
left-map-wake token (c ∷ calls) (suc j) = left-map-wake token calls j

on_refreshed-IsWithin :
    (c : Option Credentials) (s : Client) → IsWithin s → IsWithin (on_refreshed c s)
unfolding on_refreshed
on_refreshed-IsWithin none s h j = ground (arith, left-map-wake none s.calls j, h j)
on_refreshed-IsWithin (some c) s h j =
    ground (arith, left-map-wake (some c.access_token) s.calls j, h j)

continue_call-IsWithin :
    (phase : Phase) (i : ℕ) (c : Call) (s : Client)
    → get_elem? s.calls i ≡ some c
    → c.phase ≡ phase
    → IsWithin s
    → IsWithin (continue_call phase i c s)
unfolding continue_call
continue_call-IsWithin sent i c s found is h = h
continue_call-IsWithin (woken result token) i c s found is h = elim (Bool-cases (has_text token)) [
  | inl e ↦ rw e (
      put-IsWithin i c retried s (send i c.args s) 1 found refl (λ j. refl) (rw is (omega arith)) h)
  | inr e ↦ rw e (
      quiet-IsWithin i c (settled result) s (sign_out s) found refl (λ j. refl)
        (rw is (omega arith)) h)
]
continue_call-IsWithin _ i c s found is h = h

step-IsWithin : (e : Event) (s : Client) → IsWithin s → IsWithin (step e s)
unfolding step
step-IsWithin (called args) s h = call_api-IsWithin args s h
step-IsWithin (replied i reply) s h = elim (Option-cases (get_elem? s.calls i)) [
  | inl e ↦ rw (e, on_reply) h
  | inr (c, e) ↦ rw (e, on_reply) (receive-IsWithin c.phase i c (query_result reply) s e refl h)
]
step-IsWithin (refreshed c) s h = on_refreshed-IsWithin c s h
step-IsWithin (resumed i) s h = elim (Option-cases (get_elem? s.calls i)) [
  | inl e ↦ rw (e, on_resume) h
  | inr (c, e) ↦ rw (e, on_resume) (continue_call-IsWithin c.phase i c s e refl h)
]
step-IsWithin (acted a) s h = h

run-IsWithin : (events : List Event) (s : Client) → IsWithin s → IsWithin (run events s)
unfolding run
run-IsWithin [] s h = h
run-IsWithin (e ∷ rest) s h = run-IsWithin rest (step e s) (step-IsWithin e s h)

idle_client-IsWithin : (app : App) → IsWithin (idle_client app)
unfolding idle_client
idle_client-IsWithin app i = omega arith

-- Whatever is called, answered, refreshed and dispatched, in any order: the request of a call
-- has been sent at most twice.
pub attempts-le_two :
    (app : App) (events : List Event) (i : ℕ) → attempts i (run events (idle_client app)).log ≤ 2
attempts-le_two app events i =
    omega (arith, run-IsWithin events (idle_client app) (idle_client-IsWithin app) i)
