-- ===== src/Client/Reauth/Waiting.antt =====
-- A call that waits for a refresh waits for one that is in flight.
use task_scheduling_platform.Base.{
  ℕ, zero, suc, String, ◌≤◌, ◌≡◌, refl, true, ◌==◌, Option, none, some, List, [], ◌∷◌, map, length,
  get_elem?, get_elem?-set, get_elem?-snoc, arith, Option-cases, Bool-cases, inl, inr,
}
use task_scheduling_platform.Client.State.{App, has_text}
use task_scheduling_platform.Client.Query.{Args, QueryResult, query_result}
use task_scheduling_platform.Client.Reauth.{
  Phase, sent, awaiting, woken, retried, settled, Call, Credentials, Client, idle_client, put, send,
  sign_out, call_api, is_unauthorized, ensure_refresh, on_unauthorized, receive, on_reply, wake,
  on_refreshed, continue_call, on_resume, Event, called, replied, refreshed, resumed, acted, step,
  run,
}
use task_scheduling_platform.Client.Reauth.Flight.{flag}

abbrev pub waits_in : Phase → ℕ
waits_in (awaiting _) = 1
waits_in _ = 0

abbrev pub waits : Option Call → ℕ
waits none = 0
waits (some c) = waits_in c.phase

abbrev pub IsAwaited : Client → Type 0
IsAwaited s = (i : ℕ) → waits (get_elem? s.calls i) ≤ flag s.refreshing

put-IsAwaited :
    (i : ℕ) (c : Call) (phase : Phase) (s t : Client)
    → get_elem? s.calls i ≡ some c
    → t.calls ≡ s.calls
    → flag s.refreshing ≤ flag t.refreshing
    → waits_in phase ≤ flag t.refreshing
    → IsAwaited s
    → IsAwaited (put i c phase t)
put-IsAwaited i c phase s t found same kept new h j =
    rw (same, get_elem?-set s.calls i j (record c { phase = phase }) c found)
      (elim (Bool-cases (i == j)) [ inl e ↦ rw e new | inr e ↦ rw e (omega (arith, h j, kept)) ])

call_api-IsAwaited : (args : Args) (s : Client) → IsAwaited s → IsAwaited (call_api args s)
unfolding call_api
call_api-IsAwaited args s h j =
    rw (get_elem?-snoc s.calls (record { args = args; phase = sent }) j)
      (elim (Bool-cases (length s.calls == j)) [ inl e ↦ rw e (omega arith) | inr e ↦ rw e (h j) ])

pub ensure_refresh_sets :
    (s : Client) → ((ensure_refresh s).calls ≡ s.calls) × ((ensure_refresh s).refreshing ≡ true)
unfolding ensure_refresh
ensure_refresh_sets s = ground arith

receive-IsAwaited :
    (phase : Phase) (i : ℕ) (c : Call) (result : QueryResult) (s : Client)
    → get_elem? s.calls i ≡ some c
    → IsAwaited s
    → IsAwaited (receive phase i c result s)
unfolding receive on_unauthorized
receive-IsAwaited sent i c result s found h =
    let (same, on) = ensure_refresh_sets s in
    elim (Bool-cases (is_unauthorized result)) [
      | inl e ↦ rw e (elim (Bool-cases (has_text s.app.storage.refresh_token)) [
        | inl stored ↦ rw stored (
            put-IsAwaited i c (awaiting result) s (ensure_refresh s) found same (ground arith)
              (ground arith) h)
        | inr missing ↦ rw missing (
            put-IsAwaited i c (settled result) s (sign_out s) found refl (omega arith) (omega arith)
              h)
      ])
      | inr e ↦
          rw e (put-IsAwaited i c (settled result) s s found refl (omega arith) (omega arith) h)
    ]
receive-IsAwaited retried i c result s found h =
    put-IsAwaited i c (settled result) s s found refl (omega arith) (omega arith) h
receive-IsAwaited _ i c result s found h = h

none_waits :
    (token : Option String) (calls : List Call) (j : ℕ)
    → waits (get_elem? (map (wake token) calls) j) ≡ 0
none_waits token [] j = refl
none_waits token (c ∷ calls) zero = ground arith
none_waits token (c ∷ calls) (suc j) = none_waits token calls j

on_refreshed-IsAwaited :
    (c : Option Credentials) (s : Client) → IsAwaited s → IsAwaited (on_refreshed c s)
unfolding on_refreshed
on_refreshed-IsAwaited none s h j = ground (arith, none_waits none s.calls j, h j)
on_refreshed-IsAwaited (some c) s h j =
    ground (arith, none_waits (some c.access_token) s.calls j, h j)

continue_call-IsAwaited :
    (phase : Phase) (i : ℕ) (c : Call) (s : Client)
    → get_elem? s.calls i ≡ some c
    → IsAwaited s
    → IsAwaited (continue_call phase i c s)
unfolding continue_call
continue_call-IsAwaited sent i c s found h = h
continue_call-IsAwaited (woken result token) i c s found h = elim (Bool-cases (has_text token)) [
  | inl e ↦
      rw e (put-IsAwaited i c retried s (send i c.args s) found refl (omega arith) (omega arith) h)
  | inr e ↦
      rw e
        (put-IsAwaited i c (settled result) s (sign_out s) found refl (omega arith) (omega arith) h)
]
continue_call-IsAwaited _ i c s found h = h

pub step-IsAwaited : (e : Event) (s : Client) → IsAwaited s → IsAwaited (step e s)
unfolding step
step-IsAwaited (called args) s h = call_api-IsAwaited args s h
step-IsAwaited (replied i reply) s h = elim (Option-cases (get_elem? s.calls i)) [
  | inl e ↦ rw (e, on_reply) h
  | inr (c, e) ↦ rw (e, on_reply) (receive-IsAwaited c.phase i c (query_result reply) s e h)
]
step-IsAwaited (refreshed c) s h = on_refreshed-IsAwaited c s h
step-IsAwaited (resumed i) s h = elim (Option-cases (get_elem? s.calls i)) [
  | inl e ↦ rw (e, on_resume) h
  | inr (c, e) ↦ rw (e, on_resume) (continue_call-IsAwaited c.phase i c s e h)
]
step-IsAwaited (acted a) s h = h

pub run-IsAwaited : (events : List Event) (s : Client) → IsAwaited s → IsAwaited (run events s)
unfolding run
run-IsAwaited [] s h = h
run-IsAwaited (e ∷ rest) s h = run-IsAwaited rest (step e s) (step-IsAwaited e s h)

pub idle_client-IsAwaited : (app : App) → IsAwaited (idle_client app)
unfolding idle_client
idle_client-IsAwaited app i = omega arith
