-- ===== src/Client/Reauth/Ends.antt =====
-- Each call ends: the events that it needs, and that nothing sets it back.
use task_scheduling_platform.Base.{
  ℕ, zero, suc, String, ◌≤◌, ◌≡◌, refl, ◌==◌, Option, none, some, List, [], ◌∷◌, map, length,
  get_elem?, get_elem?-set, get_elem?-snoc, get_elem?-length, arith, Option-cases, Bool-cases, inl,
  inr, subst,
}
use task_scheduling_platform.Client.State.{has_text}
use task_scheduling_platform.Client.Query.{Args, QueryResult, query_result}
use task_scheduling_platform.Client.Reauth.{
  Phase, sent, awaiting, woken, retried, settled, Call, Credentials, Client, put, send, sign_out,
  call_api, is_unauthorized, ensure_refresh, on_unauthorized, receive, on_reply, wake, on_refreshed,
  continue_call, on_resume, Event, called, replied, refreshed, resumed, acted, step, run,
}
use task_scheduling_platform.Client.Reauth.Waiting.{ensure_refresh_sets}

-- How far a call is from its end.
abbrev pub rank : Phase → ℕ
rank sent = 4
rank (awaiting _) = 3
rank (woken _ _) = 2
rank retried = 1
rank (settled _) = 0

abbrev pub rank_of : Option Call → ℕ
rank_of none = 5
rank_of (some c) = rank c.phase

abbrev pub rank_at : ℕ → Client → ℕ
rank_at i s = rank_of (get_elem? s.calls i)

module _ (i : ℕ) (c : Call) (phase : Phase) (s t : Client) (found : get_elem? s.calls i ≡ some c)
    (same : t.calls ≡ s.calls) where
  put-rank_self : rank_at i (put i c phase t) ≡ rank phase
  put-rank_self =
      rw (same, get_elem?-set s.calls i i (record c { phase = phase }) c found) (ground arith)

  put-rank_le : rank phase ≤ rank c.phase → (j : ℕ) → rank_at j (put i c phase t) ≤ rank_at j s
  put-rank_le less j =
      rw (same, get_elem?-set s.calls i j (record c { phase = phase }) c found)
        (elim (Bool-cases (i == j)) [
          | inl e ↦
              let eq : i ≡ j = ground arith in
              let here : get_elem? s.calls j ≡ some c =
                subst (λ k. get_elem? s.calls k ≡ some c) eq found in
              rw (e, here) less
          | inr e ↦ rw e (omega arith)
        ])

-- What a reply does to the call that it is for.
abbrev pub after_reply : Phase → ℕ
after_reply sent = 3
after_reply (awaiting _) = 3
after_reply (woken _ _) = 2
after_reply retried = 0
after_reply (settled _) = 0

pub receive_rank :
    (phase : Phase) (i : ℕ) (c : Call) (result : QueryResult) (s : Client)
    → get_elem? s.calls i ≡ some c
    → c.phase ≡ phase
    → (rank_at i (receive phase i c result s) ≤ after_reply phase)
      × ((j : ℕ) → rank_at j (receive phase i c result s) ≤ rank_at j s)
unfolding receive on_unauthorized
receive_rank sent i c result s found is =
    let (same, on) = ensure_refresh_sets s in
    elim (Bool-cases (is_unauthorized result)) [
      | inl e ↦ rw e (elim (Bool-cases (has_text s.app.storage.refresh_token)) [
        | inl stored ↦ rw stored (
          omega (arith, put-rank_self i c (awaiting result) s (ensure_refresh s) found same),
          put-rank_le i c (awaiting result) s (ensure_refresh s) found same (rw is (omega arith)),
        )
        | inr missing ↦ rw missing (
          omega (arith, put-rank_self i c (settled result) s (sign_out s) found refl),
          put-rank_le i c (settled result) s (sign_out s) found refl (omega arith),
        )
      ])
      | inr e ↦ rw e (
        omega (arith, put-rank_self i c (settled result) s s found refl),
        put-rank_le i c (settled result) s s found refl (omega arith),
      )
    ]
receive_rank retried i c result s found is = (
  omega (arith, put-rank_self i c (settled result) s s found refl),
  put-rank_le i c (settled result) s s found refl (omega arith),
)
receive_rank (awaiting r) i c result s found is = (rw (found, is) (omega arith), λ j. omega arith)
receive_rank (woken r t) i c result s found is = (rw (found, is) (omega arith), λ j. omega arith)
receive_rank (settled r) i c result s found is = (rw (found, is) (omega arith), λ j. omega arith)

abbrev pub after_resume : Phase → ℕ
after_resume (woken _ _) = 1
after_resume phase = rank phase

pub continue_rank :
    (phase : Phase) (i : ℕ) (c : Call) (s : Client)
    → get_elem? s.calls i ≡ some c
    → c.phase ≡ phase
    → (rank_at i (continue_call phase i c s) ≤ after_resume phase)
      × ((j : ℕ) → rank_at j (continue_call phase i c s) ≤ rank_at j s)
unfolding continue_call
continue_rank (woken result token) i c s found is = elim (Bool-cases (has_text token)) [
  | inl e ↦ rw e (
    omega (arith, put-rank_self i c retried s (send i c.args s) found refl),
    put-rank_le i c retried s (send i c.args s) found refl (rw is (omega arith)),
  )
  | inr e ↦ rw e (
    omega (arith, put-rank_self i c (settled result) s (sign_out s) found refl),
    put-rank_le i c (settled result) s (sign_out s) found refl (omega arith),
  )
]
continue_rank sent i c s found is = (rw (found, is) (omega arith), λ j. omega arith)
continue_rank retried i c s found is = (rw (found, is) (omega arith), λ j. omega arith)
continue_rank (awaiting r) i c s found is = (rw (found, is) (omega arith), λ j. omega arith)
continue_rank (settled r) i c s found is = (rw (found, is) (omega arith), λ j. omega arith)

rank-wake : (token : Option String) (c : Call) → rank (wake token c).phase ≤ rank c.phase
rank-wake token c = ground arith

rank-map-wake :
    (token : Option String) (calls : List Call) (j : ℕ)
    → rank_of (get_elem? (map (wake token) calls) j) ≤ rank_of (get_elem? calls j)
rank-map-wake token [] j = omega arith
rank-map-wake token (c ∷ calls) zero = rank-wake token c
rank-map-wake token (c ∷ calls) (suc j) = rank-map-wake token calls j

refreshed_rank :
    (c : Option Credentials) (s : Client) (j : ℕ) → rank_at j (on_refreshed c s) ≤ rank_at j s
unfolding on_refreshed
refreshed_rank none s j = ground (arith, rank-map-wake none s.calls j)
refreshed_rank (some c) s j = ground (arith, rank-map-wake (some c.access_token) s.calls j)

called_rank : (args : Args) (s : Client) (j : ℕ) → rank_at j (call_api args s) ≤ rank_at j s
unfolding call_api
called_rank args s j =
    rw (get_elem?-snoc s.calls (record { args = args; phase = sent }) j)
      (elim (Bool-cases (length s.calls == j)) [
        | inl e ↦
            let eq : length s.calls ≡ j = ground arith in
            let new : get_elem? s.calls j ≡ none =
              subst (λ k. get_elem? s.calls k ≡ none) eq (get_elem?-length s.calls) in
            rw (e, new) (omega arith)
        | inr e ↦ rw e (omega arith)
      ])

-- No event sets a call back.
step_rank : (e : Event) (s : Client) (j : ℕ) → rank_at j (step e s) ≤ rank_at j s
unfolding step
step_rank (called args) s j = called_rank args s j
step_rank (replied i reply) s j = elim (Option-cases (get_elem? s.calls i)) [
  | inl e ↦ rw (e, on_reply) (omega arith)
  | inr (c, e) ↦ rw (e, on_reply) ((receive_rank c.phase i c (query_result reply) s e refl).1 j)
]
step_rank (refreshed c) s j = refreshed_rank c s j
step_rank (resumed i) s j = elim (Option-cases (get_elem? s.calls i)) [
  | inl e ↦ rw (e, on_resume) (omega arith)
  | inr (c, e) ↦ rw (e, on_resume) ((continue_rank c.phase i c s e refl).1 j)
]
step_rank (acted a) s j = omega arith

pub run_rank : (events : List Event) (s : Client) (j : ℕ) → rank_at j (run events s) ≤ rank_at j s
unfolding run
run_rank [] s j = omega arith
run_rank (e ∷ rest) s j = omega (arith, step_rank e s j, run_rank rest (step e s) j)
