-- ===== src/Client/Sockets/Aligned.antt =====
-- The socket of the service against what its callers asked for.
use task_scheduling_platform.Base.{
  ℕ, String, Bool, true, false, ◌+◌, ◌-◌, ◌≡◌, refl, Option, some, List, [], ◌∷◌, if◌then◌else◌,
  arith, Option-cases, Bool-cases, inl, inr, ap, eq_iff, ◌∙◌,
}
use mathlib.Core.Path.{subst₂}
use task_scheduling_platform.Platform.Entities.{Json}
use task_scheduling_platform.Client.Sockets.{
  same, flag, Emitter, Socket, Service, connect, listen, unlisten, emit, link, is_connected,
  Operation, connects, disconnects, listens, unlistens, emits, links, operate, operate_all,
  open_socket, bind_all, options_of,
}
use task_scheduling_platform.Client.Sockets.Bound.{
  Wanted, want, want_all, IsNew, AreNew, IsAligned, connect-IsAligned, occurrences-add_listener,
  occurrences-remove_listener, occurrences,
}

same_wanted :
    (wanted : String → ℕ → Bool) (e : String) (c : ℕ) (e' : String) (c' : ℕ)
    → same e c e' c' ≡ true
    → wanted e c ≡ false
    → wanted e' c' ≡ false
same_wanted wanted e c e' c' this new =
    let events : e ≡ e' = (eq_iff e e').0 (ground arith) in
    let callbacks : c ≡ c' = ground arith in subst₂ (λ x y. wanted x y ≡ false) events callbacks new

-- One more than before for this callback, which was not there.
one_more :
    (wanted : String → ℕ → Bool) (e : String) (c : ℕ) (e' : String) (c' n : ℕ)
    → wanted e c ≡ false
    → n ≡ flag (wanted e' c')
    → flag (same e c e' c') + n ≡ flag (if same e c e' c' then true else wanted e' c')
one_more wanted e c e' c' n new is = elim (Bool-cases (same e c e' c')) [
  | inl this ↦ rw this (ground (arith, is, same_wanted wanted e c e' c' this new))
  | inr other ↦ rw other (omega (arith, is))
]

-- One less than before for this callback, which was there once at most.
one_less :
    (wanted : String → ℕ → Bool) (e : String) (c : ℕ) (e' : String) (c' n : ℕ)
    → n ≡ flag (wanted e' c')
    → n - flag (same e c e' c') ≡ flag (if same e c e' c' then false else wanted e' c')
one_less wanted e c e' c' n is = elim (Bool-cases (same e c e' c')) [
  | inl this ↦ rw this (ground (arith, is))
  | inr other ↦ rw other (omega (arith, is))
]

none_left :
    (wanted : String → ℕ → Bool) (e : String) (c : ℕ) (e' : String) (c' n : ℕ)
    → n ≡ flag (wanted e' c')
    → (if same e c e' c' then 0 else n) ≡ flag (if same e c e' c' then false else wanted e' c')
none_left wanted e c e' c' n is = elim (Bool-cases (same e c e' c')) [
  | inl this ↦ rw this refl
  | inr other ↦ rw other is
]

module _ (io : Emitter) where
  open io use {Handlers, fresh, on, off, times, times-fresh, times-on, times-off}

  listen-IsAligned :
      (e : String) (c : ℕ) (s : Service io) (wanted : Wanted io)
      → wanted e c ≡ false
      → IsAligned io s wanted
      → IsAligned io (listen io e c s) (want io (listens e c) wanted)
  unfolding listen
  listen-IsAligned e c s wanted new h =
      let absent : occurrences e c s.listeners ≡ 0 = ground (arith, h.listed e c) in
      record {
        listed = λ e' c'.
            rw (occurrences-add_listener e c e' c' s.listeners absent)
              (one_more wanted e c e' c' _ new (h.listed e' c'));
        bound = λ k is e' c'. elim (Option-cases s.socket) [
          | inl missing ↦ absurd (ground arith)
          | inr (old, was) ↦
              let made : k.handlers ≡ on e c old.handlers = ground arith in
              rw (made, times-on e c e' c' old.handlers)
                (one_more wanted e c e' c' _ new (h.bound old was e' c'))
        ];
      }

  unlisten-IsAligned :
      (e : String) (c : ℕ) (s : Service io) (wanted : Wanted io)
      → IsAligned io s wanted
      → IsAligned io (unlisten io e c s) (want io (unlistens e c) wanted)
  unfolding unlisten
  unlisten-IsAligned e c s wanted h = record {
    listed = λ e' c'.
        rw (occurrences-remove_listener e c e' c' s.listeners)
          (none_left wanted e c e' c' _ (h.listed e' c'));
    bound = λ k is e' c'. elim (Option-cases s.socket) [
      | inl missing ↦ absurd (ground arith)
      | inr (old, was) ↦
          let made : k.handlers ≡ off e c old.handlers = ground arith in
          rw (made, times-off e c e' c' old.handlers)
            (one_less wanted e c e' c' _ (h.bound old was e' c'))
    ];
  }

  link-IsAligned :
      (up : Bool) (s : Service io) (wanted : Wanted io)
      → IsAligned io s wanted
      → IsAligned io (link io up s) wanted
  unfolding link
  link-IsAligned up s wanted h = record {
    listed = h.listed;
    bound = λ k is e c. elim (Option-cases s.socket) [
      | inl missing ↦ absurd (ground arith)
      | inr (old, was) ↦
          let made : k.handlers ≡ old.handlers = ground arith in rw made (h.bound old was e c)
    ];
  }

  emit-IsAligned :
      (e : String) (value : Json) (s : Service io) (wanted : Wanted io)
      → IsAligned io s wanted
      → IsAligned io (emit io e value s) wanted
  unfolding emit
  emit-IsAligned e value s wanted h = elim (Bool-cases (is_connected io s.socket)) [
    | inl up ↦ rw up (record { listed = h.listed; bound = h.bound })
    | inr down ↦ rw down h
  ]

  operate-IsAligned :
      (o : Operation io) (s : Service io) (wanted : Wanted io)
      → IsNew io o wanted
      → IsAligned io s wanted
      → IsAligned io (operate io o s) (want io o wanted)
  unfolding operate
  operate-IsAligned (connects token workspace) s wanted new h =
      connect-IsAligned io token workspace s wanted h
  operate-IsAligned disconnects s wanted new h = record {
    listed = h.listed;
    bound = λ k is. absurd (ground arith);
  }
  operate-IsAligned (listens e c) s wanted new h = listen-IsAligned e c s wanted new h
  operate-IsAligned (unlistens e c) s wanted new h = unlisten-IsAligned e c s wanted h
  operate-IsAligned (emits e value) s wanted new h = emit-IsAligned e value s wanted h
  operate-IsAligned (links up) s wanted new h = link-IsAligned up s wanted h

  -- The service refines a plain set of callbacks, which a registration puts in and a removal takes
  -- out, and which connections do not touch: after any operations, connections made and lost in
  -- between included, in which no callback is registered while it is registered already, its
  -- listeners and its socket, if there is one, have exactly the callbacks of that set, each once.
  pub operate_all-IsAligned :
      (operations : List (Operation io)) (s : Service io) (wanted : Wanted io)
      → AreNew io operations wanted
      → IsAligned io s wanted
      → IsAligned io (operate_all io operations s) (want_all io operations wanted)
  unfolding operate_all
  operate_all-IsAligned [] s wanted new h = h
  operate_all-IsAligned (o ∷ rest) s wanted new h =
      operate_all-IsAligned rest (operate io o s) (want io o wanted) new.1
        (operate-IsAligned o s wanted new.0 h)

  -- A connection that is asked for while the socket of an earlier one is not connected yet lets go
  -- of that socket without closing it, and opens another: whoever has registered a callback has it
  -- on both, so that each event comes twice once both are connected.
  pub connect_doubles :
      (token : String) (workspace : Option String) (s : Service io) (wanted : Wanted io)
      (k : Socket io) (e : String) (c : ℕ)
      → IsAligned io s wanted
      → s.socket ≡ some k
      → k.connected ≡ false
      → wanted e c ≡ true
      → let s' = connect io token workspace s in
        (new : Socket io) × (s'.socket ≡ some new)
        × (s'.replaced ≡ k ∷ s.replaced)
        × (times e c k.handlers ≡ 1)
        × (times e c new.handlers ≡ 1)
  connect_doubles token workspace s wanted k e c h is down asked =
      let after = connect-IsAligned io token workspace s wanted h in
      let opened = open_socket io token workspace s in
      let same : connect io token workspace s ≡ opened = unfold connect in rw (is, down) refl in
      let new : Socket io = record {
        options = options_of io token workspace;
        connected = false;
        handlers = bind_all io s.listeners fresh;
      } in
      let now : (connect io token workspace s).socket ≡ some new =
        ap (λ (x : Service io). x.socket) same ∙ unfold open_socket in refl in
      (
        new,
        now,
        ap (λ (x : Service io). x.replaced) same ∙ unfold open_socket in rw is refl,
        h.bound k is e c ∙ ap flag asked,
        after.bound new now e c ∙ ap flag asked,
      )
