-- ===== src/Client/Sockets/Bound.antt =====
-- Which callbacks the socket of the service has.
use task_scheduling_platform.Base.{
  ℕ, String, Bool, true, false, ◌==◌, ◌+◌, ◌≡◌, refl, Option, some, List, [], ◌∷◌, ◌++◌, is_empty,
  str_eq, eq_iff, if◌then◌else◌, arith, Bool-cases, inl, inr, ap,
}
use task_scheduling_platform.Client.Sockets.{
  same, flag, Emitter, Listeners, contains, insert, delete, add_listener, remove_listener, Socket,
  Service, bind_callbacks, bind_all, open_socket, disconnect, connect, is_connected, differs,
  workspace_of, Operation, listens, unlistens,
}

abbrev count : ℕ → List ℕ → ℕ
count c [] = 0
count c (d ∷ cs) = flag (d == c) + count c cs

-- How often a callback stands under an event.
abbrev pub occurrences : String → ℕ → Listeners → ℕ
occurrences e c [] = 0
occurrences e c ((k, cs) ∷ rest) = (if str_eq k e then count c cs else 0) + occurrences e c rest

count-append : (c : ℕ) (cs ds : List ℕ) → count c (cs ++ ds) ≡ count c cs + count c ds
count-append c [] ds = omega arith
count-append c (d ∷ cs) ds = omega (arith, count-append c cs ds)

contains_of_count : (c : ℕ) (cs : List ℕ) → count c cs ≡ 0 → contains c cs ≡ false
contains_of_count c [] h = refl
contains_of_count c (d ∷ cs) h = ground (arith, contains_of_count c cs)

count-insert :
    (c d : ℕ) (cs : List ℕ) → count c cs ≡ 0 → count d (insert c cs) ≡ flag (c == d) + count d cs
count-insert c d cs h = rw (contains_of_count c cs h) (omega (arith, count-append d cs (c ∷ [])))

count-delete : (c d : ℕ) (cs : List ℕ) → count d (delete c cs) ≡ (if c == d then 0 else count d cs)
count-delete c d [] = ground arith
count-delete c d (e ∷ cs) = ground (arith, count-delete c d cs)

count-empty : (d : ℕ) (cs : List ℕ) → is_empty cs ≡ true → count d cs ≡ 0
count-empty d [] h = refl
count-empty d (e ∷ cs) h = cc

pub occurrences-add_listener :
    (e : String) (c : ℕ) (e' : String) (c' : ℕ) (m : Listeners)
    → occurrences e c m ≡ 0
    → occurrences e' c' (add_listener e c m) ≡ flag (same e c e' c') + occurrences e' c' m
unfolding add_listener
occurrences-add_listener e c e' c' [] h = ground arith
occurrences-add_listener e c e' c' ((k, cs) ∷ rest) h = elim (Bool-cases (str_eq k e)) [
  | inl here ↦ ground (arith, eq_iff k e, count-insert c c' cs)
  | inr there ↦ rw there (ground (arith, occurrences-add_listener e c e' c' rest))
]

pub occurrences-remove_listener :
    (e : String) (c : ℕ) (e' : String) (c' : ℕ) (m : Listeners)
    → occurrences e' c' (remove_listener e c m)
      ≡ (if same e c e' c' then 0 else occurrences e' c' m)
unfolding remove_listener
occurrences-remove_listener e c e' c' [] = ground arith
occurrences-remove_listener e c e' c' ((k, cs) ∷ rest) = elim (Bool-cases (str_eq k e)) [
  | inl here ↦
      let one : k ≡ e = (eq_iff k e).0 here in
      let moved : str_eq k e' ≡ str_eq e e' = ap (λ x. str_eq x e') one in
      rw here (elim (Bool-cases (is_empty (delete c cs))) [
        | inl gone ↦
            rw (gone, moved)
              (ground (
                arith,
                count-empty c' (delete c cs) gone,
                count-delete c c' cs,
                occurrences-remove_listener e c e' c' rest,
              ))
        | inr kept ↦
            rw (kept, moved)
              (ground (arith, count-delete c c' cs, occurrences-remove_listener e c e' c' rest))
      ])
  | inr there ↦ rw there (
      ground
        (arith, eq_iff k e, eq_iff e e', eq_iff k e', occurrences-remove_listener e c e' c' rest))
]

module _ (io : Emitter) where
  open io use {Handlers, fresh, on, off, times, times-fresh, times-on, times-off}

  times-bind_callbacks :
      (e : String) (cs : List ℕ) (e' : String) (c' : ℕ) (h : Handlers)
      → times e' c' (bind_callbacks io e cs h)
        ≡ (if str_eq e e' then count c' cs else 0) + times e' c' h
  times-bind_callbacks e [] e' c' h = ground arith
  times-bind_callbacks e (c ∷ cs) e' c' h =
      ground (arith, times-bind_callbacks e cs e' c' (on e c h), times-on e c e' c' h)

  times-bind_all :
      (m : Listeners) (e' : String) (c' : ℕ) (h : Handlers)
      → times e' c' (bind_all io m h) ≡ occurrences e' c' m + times e' c' h
  times-bind_all [] e' c' h = omega arith
  times-bind_all ((e, cs) ∷ rest) e' c' h = omega (
    arith,
    times-bind_all rest e' c' (bind_callbacks io e cs h),
    times-bind_callbacks e cs e' c' h,
  )

  -- The callbacks that the operations ask for, whatever happens to the connection: those whose last
  -- operation registers them.
  abbrev pub Wanted : Type 0
  Wanted = String → ℕ → Bool

  abbrev pub want : Operation io → Wanted → Wanted
  want (listens e c) wanted e' c' = if same e c e' c' then true else wanted e' c'
  want (unlistens e c) wanted e' c' = if same e c e' c' then false else wanted e' c'
  want _ wanted e' c' = wanted e' c'

  abbrev pub want_all : List (Operation io) → Wanted → Wanted
  want_all [] wanted = wanted
  want_all (o ∷ rest) wanted = want_all rest (want o wanted)

  -- No callback is registered while it is registered already.
  abbrev pub IsNew : Operation io → Wanted → Type 0
  IsNew (listens e c) wanted = wanted e c ≡ false
  IsNew _ wanted = Unit {0}

  abbrev pub AreNew : List (Operation io) → Wanted → Type 0
  AreNew [] wanted = Unit {0}
  AreNew (o ∷ rest) wanted = IsNew o wanted × AreNew rest (want o wanted)

  pub record IsAligned (s : Service io) (wanted : Wanted) : Type 0 where
    pub listed : (e : String) (c : ℕ) → occurrences e c s.listeners ≡ flag (wanted e c)
    pub bound :
        (k : Socket io)
        → s.socket ≡ some k
        → (e : String) (c : ℕ) → times e c k.handlers ≡ flag (wanted e c)

  open_socket-IsAligned :
      (token : String) (workspace : Option String) (s : Service io) (wanted : Wanted)
      → ((e : String) (c : ℕ) → occurrences e c s.listeners ≡ flag (wanted e c))
      → IsAligned (open_socket io token workspace s) wanted
  unfolding open_socket
  open_socket-IsAligned token workspace s wanted h = record {
    listed = h;
    bound = λ k opened e c.
        let made : k.handlers ≡ bind_all io s.listeners fresh = ground arith in
        rw made (omega (arith, times-bind_all s.listeners e c fresh, times-fresh e c, h e c));
  }

  pub connect-IsAligned :
      (token : String) (workspace : Option String) (s : Service io) (wanted : Wanted)
      → IsAligned s wanted
      → IsAligned (connect io token workspace s) wanted
  unfolding connect
  connect-IsAligned token workspace s wanted h = elim (Bool-cases (is_connected io s.socket)) [
    | inl up ↦ rw up (elim (Bool-cases (differs io (workspace_of io s.socket) workspace)) [
      | inl other ↦
          rw other (open_socket-IsAligned token workspace (disconnect io s) wanted h.listed)
      | inr one ↦ rw one h
    ])
    | inr down ↦ rw down (open_socket-IsAligned token workspace s wanted h.listed)
  ]
