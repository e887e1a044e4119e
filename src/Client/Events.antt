-- ===== src/Client/Events.antt =====
-- frontend/src/hooks/useSocket.ts: the callbacks of the application's events, and what the gateway
-- (src/modules/realtime/realtime.gateway.ts) makes of the client's connection.
use task_scheduling_platform.Base.{
  ℕ, String, Bool, true, false, ◌||◌, ◌+◌, ◌<◌, ◌≡◌, refl, Option, none, some, List, [], ◌∷◌,
  str_eq, if◌then◌else◌, all, ltb, arith, Bool-cases, inl, inr, sym, Elem, subst, ◌∙◌, ◌==◌,
}
use Prim.Native.Char.{code}
use task_scheduling_platform.Platform.Io.{Room}
use task_scheduling_platform.Platform.Drivers.{Platform}
use task_scheduling_platform.Realtime.Sockets as Gateway
use task_scheduling_platform.Realtime.Sockets.{Handshake, extract_token}
use task_scheduling_platform.Realtime.Rooms.{Reached, Reached-IsVerified}
use task_scheduling_platform.Client.Endpoints.{
  Tag, TagType, task, dashboard, comment, notification, workspace, project,
}
use task_scheduling_platform.Client.Sockets.{
  same, Emitter, Socket, Service, idle_service, entry_of, query_of, open_socket, with_handlers,
  with_link, is_connected, differs, workspace_of, operate, operate_all, connect, disconnect, listen,
  unlisten, emit, link, emits, links, Operation, connects, disconnects, listens, unlistens,
}
use task_scheduling_platform.Client.Sockets.Bound.{Wanted, want, want_all, AreNew}

abbrev whole : TagType → Tag
whole type = record { type = type; id = none }

-- The events of the hook, each with the number of its callback after that of the first.
abbrev pub heard : List (String × ℕ)
heard =
    ("task.created", 0)
    ∷ ("task.updated", 1)
    ∷ ("task.deleted", 2)
    ∷ ("comment.created", 3)
    ∷ ("notification.created", 4)
    ∷ ("workspace.updated", 5)
    ∷ ("project.updated", 6)
    ∷ []

-- The tags that the callback of an event invalidates; `id` is that of the task that it carries.
unfoldable pub tags_of : String → (id : String) → List Tag
tags_of event id =
    if str_eq event "task.created"
    then whole task ∷ whole dashboard ∷ []
    else if str_eq event "task.updated"
    then whole task ∷ whole dashboard ∷ record { type = task; id = some id } ∷ []
    else if str_eq event "task.deleted"
    then whole task ∷ whole dashboard ∷ []
    else if str_eq event "comment.created"
    then whole comment ∷ []
    else if str_eq event "notification.created"
    then whole notification ∷ []
    else if str_eq event "workspace.updated"
    then whole workspace ∷ []
    else if str_eq event "project.updated"
    then whole project ∷ []
    else []

-- `authorization.substring(7)` where the header starts with `Bearer `
abbrev after_prefix : String → String → Option String
after_prefix String.[] s = some s
after_prefix (String.◌∷◌ c part) String.[] = none
after_prefix (String.◌∷◌ c part) (String.◌∷◌ d s) =
    let rest = after_prefix part s in if code c == code d then rest else none

abbrev after_bearer : Option String → Option String
after_bearer none = none
after_bearer (some header) = after_prefix "Bearer " header

module _ (io : Emitter) where
  -- The first effect: what the service is told when the token or the workspace changes.
  unfoldable pub sync_connection : (token active : Option String) → List (Operation io)
  sync_connection none active = disconnects ∷ []
  sync_connection (some token) active =
      if str_eq token "" then disconnects ∷ [] else connects token active ∷ []

  abbrev pub each : (String → ℕ → Operation io) → ℕ → List (String × ℕ) → List (Operation io)
  each op base [] = []
  each op base ((e, n) ∷ rest) = op e (base + n) ∷ each op base rest

  -- The second effect and its cleanup. The callbacks are new closures in each run of the effect,
  -- numbered from `base`.
  unfoldable pub mount : ℕ → List (Operation io)
  mount base = each listens base heard

  unfoldable pub unmount : ℕ → List (Operation io)
  unmount base = each unlistens base heard

  -- No callback of the run that is numbered from `base` is registered.
  abbrev pub IsFresh : ℕ → Wanted io → Type 0
  IsFresh base wanted = (e : String) (n : ℕ) → n < 7 → wanted e (base + n) ≡ false

  abbrev is_of : ℕ → List (String × ℕ) → String → ℕ → Bool
  is_of base [] e c = false
  is_of base ((k, n) ∷ rest) e c = same k (base + n) e c || is_of base rest e c

  want-each-listens :
      (base : ℕ) (hs : List (String × ℕ)) (wanted : Wanted io) (e : String) (c : ℕ)
      → want_all io (each listens base hs) wanted e c
        ≡ (if is_of base hs e c then true else wanted e c)
  want-each-listens base [] wanted e c = refl
  want-each-listens base ((k, n) ∷ rest) wanted e c =
      rw (want-each-listens base rest (want io (listens k (base + n)) wanted) e c)
        (elim (Bool-cases (is_of base rest e c)) [
          | inl later ↦ rw later (elim (Bool-cases (same k (base + n) e c)) [
            | inl here ↦ rw here refl
            | inr there ↦ rw there refl
          ])
          | inr never ↦ rw never (elim (Bool-cases (same k (base + n) e c)) [
            | inl here ↦ rw here refl
            | inr there ↦ rw there refl
          ])
        ])

  want-each-unlistens :
      (base : ℕ) (hs : List (String × ℕ)) (wanted : Wanted io) (e : String) (c : ℕ)
      → want_all io (each unlistens base hs) wanted e c
        ≡ (if is_of base hs e c then false else wanted e c)
  want-each-unlistens base [] wanted e c = refl
  want-each-unlistens base ((k, n) ∷ rest) wanted e c =
      rw (want-each-unlistens base rest (want io (unlistens k (base + n)) wanted) e c)
        (elim (Bool-cases (is_of base rest e c)) [
          | inl later ↦ rw later (elim (Bool-cases (same k (base + n) e c)) [
            | inl here ↦ rw here refl
            | inr there ↦ rw there refl
          ])
          | inr never ↦ rw never (elim (Bool-cases (same k (base + n) e c)) [
            | inl here ↦ rw here refl
            | inr there ↦ rw there refl
          ])
        ])

  number_of :
      (base : ℕ) (hs : List (String × ℕ)) (e : String) (c : ℕ)
      → all (λ h. ltb h.1 7) hs ≡ true
      → is_of base hs e c ≡ true
      → (n : ℕ) × (n < 7) × (c ≡ base + n)
  number_of base [] e c small h = cc
  number_of base ((k, n) ∷ rest) e c small h = elim (Bool-cases (same k (base + n) e c)) [
    | inl here ↦ (n, ground arith, ground arith)
    | inr there ↦ number_of base rest e c (ground arith) (ground arith)
  ]

  -- A run of the effect registers callbacks that are new, and its cleanup removes exactly these:
  -- whatever else is registered, it is registered afterwards and nothing more.
  pub mount-unmount :
      (base : ℕ) (wanted : Wanted io)
      → IsFresh base wanted
      → AreNew io (mount base) wanted
        × ((e : String) (c : ℕ)
            → want_all io (unmount base) (want_all io (mount base) wanted) e c ≡ wanted e c)
  unfolding mount unmount
  mount-unmount base wanted fresh = (
    (
      fresh _ 0 (omega arith),
      (
        fresh _ 1 (omega arith),
        (
          fresh _ 2 (omega arith),
          (
            fresh _ 3 (omega arith),
            (fresh _ 4 (omega arith), (fresh _ 5 (omega arith), (fresh _ 6 (omega arith), tt))),
          ),
        ),
      ),
    ),
    λ e c.
        rw
          (
            want-each-unlistens base heard (want_all io (each listens base heard) wanted) e c,
            want-each-listens base heard wanted e c,
          )
          (elim (Bool-cases (is_of base heard e c)) [
            | inl mine ↦
                let (n, small, is) = number_of base heard e c refl mine in
                rw (mine, is) (sym (fresh e n small))
            | inr other ↦ rw other refl
          ]),
  )

  -- The handshake that the gateway reads: the authorization header and the token of the query. What
  -- stands in `auth` it does not read.
  abbrev pub handshake_of : Socket io → Handshake
  handshake_of k = record {
    bearer = after_bearer (entry_of "authorization" k.options.extra_headers);
    query_token = entry_of "token" k.options.query;
  }

  -- The socket sends no token where the gateway reads one.
  abbrev SendsNone : Option (Socket io) → Type 0
  SendsNone none = Unit {0}
  SendsNone (some k) =
      (entry_of "authorization" k.options.extra_headers ≡ none)
      × (entry_of "token" k.options.query ≡ none)

  query_of-entry_of : (ws : Option String) → entry_of "token" (query_of io ws) ≡ none
  query_of-entry_of none = refl
  query_of-entry_of (some w) = ground arith

  open_socket-SendsNone :
      (token : String) (ws : Option String) (s : Service io)
      → SendsNone (open_socket io token ws s).socket
  unfolding open_socket
  open_socket-SendsNone token ws s = (refl, query_of-entry_of ws)

  with_handlers-SendsNone :
      (f : io.Handlers → io.Handlers) (o : Option (Socket io))
      → SendsNone o
      → SendsNone (with_handlers io f o)
  with_handlers-SendsNone f none h = h
  with_handlers-SendsNone f (some k) h = h

  with_link-SendsNone :
      (up : Bool) (o : Option (Socket io)) → SendsNone o → SendsNone (with_link io up o)
  with_link-SendsNone up none h = h
  with_link-SendsNone up (some k) h = h

  operate-SendsNone :
      (op : Operation io) (s : Service io) → SendsNone s.socket → SendsNone (operate io op s).socket
  unfolding operate connect disconnect listen unlisten emit link
  operate-SendsNone (connects token ws) s h = elim (Bool-cases (is_connected io s.socket)) [
    | inl up ↦ rw up (elim (Bool-cases (differs io (workspace_of io s.socket) ws)) [
      | inl other ↦ rw other (open_socket-SendsNone token ws (disconnect io s))
      | inr kept ↦ rw kept h
    ])
    | inr down ↦ rw down (open_socket-SendsNone token ws s)
  ]
  operate-SendsNone disconnects s h = tt
  operate-SendsNone (listens e c) s h = with_handlers-SendsNone _ s.socket h
  operate-SendsNone (unlistens e c) s h = with_handlers-SendsNone _ s.socket h
  operate-SendsNone (emits e value) s h = elim (Bool-cases (is_connected io s.socket)) [
    | inl up ↦ rw up h
    | inr down ↦ rw down h
  ]
  operate-SendsNone (links up) s h = with_link-SendsNone up s.socket h

  operate_all-SendsNone :
      (ops : List (Operation io)) (s : Service io)
      → SendsNone s.socket
      → SendsNone (operate_all io ops s).socket
  unfolding operate_all
  operate_all-SendsNone [] s h = h
  operate_all-SendsNone (op ∷ ops) s h =
      operate_all-SendsNone ops (operate io op s) (operate-SendsNone op s h)

-- Whatever the application does with its socket service, in any order, the socket that it has is
-- refused by the gateway: whatever messages it sends, the gateway has it in no room at all, so that
-- no event of a task, a comment or a notification is sent to it.
pub operate_all-NoRooms :
    (io : Emitter) (p : Platform) (ops : List (Operation io)) (k : Socket io) (s : Gateway.Socket)
    (room : Room)
    → (operate_all io ops (idle_service io)).socket ≡ some k
    → Reached p (handshake_of io k) s
    → ¬ Elem room s.rooms
operate_all-NoRooms io p ops k s room is reached listed =
    let (header, query) =
      subst (SendsNone io) is (operate_all-SendsNone io ops (idle_service io) tt) in
    let (c, _, (token, now, found, verified), own) =
      Reached-IsVerified p (handshake_of io k) s reached room listed in
    let none_there : extract_token (handshake_of io k) ≡ none = rw (header, query) refl in
    absurd (cc (sym none_there ∙ found))
