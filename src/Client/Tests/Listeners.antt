-- ===== src/Client/Tests/Listeners.antt =====
-- Listeners and the gateway at concrete inputs.
use task_scheduling_platform.Base.{
  ℕ, String, true, false, ◌+◌, ◌-◌, ◌≡◌, refl, some, List, [], ◌∷◌, Elem, inl, inr, eq_iff,
  if◌then◌else◌, arith, Bool-cases,
}
use task_scheduling_platform.Platform.Io.{user_room}
use task_scheduling_platform.Realtime.Sockets.{handle_connection}
use task_scheduling_platform.Realtime.Rooms.{new_socket, connected}
use task_scheduling_platform.Client.Sockets.{
  same, flag, Emitter, Socket, idle_service, Operation, connects, listens, unlistens, links,
  operate_all, options_of, operate, connect, open_socket, link,
}
use task_scheduling_platform.Client.Sockets.Bound.{want_all, IsAligned}
use task_scheduling_platform.Client.Sockets.Aligned.{operate_all-IsAligned}
use task_scheduling_platform.Client.Events.{handshake_of, operate_all-NoRooms}
use task_scheduling_platform.Sample.World.{sample}

-- Handlers as a list, of which `off` removes the first that fits.
abbrev times : String → ℕ → List (String × ℕ) → ℕ
times e c [] = 0
times e c ((k, d) ∷ rest) = flag (same k d e c) + times e c rest

abbrev off : String → ℕ → List (String × ℕ) → List (String × ℕ)
off e c [] = []
off e c ((k, d) ∷ rest) = if same e c k d then rest else (k, d) ∷ off e c rest

same_ap :
    (e k : String) (c d : ℕ)
    → e ≡ k
    → c ≡ d
    → (e' : String) (c' : ℕ) → same e c e' c' ≡ same k d e' c'
same_ap e k c d p q e' c' = rw (p, q) refl

-- A handler that stays in front is not the one that is taken out.
front_stays :
    (e : String) (c : ℕ) (e' : String) (c' : ℕ) (k : String) (d n : ℕ)
    → same e c k d ≡ false
    → flag (same k d e' c') + (n - flag (same e c e' c'))
      ≡ flag (same k d e' c') + n - flag (same e c e' c')
front_stays e c e' c' k d n other = ground (arith, eq_iff k e', eq_iff e e', eq_iff e k)

times-off :
    (e : String) (c : ℕ) (e' : String) (c' : ℕ) (h : List (String × ℕ))
    → times e' c' (off e c h) ≡ times e' c' h - flag (same e c e' c')
times-off e c e' c' [] = omega arith
times-off e c e' c' ((k, d) ∷ rest) = elim (Bool-cases (same e c k d)) [
  | inl this ↦
      let events : e ≡ k = (eq_iff e k).0 (ground arith) in
      let callbacks : c ≡ d = ground arith in
      let one : same e c e' c' ≡ same k d e' c' = same_ap e k c d events callbacks e' c' in
      rw (this, one) (omega arith)
  | inr other ↦
      rw (other, times-off e c e' c' rest) (front_stays e c e' c' k d (times e' c' rest) other)
]

abbrev emitter : Emitter
emitter = record {
  Handlers = List (String × ℕ);
  fresh = [];
  on = λ e c h. (e, c) ∷ h;
  off = off;
  times = times;
  times-fresh = λ e c. refl;
  times-on = λ e c e' c' h. refl;
  times-off = times-off;
}

abbrev session : List (Operation emitter)
session =
    listens "task.created" 1
    ∷ connects "t1" (some "5")
    ∷ links true
    ∷ listens "task.updated" 2
    ∷ connects "t1" (some "6")
    ∷ unlistens "task.created" 1
    ∷ []

operate_all-IsAligned_example :
    IsAligned emitter
      (operate_all emitter session (idle_service emitter))
      (want_all emitter session (λ e c. false))
operate_all-IsAligned_example =
    operate_all-IsAligned emitter session (idle_service emitter) (λ e c. false)
      (refl, (tt, (tt, (refl, (tt, (tt, tt))))))
      (record { listed = λ e c. refl; bound = λ k is. absurd (cc is) })

abbrev a_socket : Socket emitter
a_socket = record { options = options_of emitter "t1" (some "5"); connected = true; handlers = [] }

abbrev opening : List (Operation emitter)
opening = connects "t1" (some "5") ∷ links true ∷ []

opens : (operate_all emitter opening (idle_service emitter)).socket ≡ some a_socket
unfolding operate_all operate connect open_socket link
opens = refl

operate_all-NoRooms_example :
    ¬ Elem
      (user_room 1)
      (handle_connection sample 50 (new_socket (handshake_of emitter a_socket))).rooms
operate_all-NoRooms_example =
    operate_all-NoRooms emitter sample opening a_socket
      (handle_connection sample 50 (new_socket (handshake_of emitter a_socket))) (user_room 1) opens
      (connected 50)
