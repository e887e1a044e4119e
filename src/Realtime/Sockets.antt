-- ===== src/Realtime/Sockets.antt =====
-- The handlers of the gateway: `handleConnection`, `handleJoinWorkspace` and `handleLeaveWorkspace`.
-- They change the socket alone; `now` is the clock when a handler runs.
use task_scheduling_platform.Base.{
  ℕ, String, Bool, false, Option, none, some, List, [], ◌∷◌, ◌==◌, not, select, truthy, nonempty,
  if◌then◌else◌,
}
use task_scheduling_platform.Platform.Io.{Room, workspace_room, user_room, Result, ok, err}
use task_scheduling_platform.Platform.Drivers.{Platform, Claims}

-- `bearer` is the text after `Bearer ` where the header starts with that.
pub record Handshake : Type 0 where
  pub bearer : Option String
  pub query_token : Option String

pub record Socket : Type 0 where
  pub handshake : Handshake
  pub user : Option Claims
  pub rooms : List Room
  pub connected : Bool

abbrev pub room_eq : Room → Room → Bool
room_eq (workspace_room a) (workspace_room b) = a == b
room_eq (user_room a) (user_room b) = a == b
room_eq _ _ = false

-- A socket that disconnects leaves its rooms.
abbrev pub disconnect : Socket → Socket
disconnect s = record s { rooms = []; connected = false }

abbrev pub join : Room → Socket → Socket
join room s = record s { rooms = room ∷ s.rooms }

abbrev pub leave : Room → Socket → Socket
leave room s = record s { rooms = select (λ r. not (room_eq r room)) s.rooms }

-- An empty token counts as missing.
abbrev pub extract_token : Handshake → Option String
extract_token h = elim h.bearer [
  | some token ↦ if nonempty token then some token else none
  | none ↦ elim h.query_token [
    | some token ↦ if nonempty token then some token else none
    | none ↦ none
  ]
]

abbrev pub has_user : Option Claims → Bool
has_user none = false
has_user (some c) = truthy c.user_id

module _ (p : Platform) where
  abbrev pub verify_access : String → (now : ℕ) → Result Claims
  verify_access token now = p.jwt.verify p.config.access_secret token now

  -- What is done with the answer of `verifyAsync`.
  abbrev pub welcome : Result Claims → Socket → Socket
  welcome (ok c) s = join (user_room c.user_id) (record s { user = some c })
  welcome (err _) s = disconnect s

  abbrev pub greet : Option String → (now : ℕ) → Socket → Socket
  greet none now s = disconnect s
  greet (some token) now s = welcome (verify_access token now) s

  unfoldable pub handle_connection : (now : ℕ) → Socket → Socket
  handle_connection now s = greet (extract_token s.handshake) now s

unfoldable pub handle_join_workspace : (workspace_id : ℕ) → Socket → Socket
handle_join_workspace workspace_id s =
    if truthy workspace_id
    then if has_user s.user then join (workspace_room workspace_id) s else disconnect s
    else s

unfoldable pub handle_leave_workspace : (workspace_id : ℕ) → Socket → Socket
handle_leave_workspace workspace_id s =
    if truthy workspace_id then leave (workspace_room workspace_id) s else s
