-- ===== src/Client/Sockets.antt =====
-- frontend/src/services/socket/socketService.ts: the one socket of the application, and the
-- listeners that it keeps across connections. A callback is a number, its identity.
pub mod Bound
pub mod Aligned
use task_scheduling_platform.Base.{
  ℕ, String, Bool, true, false, not, ◌&&◌, ◌||◌, ◌==◌, ◌+◌, ◌-◌, ◌≡◌, Option, none, some, List, [],
  ◌∷◌, ◌++◌, any, select, is_empty, str_eq, nonempty, if◌then◌else◌,
}
use task_scheduling_platform.Platform.Entities.{Json}
use task_scheduling_platform.Client.State.{has_text}

abbrev pub same : (event : String) (callback : ℕ) (event' : String) (callback' : ℕ) → Bool
same e c e' c' = str_eq e e' && c == c'

abbrev pub flag : Bool → ℕ
flag true = 1
flag false = 0

-- The handlers of a socket.io client: `on` binds a callback to an event once more, `off` once less.
pub record Emitter : Type 1 where
  pub Handlers : Type 0
  pub fresh : Handlers
  pub on : String → ℕ → Handlers → Handlers
  pub off : String → ℕ → Handlers → Handlers
  pub times : String → ℕ → Handlers → ℕ
  pub times-fresh : (e : String) (c : ℕ) → times e c fresh ≡ 0
  pub times-on :
      (e : String) (c : ℕ) (e' : String) (c' : ℕ) (h : Handlers)
      → times e' c' (on e c h) ≡ flag (same e c e' c') + times e' c' h
  pub times-off :
      (e : String) (c : ℕ) (e' : String) (c' : ℕ) (h : Handlers)
      → times e' c' (off e c h) ≡ times e' c' h - flag (same e c e' c')

-- The callbacks of each event, none of them empty. A Map has one entry for a key.
abbrev pub Listeners : Type 0
Listeners = List (String × List ℕ)

abbrev pub contains : ℕ → List ℕ → Bool
contains c cs = any (λ d. d == c) cs

-- `add` and `delete` of a Set
abbrev pub insert : ℕ → List ℕ → List ℕ
insert c cs = if contains c cs then cs else cs ++ c ∷ []

abbrev pub delete : ℕ → List ℕ → List ℕ
delete c cs = select (λ d. not (d == c)) cs

unfoldable pub add_listener : String → ℕ → Listeners → Listeners
add_listener e c [] = (e, c ∷ []) ∷ []
add_listener e c ((k, cs) ∷ rest) =
    if str_eq k e then (k, insert c cs) ∷ rest else (k, cs) ∷ add_listener e c rest

unfoldable pub remove_listener : String → ℕ → Listeners → Listeners
remove_listener e c [] = []
remove_listener e c ((k, cs) ∷ rest) =
    let others = remove_listener e c rest in
    if str_eq k e
    then if is_empty (delete c cs) then others else (k, delete c cs) ∷ others
    else (k, cs) ∷ others

-- The options of `io()` that go into the handshake; headers are added to those of the browser.
pub record IoOptions : Type 0 where
  pub auth : List (String × String)
  pub query : List (String × String)
  pub extra_headers : List (String × String)

-- The value under a name, in an object of texts.
abbrev pub entry_of : String → List (String × String) → Option String
entry_of name [] = none
entry_of name ((k, v) ∷ rest) =
    let found = entry_of name rest in if str_eq k name then some v else found

module _ (io : Emitter) where
  open io use {Handlers, fresh, on, off}

  -- What the socket is opened with, whether it is connected, and its handlers.
  pub record Socket : Type 0 where
    pub options : IoOptions
    pub connected : Bool
    pub handlers : Handlers

  -- `replaced` are the sockets that the service let go of without closing them.
  pub record Service : Type 0 where
    pub socket : Option Socket
    pub listeners : Listeners
    pub replaced : List Socket
    pub sent : List (String × Json)

  abbrev pub idle_service : Service
  idle_service = record { socket = none; listeners = []; replaced = []; sent = [] }

  abbrev pub bind_callbacks : String → List ℕ → Handlers → Handlers
  bind_callbacks e [] h = h
  bind_callbacks e (c ∷ cs) h = bind_callbacks e cs (on e c h)

  abbrev pub bind_all : Listeners → Handlers → Handlers
  bind_all [] h = h
  bind_all ((e, cs) ∷ rest) h = bind_all rest (bind_callbacks e cs h)

  abbrev pub held : Option Socket → List Socket → List Socket
  held none sockets = sockets
  held (some k) sockets = k ∷ sockets

  -- `workspaceId ? { workspaceId } : {}`
  abbrev pub query_of : Option String → List (String × String)
  query_of none = []
  query_of (some w) = if nonempty w then ("workspaceId", w) ∷ [] else []

  abbrev pub options_of : String → Option String → IoOptions
  options_of token workspace = record {
    auth = ("token", token) ∷ [];
    query = query_of workspace;
    extra_headers = [];
  }

  unfoldable pub open_socket : String → Option String → Service → Service
  open_socket token workspace s = record s {
    socket = some (record {
      options = options_of token workspace;
      connected = false;
      handlers = bind_all s.listeners fresh;
    });
    replaced = held s.socket s.replaced;
  }

  unfoldable pub disconnect : Service → Service
  disconnect s = record s { socket = none }

  abbrev pub is_connected : Option Socket → Bool
  is_connected none = false
  is_connected (some k) = k.connected

  -- `query.workspaceId !== workspaceId`, where a workspace that is null is never the one of the query
  abbrev pub differs : Option String → Option String → Bool
  differs (some a) (some b) = not (str_eq a b)
  differs _ _ = true

  abbrev pub workspace_of : Option Socket → Option String
  workspace_of none = none
  workspace_of (some k) = entry_of "workspaceId" k.options.query

  unfoldable pub connect : String → Option String → Service → Service
  unfolding open_socket disconnect
  connect token workspace s =
      if is_connected s.socket
      then if differs (workspace_of s.socket) workspace
        then open_socket token workspace (disconnect s)
        else s
      else open_socket token workspace s

  abbrev pub with_handlers : (Handlers → Handlers) → Option Socket → Option Socket
  with_handlers f none = none
  with_handlers f (some k) = some (record k { handlers = f k.handlers })

  unfoldable pub listen : String → ℕ → Service → Service
  listen e c s = record s {
    listeners = add_listener e c s.listeners;
    socket = with_handlers (on e c) s.socket;
  }

  unfoldable pub unlisten : String → ℕ → Service → Service
  unlisten e c s = record s {
    listeners = remove_listener e c s.listeners;
    socket = with_handlers (off e c) s.socket;
  }

  unfoldable pub emit : String → Json → Service → Service
  emit e value s = if is_connected s.socket then record s { sent = (e, value) ∷ s.sent } else s

  abbrev pub with_link : Bool → Option Socket → Option Socket
  with_link up none = none
  with_link up (some k) = some (record k { connected = up })

  -- The network opens or loses the connection of the socket.
  unfoldable pub link : Bool → Service → Service
  link up s = record s { socket = with_link up s.socket }

  pub data Operation : Type 0 where
    connects : (token : String) (workspace : Option String) → Operation
    disconnects : Operation
    listens unlistens : String → ℕ → Operation
    emits : String → Json → Operation
    links : Bool → Operation

  unfoldable pub operate : Operation → Service → Service
  unfolding connect disconnect listen unlisten emit link
  operate (connects token workspace) s = connect token workspace s
  operate disconnects s = disconnect s
  operate (listens e c) s = listen e c s
  operate (unlistens e c) s = unlisten e c s
  operate (emits e value) s = emit e value s
  operate (links up) s = link up s

  unfoldable pub operate_all : List Operation → Service → Service
  operate_all [] s = s
  operate_all (o ∷ rest) s = operate_all rest (operate o s)
