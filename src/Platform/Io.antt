-- ===== src/Platform/Io.antt =====
-- The running server: its errors, its state, and the effects of an async method. A method takes
-- the state and returns a result with the state that it leaves, which a thrown error does not undo.
use task_scheduling_platform.Base.{
  ℕ, String, Bool, true, false, Option, none, some, List, [], ◌∷◌, ◌&&◌, ◌==◌, str_eq,
  if◌then◌else◌, ◌≡◌, refl, ◌⊎◌, inl, inr,
}
use task_scheduling_platform.Platform.Entities.{
  User, UserSession, Workspace, WorkspaceMember, Project, Task, Comment, Notification, Reminder,
  Activity, AuditLog, Json,
}

-- The exceptions of NestJS that the code throws, with their messages. `lock_mismatch` is TypeORM's
-- OptimisticLockVersionMismatchError, and `failure` any other error of a driver.
pub data Error : Type 0 where
  not_found conflict unauthorized forbidden bad_request failure : String → Error
  lock_mismatch : Error

pub data Result (A : Type 0) : Type 0 where
  ok : A → Result A
  err : Error → Result A

pub Result-cases :
    {A : Type 0} (r : Result A) → ((a : A) × (r ≡ ok a)) ⊎ ((e : Error) × (r ≡ err e))
Result-cases (ok a) = inl (a, refl)
Result-cases (err e) = inr (e, refl)

-- A page of `getTasks`.
pub record TaskPage : Type 0 where
  pub items : List Task
  pub total : ℕ
  pub page : ℕ
  pub limit : ℕ
  pub total_pages : ℕ

-- What the services keep in Redis. JSON text and back is the identity here.
pub data Cached : Type 0 where
  task : Task → Cached
  task_page : TaskPage → Cached
  workspace : Workspace → Cached
  projects : List Project → Cached

-- A cache key is the list of its parts between colons: `task:id:7` is `task`, `id`, 7.
pub data Part : Type 0 where
  word : String → Part
  number : ℕ → Part

abbrev pub Key : Type 0
Key = List Part

abbrev pub part_eq : Part → Part → Bool
part_eq (word s) (word t) = str_eq s t
part_eq (number m) (number n) = m == n
part_eq _ _ = false

unfoldable pub key_eq : Key → Key → Bool
key_eq [] [] = true
key_eq (a ∷ k) (b ∷ l) = part_eq a b && key_eq k l
key_eq _ _ = false

-- What Redis holds: the entry of a key is the first one under it.
abbrev pub Store : Type 0
Store = List (Key × Cached)

unfoldable pub cached : Store → Key → Option Cached
unfolding key_eq
cached [] key = none
cached ((k, v) ∷ c) key = if key_eq k key then some v else cached c key

-- The jobs that the code hands to BullMQ: one constructor for each queue and job name.
pub data JobBody : Type 0 where
  log_action : (action : String) (user_id : Option ℕ) (payload : Json) → JobBody
  log_activity :
      (workspace_id : ℕ) (entity_type : String) (entity_id : ℕ) (action : String) (performed_by : ℕ)
      → JobBody
  send_push : (notification_id user_id : ℕ) (type title message : String) → JobBody
  send_email : (user_id : ℕ) (subject text : String) → JobBody
  send_verification : (email name code : String) → JobBody
  send_password_reset : (email code : String) → JobBody
  process_reminder :
      (reminder_id task_id : ℕ) (user_id : Option ℕ) (milestone : String) (due_date : Option ℕ)
      → JobBody

-- `attempts` and the delay of an exponential backoff.
pub record JobOptions : Type 0 where
  pub attempts : ℕ
  pub delay : ℕ

pub record Job : Type 0 where
  pub body : JobBody
  pub options : Option JobOptions

-- The rooms of the socket server, `workspace_<id>` and `user_<id>`.
pub data Room : Type 0 where
  workspace_room user_room : ℕ → Room

pub record MemberInfo : Type 0 where
  pub workspace_id : ℕ
  pub role : String
  pub user_id : ℕ
  pub name : String
  pub email : String
  pub avatar : Option String

pub data Message : Type 0 where
  task_message : Task → Message
  task_deleted : (id : ℕ) (status : String) (deleted_at : ℕ) → Message
  notification_message : Notification → Message
  comment_message : Option Comment → Message
  member_message : MemberInfo → Message

pub record Emission : Type 0 where
  pub room : Room
  pub event : String
  pub message : Message

-- The rows of each table, what Redis holds, the jobs enqueued and the events emitted
-- so far (oldest first), the clock, and how much randomness has been drawn.
pub record World : Type 0 where
  pub users : List User
  pub sessions : List UserSession
  pub workspaces : List Workspace
  pub members : List WorkspaceMember
  pub projects : List Project
  pub tasks : List Task
  pub comments : List Comment
  pub notifications : List Notification
  pub reminders : List Reminder
  pub activities : List Activity
  pub audit_logs : List AuditLog
  pub cache : Store
  pub jobs : List Job
  pub emitted : List Emission
  pub now : ℕ
  pub drawn : ℕ

abbrev pub Io : Type 0 → Type 0
Io A = World → Result A × World

module _ {A : Type 0} where
  abbrev pub pure : A → Io A
  pure a w = (ok a, w)

  abbrev pub throw : Error → Io A
  throw e w = (err e, w)

  -- What a driver call on the state answers.
  abbrev pub reads : (World → Result A) → Io A
  reads f w = (f w, w)

  abbrev pub asks : (World → A) → Io A
  asks f w = (ok (f w), w)

  -- A driver call that answers and leaves a new state, or rejects and leaves the state alone.
  abbrev pub commits : {B : Type 0} → (World → Result (A × B)) → (B → World → World) → Io A
  commits f store w = elim (f w) [ ok (a, b) ↦ (ok a, store b w) | err e ↦ (err e, w) ]

  -- The same with no answer.
  abbrev pub writes : (World → Result A) → (A → World → World) → Io (Unit {0})
  writes f store w = elim (f w) [ ok a ↦ (ok tt, store a w) | err e ↦ (err e, w) ]

  -- `try { m } catch (error) { handler(error) }`
  abbrev pub catching : Io A → (Error → Io A) → Io A
  catching m handler w = let (r, w') = m w in elim r [ ok a ↦ (ok a, w') | err e ↦ handler e w' ]

  abbrev pub or_throw : Option A → Error → Io A
  or_throw none e = throw e
  or_throw (some a) e = pure a

infixl 5 ◌>>=◌ ◌>>◌
abbrev pub ◌>>=◌ : {A B : Type 0} → Io A → (A → Io B) → Io B
◌>>=◌ m k w = let (r, w') = m w in elim r [ ok a ↦ k a w' | err e ↦ (err e, w') ]

abbrev pub ◌>>◌ : {A B : Type 0} → Io A → Io B → Io B
m >> k = m >>= λ _. k

-- A run, from its result.
pub pair_eq : {A : Type 0} {a : Result A} (m : Result A × World) → m.0 ≡ a → m ≡ (a, m.1)
pair_eq m e = λ i. (e i, m.1)

abbrev pub modify : (World → World) → Io (Unit {0})
modify f w = (ok tt, f w)

-- `if (b) throw e;`
abbrev pub throw_if : Bool → Error → Io (Unit {0})
throw_if true e = throw e
throw_if false e = pure tt

-- `if (b) { m }`
abbrev pub when : Bool → Io (Unit {0}) → Io (Unit {0})
when true m = m
when false m = pure tt
