-- ===== src/Platform/Drivers.antt =====
-- The packages that the code calls, as interfaces: TypeORM repositories, the Redis client, BullMQ
-- queues, JWTs, hashes. What the code relies on is stated in Platform/Laws.antt.
use task_scheduling_platform.Base.{ℕ, String, Bool, Option, List}
use task_scheduling_platform.Platform.Entities.{
  User, UserSession, Workspace, WorkspaceMember, Project, Task, Comment, Notification, Reminder,
  Activity, AuditLog,
}
use task_scheduling_platform.Platform.Io.{Result, Key, Cached, Store, Job}

-- A repository reads and writes the rows of its table; a call may reject. `where` conditions are
-- tests on a row. `find_sorted` takes the column to order by, and whether the order is descending.
pub record Repository (Row : Type 0) : Type 0 where
  pub find_one : (Row → Bool) → List Row → Result (Option Row)
  pub find : (Row → Bool) → List Row → Result (List Row)
  pub find_sorted : (Row → Bool) → (Row → ℕ) → Bool → List Row → Result (List Row)
  pub count : (Row → Bool) → List Row → Result ℕ
  pub save : Row → List Row → Result (Row × List Row)
  pub update : (Row → Bool) → (Row → Row) → List Row → Result (List Row)
  pub remove : Row → List Row → Result (Row × List Row)

-- The Redis client on what is kept under each key. `scan` answers with the batches of its stream,
-- for the pattern that is a prefix of parts and then `*`.
pub record Redis : Type 0 where
  pub get : Key → Store → Result (Option Cached)
  pub setex : Key → ℕ → Cached → Store → Result Store
  pub del : List Key → Store → Result Store
  pub scan : Key → Store → Result (List (List Key))

-- The claims that the code signs into a token.
pub record Claims : Type 0 where
  pub user_id : ℕ
  pub email : String

-- `sign` and `verify` are given the clock; `expiry` is the `exp` claim of a decoded token.
pub record Jwt : Type 0 where
  pub sign : (secret expires_in : String) → Claims → (now : ℕ) → Result String
  pub verify : (secret token : String) → (now : ℕ) → Result Claims
  pub expiry : String → ℕ

pub record Config : Type 0 where
  pub access_secret : String
  pub access_expiration : String
  pub refresh_secret : String
  pub refresh_expiration : String

-- The order in which a page of tasks is asked for.
pub data SortField : Type 0 where
  created_at due_date title : SortField

pub data SortOrder : Type 0 where
  asc desc : SortOrder

pub record Platform : Type 0 where
  pub users : Repository User
  pub sessions : Repository UserSession
  pub workspaces : Repository Workspace
  pub members : Repository WorkspaceMember
  pub projects : Repository Project
  pub tasks : Repository Task
  pub comments : Repository Comment
  pub notifications : Repository Notification
  pub reminders : Repository Reminder
  pub activities : Repository Activity
  pub audit_logs : Repository AuditLog
  -- `softRemove`, and the query builder's `orderBy`, `take`, `skip` and `getManyAndCount`
  pub soft_remove : Task → ℕ → List Task → Result (Task × List Task)
  pub many_and_count :
      (Task → Bool) → SortField → SortOrder → (limit skip : ℕ) → List Task → Result (List Task × ℕ)
  -- a query runner's `connect` with `startTransaction`, and its `commitTransaction` of the tables
  -- that the transaction has written
  pub begin : Result (Unit {0})
  pub commit : List Workspace → List WorkspaceMember → Result (Unit {0})
  pub rollback : Result (Unit {0})
  -- PostgreSQL's full text search over title and description
  pub text_matches : String → Task → Bool
  pub redis : Redis
  -- whether a queue takes a job: `ok` or the error of `add`
  pub enqueue : Job → List Job → Result (Unit {0})
  pub jwt : Jwt
  pub config : Config
  pub sha256 : String → String
  pub bcrypt_hash : (plain salt : String) → String
  pub bcrypt_compare : (plain hash : String) → Bool
  -- the n-th draw of `crypto.randomBytes` and `bcrypt.genSalt`
  pub random_hex : ℕ → String
  -- `new Date(text)`
  pub parse_date : String → ℕ
