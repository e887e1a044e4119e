-- ===== src/Sample/World.antt =====
-- A platform over the in-memory drivers, and a world with a workspace, two users and two tasks.
use task_scheduling_platform.Base.{
  true, false, none, some, [], ◌∷◌, ◌+◌, ◌*◌, str_eq, ◌||◌, Bool, length, select,
}
use Prim.Native.String
use task_scheduling_platform.Platform.Entities.{
  User, UserSession, Workspace, WorkspaceMember, Project, Task, Comment, Notification, Reminder,
  Activity, AuditLog,
}
use task_scheduling_platform.Platform.Io.{World, Result, ok, err, unauthorized}
use task_scheduling_platform.Platform.Drivers.{Platform, Jwt, Claims}
use task_scheduling_platform.Sample.Table.{table}
use task_scheduling_platform.Sample.Store.{store_redis, soft}

-- Tokens that carry nothing but the secret: `sign` answers with the secret and a mark, and `verify`
-- accepts that and the bare secret.
abbrev pub sample_jwt : Jwt
sample_jwt = record {
  sign = λ secret _ _ _. ok (String.◌++◌ secret "+");
  verify =
      λ secret token _. claims_if (str_eq secret token || str_eq (String.◌++◌ secret "+") token);
  expiry = λ _. 100;
}
  where
    claims_if : Bool → Result Claims
    claims_if true = ok (record { user_id = 1; email = "ann@x.io" })
    claims_if false = err (unauthorized "bad token")

abbrev pub sample : Platform
sample = record {
  users = table (λ (r : User). r.id) (λ n r. record r { id = n });
  sessions = table (λ (r : UserSession). r.id) (λ n r. record r { id = n });
  workspaces = table (λ (r : Workspace). r.id) (λ n r. record r { id = n });
  members = table (λ (r : WorkspaceMember). r.workspace_id * 1000 + r.user_id) (λ n r. r);
  projects = table (λ (r : Project). r.id) (λ n r. record r { id = n });
  tasks = table (λ (r : Task). r.id) (λ n r. record r { id = n });
  comments = table (λ (r : Comment). r.id) (λ n r. record r { id = n });
  notifications = table (λ (r : Notification). r.id) (λ n r. record r { id = n });
  reminders = table (λ (r : Reminder). r.id) (λ n r. record r { id = n });
  activities = table (λ (r : Activity). r.id) (λ n r. record r { id = n });
  audit_logs = table (λ (r : AuditLog). r.id) (λ n r. record r { id = n });
  soft_remove = soft;
  begin = ok tt;
  commit = λ ws ms. ok tt;
  rollback = ok tt;
  many_and_count = λ f _ _ _ _ t. ok (select f t, length (select f t));
  text_matches = λ q t. str_eq q t.title;
  redis = store_redis;
  enqueue = λ _ _. ok tt;
  jwt = sample_jwt;
  config = record {
    access_secret = "access";
    access_expiration = "15m";
    refresh_secret = "refresh";
    refresh_expiration = "7d";
  };
  sha256 = λ t. t;
  bcrypt_hash = λ plain _. plain;
  bcrypt_compare = str_eq;
  random_hex = λ _. "00112233445566778899aabbccddeeff";
  parse_date = λ _. 9000;
}

abbrev pub first_task : Task
first_task = record {
  id = 1;
  workspace_id = 5;
  project_id = 6;
  parent_task_id = none;
  title = "Write tests";
  description = none;
  status = "TODO";
  priority = "MEDIUM";
  assigned_to = some 2;
  due_date = some 9000;
  created_by = 1;
  completed_at = none;
  labels = none;
  attachments = some [];
  version = 3;
  deleted_at = none;
  created_at = 10;
  updated_at = 20;
}

abbrev pub second_task : Task
second_task = record first_task {
  id = 2;
  title = "Review";
  parent_task_id = some 1;
  status = "DONE";
  completed_at = some 30;
}

abbrev pub world : World
world = record {
  users = [];
  sessions = [];
  workspaces = [];
  members =
      record { workspace_id = 5; user_id = 1; role = "ADMIN"; created_at = 1; updated_at = 1 }
      ∷ record { workspace_id = 5; user_id = 2; role = "MEMBER"; created_at = 1; updated_at = 1 }
      ∷ [];
  projects = [];
  tasks = first_task ∷ second_task ∷ [];
  comments = [];
  notifications = [];
  reminders = [];
  activities = [];
  audit_logs = [];
  cache = [];
  jobs = [];
  emitted = [];
  now = 50;
  drawn = 0;
}

abbrev pub ann_account : User
ann_account = record {
  id = 1;
  email = "ann@x.io";
  password = some "secret";
  name = "Ann";
  avatar = none;
  is_verified = true;
  created_at = 1;
  updated_at = 1;
}

abbrev pub ann_session : UserSession
ann_session = record {
  id = 1;
  user_id = 1;
  token_hash = "refresh";
  device_fingerprint = none;
  ip_address = none;
  expires_at = 100000;
  is_revoked = false;
  created_at = 1;
  updated_at = 1;
}

-- The same world with an account that is logged in on one device.
abbrev pub home : World
home = record world { users = ann_account ∷ []; sessions = ann_session ∷ [] }
