-- ===== src/Task/Update.antt =====
-- `updateTask` and `deleteTask` of src/modules/task/task.service.ts.
use task_scheduling_platform.Base.{
  ℕ, String, Bool, true, false, Option, none, some, ◌==◌, ◌&&◌, not, str_eq, same_number, nonempty,
  given, if◌then◌else◌,
}
use Prim.Native.String
use task_scheduling_platform.Platform.Entities.{Task, number, obj, field, end}
use task_scheduling_platform.Platform.Io.{
  Io, Error, conflict, lock_mismatch, task_message, task_deleted, pure, throw, asks, commits,
  catching, throw_if, when, ◌>>=◌, ◌>>◌,
}
use task_scheduling_platform.Platform.Drivers.{Platform}
use task_scheduling_platform.Cache
use task_scheduling_platform.Queue.{audit_log, activity_log}
use task_scheduling_platform.Realtime.{send_task_updated}
use task_scheduling_platform.Notification.{create_and_send_notification}
use task_scheduling_platform.Task.Dto.{UpdateTaskDto, old_val, dto_json}
use task_scheduling_platform.Task.Keys.{task_cache_key, list_cache_pattern}
use task_scheduling_platform.Task.Find.{find_by_id}
use task_scheduling_platform.Task.Create.{put_tasks, truthy_id, date_of, quoted}

-- `dto.version !== undefined && task.version !== dto.version`
abbrev pub version_conflict : Option ℕ → Task → Bool
version_conflict none t = false
version_conflict (some v) t = not (t.version == v)

-- `dto.status && dto.status === 'DONE' && task.status !== 'DONE'`
abbrev pub completes : UpdateTaskDto → Task → Bool
completes dto t = elim dto.status [
  | none ↦ false
  | some s ↦ str_eq s "DONE" && not (str_eq t.status "DONE")
]

-- `dto.status && dto.status !== 'DONE'`
abbrev pub reopens : UpdateTaskDto → Bool
reopens dto = elim dto.status [ none ↦ false | some s ↦ nonempty s && not (str_eq s "DONE") ]

-- `dto.assignedTo !== undefined && dto.assignedTo !== task.assignedTo`
abbrev pub reassigns : UpdateTaskDto → Task → Bool
reassigns dto t = elim dto.assigned_to [
  | none ↦ false
  | some a ↦ not (same_number (some a) t.assigned_to)
]

abbrev pub given_option : {A : Type 0} → Option A → Option A → Option A
given_option none a = a
given_option (some b) a = some b

abbrev pub new_due_date : (String → ℕ) → Option String → Option ℕ → Option ℕ
new_due_date parse none old = old
new_due_date parse (some s) old = date_of parse (some s)

-- The assignments of `updateTask` to the task that it found, at time `now`.
unfoldable pub apply_update : (String → ℕ) → ℕ → UpdateTaskDto → Task → Task
apply_update parse now dto t = record t {
  completed_at = if completes dto t then some now else if reopens dto then none else t.completed_at;
  assigned_to = if reassigns dto t then dto.assigned_to else t.assigned_to;
  title = given dto.title t.title;
  description = given_option dto.description t.description;
  status = given dto.status t.status;
  priority = given dto.priority t.priority;
  due_date = new_due_date parse dto.due_date t.due_date;
  labels = given_option dto.labels t.labels;
  attachments = given_option dto.attachments t.attachments;
}

-- What is stored of the entity `e` that was found as `t`: `findById` loads the relation `assignee`,
-- and TypeORM reads the join column from a loaded relation, not from `assignedTo`.
abbrev pub joined_assignee : (t e : Task) → Task
joined_assignee t e = record e { assigned_to = given_option t.assigned_to e.assigned_to }

-- `save` answers with the entity, whose `assignedTo` is as it was assigned.
abbrev pub in_memory : (e saved : Task) → Task
in_memory e saved = record saved { assigned_to = e.assigned_to }

abbrev pub locking_message : String
locking_message =
    "Optimistic locking violation: Task has been modified by another request. Please reload."

module _ (p : Platform) where
  -- The activity and the notification of an update: whether it completes the task, and the new
  -- assignee if there is one.
  unfoldable pub record_change :
      (id workspace_id user_id : ℕ) → Task → Bool → Option ℕ → Io (Unit {0})
  record_change id workspace_id user_id t true assignee = do
    activity_log p workspace_id "TASK" id "TASK_COMPLETED" user_id
    when (not (t.created_by == user_id)) (do
      _ ←
          create_and_send_notification p t.created_by "TASK_COMPLETED"
            (String.◌++◌ "Completed Task: " t.title)
            (quoted "The task \"" t.title "\" has been completed.")
      pure tt)
  record_change id workspace_id user_id t false (some assignee) = do
    activity_log p workspace_id "TASK" id "TASK_ASSIGNED" user_id
    _ ←
        create_and_send_notification p assignee "TASK_ASSIGNED"
          (String.◌++◌ "Assigned Task: " t.title)
          (quoted "You have been assigned to the task \"" t.title "\".")
    pure tt
  record_change id workspace_id user_id t false none =
      activity_log p workspace_id "TASK" id "TASK_UPDATED" user_id

  -- What follows the eviction of the caches: `t` is the task as found, `e` with the assignments
  -- made, and `saved` as saved.
  unfoldable pub announce_update :
      (id workspace_id user_id : ℕ) → UpdateTaskDto → (t e saved : Task) → Io Task
  announce_update id workspace_id user_id dto t e saved = do
    audit_log p "TASK_UPDATE" (some user_id) (
        obj (
          field "taskId" (number id) (
            field "workspaceId" (number workspace_id)
              (field "previous" (old_val t) (field "new" (dto_json dto) end)))))
    record_change id workspace_id user_id e (completes dto t)
        (if reassigns dto t then truthy_id e.assigned_to else none)
    send_task_updated workspace_id (task_message saved)
    pure saved

  -- The `try` block.
  unfoldable pub persist_update :
      (id workspace_id user_id : ℕ) → UpdateTaskDto → (t e : Task) → Io Task
  persist_update id workspace_id user_id dto t e = do
    saved ← commits (λ w. p.tasks.save (joined_assignee t e) w.tasks) put_tasks
    Cache.del p (task_cache_key id)
    Cache.del_pattern p (list_cache_pattern workspace_id e.project_id)
    announce_update id workspace_id user_id dto t e (in_memory e saved)

  abbrev lock_to_conflict : {A : Type 0} → Error → Io A
  lock_to_conflict lock_mismatch = throw (conflict locking_message)
  lock_to_conflict e = throw e

  unfoldable pub update_task : (id workspace_id user_id : ℕ) → UpdateTaskDto → Io Task
  update_task id workspace_id user_id dto = do
    t ← find_by_id p id workspace_id
    throw_if (version_conflict dto.version t) (conflict locking_message)
    now ← asks (λ w. w.now)
    catching (persist_update id workspace_id user_id dto t (apply_update p.parse_date now dto t))
        lock_to_conflict

  unfoldable pub announce_delete : (id workspace_id user_id : ℕ) → Io (Unit {0})
  announce_delete id workspace_id user_id = do
    audit_log p "TASK_DELETE" (some user_id)
        (obj (field "taskId" (number id) (field "workspaceId" (number workspace_id) end)))
    activity_log p workspace_id "TASK" id "TASK_DELETED" user_id
    now ← asks (λ w. w.now)
    send_task_updated workspace_id (task_deleted id "DELETED" now)

  unfoldable pub delete_task : (id workspace_id user_id : ℕ) → Io (Unit {0})
  delete_task id workspace_id user_id = do
    t ← find_by_id p id workspace_id
    _ ← commits (λ w. p.soft_remove t w.now w.tasks) put_tasks
    Cache.del p (task_cache_key id)
    Cache.del_pattern p (list_cache_pattern workspace_id t.project_id)
    announce_delete id workspace_id user_id
