-- ===== src/Task/Create.antt =====
-- `createTask` of src/modules/task/task.service.ts.
use task_scheduling_platform.Base.{
  ℕ, String, Option, none, some, List, [], ◌==◌, text_or, str_eq, given, if◌then◌else◌,
}
use Prim.Native.String
use task_scheduling_platform.Platform.Entities.{Task, number, obj, field, end}
use task_scheduling_platform.Platform.Io.{World, Io, pure, commits, ◌>>=◌, ◌>>◌}
use task_scheduling_platform.Platform.Drivers.{Platform}
use task_scheduling_platform.Cache
use task_scheduling_platform.Queue.{audit_log, activity_log}
use task_scheduling_platform.Realtime.{send_task_created}
use task_scheduling_platform.Notification.{create_and_send_notification}
use task_scheduling_platform.Task.Dto.{CreateTaskDto}
use task_scheduling_platform.Task.Keys.{list_cache_pattern}

abbrev pub put_tasks : List Task → World → World
put_tasks ts w = record w { tasks = ts }

-- `dto.x ? f(dto.x) : undefined`
abbrev pub date_of : (String → ℕ) → Option String → Option ℕ
date_of parse none = none
date_of parse (some s) = if str_eq s "" then none else some (parse s)

-- The id in a field that may be missing or empty
abbrev pub truthy_id : Option ℕ → Option ℕ
truthy_id none = none
truthy_id (some a) = if a == 0 then none else some a

abbrev pub new_task : (String → ℕ) → (workspace_id project_id user_id : ℕ) → CreateTaskDto → Task
new_task parse workspace_id project_id user_id dto = record {
  id = 0;
  workspace_id = workspace_id;
  project_id = project_id;
  parent_task_id = dto.parent_task_id;
  title = dto.title;
  description = dto.description;
  status = "TODO";
  priority = text_or dto.priority "MEDIUM";
  assigned_to = dto.assigned_to;
  due_date = date_of parse dto.due_date;
  created_by = user_id;
  completed_at = none;
  labels = dto.labels;
  attachments = some (given dto.attachments []);
  version = 0;
  deleted_at = none;
  created_at = 0;
  updated_at = 0;
}

abbrev pub quoted : String → String → String → String
quoted before name after = String.◌++◌ before (String.◌++◌ name after)

module _ (p : Platform) where
  -- `if (dto.assignedTo) …`
  unfoldable pub notify_assignee : Option ℕ → String → Io (Unit {0})
  notify_assignee none title = pure tt
  notify_assignee (some assignee) title = do
    _ ←
        create_and_send_notification p assignee "TASK_ASSIGNED"
          (String.◌++◌ "Assigned Task: " title)
          (quoted "You have been assigned to the task \"" title "\" in project.")
    pure tt

  unfoldable pub announce_create :
      (workspace_id project_id user_id : ℕ) → CreateTaskDto → Task → Io Task
  announce_create workspace_id project_id user_id dto saved = do
    audit_log p "TASK_CREATE" (some user_id) (
        obj (
          field "taskId" (number saved.id) (
            field "projectId" (number project_id) (field "workspaceId" (number workspace_id) end))))
    activity_log p workspace_id "TASK" saved.id "TASK_CREATED" user_id
    send_task_created workspace_id saved
    notify_assignee (truthy_id dto.assigned_to) dto.title
    pure saved

  unfoldable pub create_task : (workspace_id project_id user_id : ℕ) → CreateTaskDto → Io Task
  create_task workspace_id project_id user_id dto = do
    saved ←
        commits
          (λ w. p.tasks.save (new_task p.parse_date workspace_id project_id user_id dto) w.tasks)
          put_tasks
    Cache.del_pattern p (list_cache_pattern workspace_id project_id)
    announce_create workspace_id project_id user_id dto saved
