-- ===== src/Task/Frame.antt =====
-- What follows the writes of the task service only notifies.
use task_scheduling_platform.Base.{ℕ, String, Bool, true, false, Option, some, none}
use task_scheduling_platform.Platform.Entities.{Task}
use task_scheduling_platform.Platform.Drivers.{Platform}
use task_scheduling_platform.Realtime.{send_task_created, send_task_updated}
use task_scheduling_platform.Notification.Frame.{Framed, framed}
use task_scheduling_platform.Task.Dto.{CreateTaskDto, UpdateTaskDto}
use task_scheduling_platform.Task.Create.{notify_assignee, announce_create}
use task_scheduling_platform.Task.Update.{record_change, announce_update, announce_delete}

module _ (p : Platform) where
  notify_assignee-Framed : (a : Option ℕ) (title : String) → Framed (notify_assignee p a title)
  unfolding notify_assignee
  notify_assignee-Framed none title = search framed
  notify_assignee-Framed (some a) title = search framed

  pub announce_create-Framed :
      (workspace_id project_id user_id : ℕ) (dto : CreateTaskDto) (saved : Task)
      → Framed (announce_create p workspace_id project_id user_id dto saved)
  unfolding announce_create send_task_created
  announce_create-Framed workspace_id project_id user_id dto saved =
      search (framed, notify_assignee-Framed) depth 8

  record_change-Framed :
      (id workspace_id user_id : ℕ) (t : Task) (done : Bool) (assignee : Option ℕ)
      → Framed (record_change p id workspace_id user_id t done assignee)
  unfolding record_change
  record_change-Framed id workspace_id user_id t true assignee = search framed depth 8
  record_change-Framed id workspace_id user_id t false (some a) = search framed depth 8
  record_change-Framed id workspace_id user_id t false none = search framed

  pub announce_update-Framed :
      (id workspace_id user_id : ℕ) (dto : UpdateTaskDto) (t e saved : Task)
      → Framed (announce_update p id workspace_id user_id dto t e saved)
  unfolding announce_update send_task_updated
  announce_update-Framed id workspace_id user_id dto t e saved =
      search (framed, record_change-Framed) depth 8

  pub announce_delete-Framed :
      (id workspace_id user_id : ℕ) → Framed (announce_delete p id workspace_id user_id)
  unfolding announce_delete send_task_updated
  announce_delete-Framed id workspace_id user_id = search framed depth 8
