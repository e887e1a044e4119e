-- ===== src/Workers.antt =====
-- src/workers: what the consumers of the queues do with a job. BullMQ calls `process`, and retries a
-- job whose call throws.
pub mod Reminders
pub mod Logs
pub mod Tests
use task_scheduling_platform.Base.{
  ℕ, String, Option, none, some, List, ◌==◌, ◌&&◌, or_else, not, is_some,
}
use Prim.Native.String
use task_scheduling_platform.Platform.Entities.{Task, Reminder, Activity, AuditLog, Json}
use task_scheduling_platform.Platform.Io.{
  World, Io, JobBody, log_action, log_activity, send_push, send_email, send_verification,
  send_password_reset, process_reminder, failure, pure, throw, reads, commits, writes, catching,
  or_throw, ◌>>=◌, ◌>>◌,
}
use task_scheduling_platform.Platform.Drivers.{Platform}
use task_scheduling_platform.Notification.{create_and_send_notification}
use task_scheduling_platform.Scheduler.{put_reminders}
use task_scheduling_platform.Task.Find.{not_deleted}
use task_scheduling_platform.Task.Create.{quoted}

abbrev pub put_audit_logs : List AuditLog → World → World
put_audit_logs ls w = record w { audit_logs = ls }

abbrev pub put_activities : List Activity → World → World
put_activities xs w = record w { activities = xs }

abbrev pub new_audit : String → Option ℕ → Json → AuditLog
new_audit action user_id payload = record {
  id = 0;
  action = action;
  user_id = user_id;
  payload = payload;
  created_at = 0;
}

abbrev pub new_activity : ℕ → String → ℕ → String → ℕ → Activity
new_activity workspace_id entity_type entity_id action performed_by = record {
  id = 0;
  workspace_id = workspace_id;
  entity_type = entity_type;
  entity_id = entity_id;
  action = action;
  performed_by = performed_by;
  created_at = 0;
}

abbrev pub with_status : String → Reminder → Reminder
with_status status r = record r { status = status }

module _ (p : Platform) where
  -- AuditWorker and ActivityWorker: the `catch` only logs, and throws the error again.
  unfoldable pub persist_audit : String → Option ℕ → Json → Io (Unit {0})
  persist_audit action user_id payload = do
    _ ←
        commits (λ w. p.audit_logs.save (new_audit action user_id payload) w.audit_logs)
          put_audit_logs
    pure tt

  unfoldable pub persist_activity : ℕ → String → ℕ → String → ℕ → Io (Unit {0})
  persist_activity workspace_id entity_type entity_id action performed_by = do
    _ ←
        commits
          (λ w.
            p.activities.save (new_activity workspace_id entity_type entity_id action performed_by)
              w.activities)
          put_activities
    pure tt

  unfoldable pub mark_reminder : (id : ℕ) (status : String) → Io (Unit {0})
  mark_reminder id status =
      writes (λ w. p.reminders.update (λ r. r.id == id) (with_status status) w.reminders)
        put_reminders

  unfoldable pub notify_due : (id user_id : ℕ) (milestone : String) → Task → Io (Unit {0})
  notify_due id user_id milestone t = do
    _ ←
        create_and_send_notification p user_id "DUE_REMINDER"
          (String.◌++◌ "Task Due Soon: " t.title)
          (quoted "Reminder: The task \"" t.title (quoted "\" is due in " milestone "."))
    mark_reminder id "SENT"

  -- The `try` block of ReminderWorker.
  unfoldable pub deliver_reminder : (id task_id user_id : ℕ) (milestone : String) → Io (Unit {0})
  deliver_reminder id task_id user_id milestone = do
    found ← reads (λ w. p.tasks.find_one (λ t. t.id == task_id && not_deleted t) w.tasks)
    t ← or_throw found (failure "Task not found")
    notify_due id user_id milestone t

  unfoldable pub send_reminder : (id task_id user_id : ℕ) (milestone : String) → Io (Unit {0})
  send_reminder id task_id user_id milestone =
      catching (deliver_reminder id task_id user_id milestone)
        (λ error. mark_reminder id "FAILED" >> throw error)

  -- The queue of a job is its constructor. EmailWorker and NotificationWorker only log.
  unfoldable pub process : JobBody → Io (Unit {0})
  process (log_action action user_id payload) = persist_audit action user_id payload
  process (log_activity workspace_id entity_type entity_id action performed_by) =
      persist_activity workspace_id entity_type entity_id action performed_by
  process (process_reminder id task_id user_id milestone due_date) =
      send_reminder id task_id (or_else user_id 0) milestone
  process (send_push _ _ _ _ _) = pure tt
  process (send_email _ _ _) = pure tt
  process (send_verification _ _ _) = pure tt
  process (send_password_reset _ _) = pure tt
