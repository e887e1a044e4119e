-- ===== src/Workers/Tests.antt =====
-- Runs of the workers, and their theorems at concrete inputs.
use task_scheduling_platform.Base.{◌≡◌, refl, some, [], ◌∷◌}
use task_scheduling_platform.Platform.Entities.{Reminder, AuditLog, obj, end}
use task_scheduling_platform.Platform.Io.{World, ok}
use task_scheduling_platform.Platform.Laws.{Saves, Identifies}
use task_scheduling_platform.Notification.{create_and_send_notification}
use task_scheduling_platform.Queue.{audit_job}
use task_scheduling_platform.Workers.{
  persist_audit, persist_activity, mark_reminder, notify_due, deliver_reminder, send_reminder,
  process,
}
use task_scheduling_platform.Workers.Logs.{StoredAudit, audit_id}
use task_scheduling_platform.Sample.Table.{table-Identifies, table-Saves}
use task_scheduling_platform.Sample.World.{sample, world}

runs : Unit {0}
unfolding persist_audit persist_activity mark_reminder notify_due deliver_reminder send_reminder
    process create_and_send_notification
runs = tt

abbrev reminder : Reminder
reminder = record { id = 1; task_id = 1; scheduled_at = 9000; status = "PENDING"; created_at = 0 }

abbrev reminded : World
reminded = record world { reminders = reminder ∷ [] }

sends :
    (send_reminder sample 1 1 2 "1 hour" reminded).1.reminders
    ≡ record reminder { status = "SENT" } ∷ []
unfolding runs
sends = refl

misses :
    (send_reminder sample 1 7 2 "1 hour" reminded).1.reminders
    ≡ record reminder { status = "FAILED" } ∷ []
unfolding runs
misses = refl

abbrev audit_ids : Identifies audit_id sample.audit_logs
audit_ids = table-Identifies (λ (r : AuditLog). r.id) (λ n r. record r { id = n }) (λ n r. refl)

abbrev audit_saves : Saves audit_id StoredAudit sample.audit_logs
audit_saves =
    table-Saves (λ (r : AuditLog). r.id) (λ n r. record r { id = n }) (λ n r. refl) StoredAudit
      (λ e. refl) (λ n e. refl)

abbrev processed : World
processed = (process sample (audit_job "LOGIN" (some 1) (obj end)).body world).1

process_returns : (process sample (audit_job "LOGIN" (some 1) (obj end)).body world).0 ≡ ok tt
unfolding runs
process_returns = refl
