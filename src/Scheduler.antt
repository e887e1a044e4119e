-- ===== src/Scheduler.antt =====
-- src/modules/scheduler/scheduler.service.ts: every minute, the tasks that come due are reminded of.
pub mod Once
pub mod Growth
pub mod Coverage
pub mod Tests
use task_scheduling_platform.Base.{
  ℕ, String, Bool, true, false, Option, none, some, List, [], ◌∷◌, ◌==◌, ◌&&◌, ◌+◌, ◌-◌, ◌*◌, leb,
  not, str_eq, is_some, or_else, same_number, if◌then◌else◌,
}
use task_scheduling_platform.Platform.Entities.{Task, Reminder}
use task_scheduling_platform.Platform.Io.{
  World, Io, Job, process_reminder, pure, reads, commits, ◌>>=◌, ◌>>◌,
}
use task_scheduling_platform.Platform.Drivers.{Platform}
use task_scheduling_platform.Platform.Loops.{for_each}
use task_scheduling_platform.Queue.{add_job, three_attempts}
use task_scheduling_platform.Task.Find.{not_deleted}

pub record Milestone : Type 0 where
  pub name : String
  pub hours : ℕ

abbrev pub milestones : List Milestone
milestones =
    record { name = "24 hours"; hours = 24 }
    ∷ record { name = "12 hours"; hours = 12 }
    ∷ record { name = "6 hours"; hours = 6 }
    ∷ record { name = "1 hour"; hours = 1 }
    ∷ []

-- The milliseconds of some hours. `setHours` counts local hours, which are taken to be that long.
abbrev pub hours_ms : ℕ → ℕ
hours_ms h = h * 3600000

-- `targetTimeMin` and `targetTimeMax`
abbrev pub target_min : Milestone → ℕ → ℕ
target_min m now = now + hours_ms (m.hours - 1)

abbrev pub target_max : Milestone → ℕ → ℕ
target_max m now = now + hours_ms m.hours

abbrev pub between : (min max : ℕ) → Option ℕ → Bool
between min max none = false
between min max (some d) = leb min d && leb d max

abbrev pub is_due : Milestone → ℕ → Task → Bool
is_due m now t =
    between (target_min m now) (target_max m now) t.due_date
    && not (str_eq t.status "DONE")
    && is_some t.assigned_to
    && not_deleted t

-- `{ taskId: task.id, scheduledAt: task.dueDate }`
abbrev pub is_reminder_of : Task → Reminder → Bool
is_reminder_of t r = r.task_id == t.id && same_number (some r.scheduled_at) t.due_date

abbrev pub was_sent : Task → Reminder → Bool
was_sent t r = r.task_id == t.id && str_eq r.status "SENT"

abbrev pub put_reminders : List Reminder → World → World
put_reminders rs w = record w { reminders = rs }

-- The due date is there: the query asks for it.
abbrev pub new_reminder : Task → Reminder
new_reminder t = record {
  id = 0;
  task_id = t.id;
  scheduled_at = or_else t.due_date 0;
  status = "PENDING";
  created_at = 0;
}

abbrev pub reminder_job : Milestone → Task → Reminder → Job
reminder_job m t r = record {
  body = process_reminder r.id t.id t.assigned_to m.name t.due_date;
  options = three_attempts 1000;
}

module _ (p : Platform) where
  unfoldable pub schedule : Milestone → Task → Io (Unit {0})
  schedule m t = do
    saved ← commits (λ w. p.reminders.save (new_reminder t) w.reminders) put_reminders
    add_job p (reminder_job m t saved)

  abbrev pub schedule_if : Bool → Milestone → Task → Io (Unit {0})
  schedule_if true m t = schedule m t
  schedule_if false m t = pure tt

  -- The body of the inner loop. What `existing` finds is not used.
  unfoldable pub remind : Milestone → Task → Io (Unit {0})
  remind m t = do
    _ ← reads (λ w. p.reminders.find_one (was_sent t) w.reminders)
    n ← reads (λ w. p.reminders.count (is_reminder_of t) w.reminders)
    schedule_if (n == 0) m t

  -- The body of the outer loop.
  unfoldable pub check_milestone : Milestone → Io (Unit {0})
  check_milestone m = do
    tasks ← reads (λ w. p.tasks.find (is_due m w.now) w.tasks)
    for_each tasks (remind m)

  unfoldable pub check_due_tasks : Io (Unit {0})
  check_due_tasks = for_each milestones check_milestone
