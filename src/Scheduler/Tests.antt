-- ===== src/Scheduler/Tests.antt =====
-- Runs of the reminder check, and its theorems at concrete inputs.
use task_scheduling_platform.Base.{eq_iff, arith, ◌≡◌, refl, [], ◌∷◌, inl, inr}
use task_scheduling_platform.Platform.Entities.{Task, Reminder}
use task_scheduling_platform.Platform.Io.{World, ok, pair_eq}
use task_scheduling_platform.Platform.Laws.{Finds, Saves, Identifies}
use task_scheduling_platform.Platform.Loops.{for_each}
use task_scheduling_platform.Queue.{add_job}
use task_scheduling_platform.Scheduler.{
  Milestone, schedule, remind, check_milestone, check_due_tasks,
}
use task_scheduling_platform.Scheduler.Once.{
  StoredReminder, reminder_id, RemindsOnce, check_due_tasks-RemindsOnce,
}
use task_scheduling_platform.Scheduler.Coverage.{RemindedOf, Enqueues, check_due_tasks-RemindedOf}
use task_scheduling_platform.Sample.Table.{table-Finds, table-Identifies, table-Saves}
use task_scheduling_platform.Sample.World.{sample, world, first_task}

runs : Unit {0}
unfolding for_each add_job schedule remind check_milestone check_due_tasks
runs = tt

abbrev reminder_finds : Finds sample.reminders
reminder_finds = table-Finds (λ (r : Reminder). r.id) (λ n r. record r { id = n })

abbrev reminder_ids : Identifies reminder_id sample.reminders
reminder_ids = table-Identifies (λ (r : Reminder). r.id) (λ n r. record r { id = n }) (λ n r. refl)

abbrev reminder_saves : Saves reminder_id StoredReminder sample.reminders
reminder_saves =
    table-Saves (λ (r : Reminder). r.id) (λ n r. record r { id = n }) (λ n r. refl) StoredReminder
      (λ e. refl) (λ n e. refl)

abbrev task_finds : Finds sample.tasks
task_finds = table-Finds (λ (r : Task). r.id) (λ n r. record r { id = n })

abbrev checked : World
checked = (check_due_tasks sample world).1

abbrev last_milestone : Milestone
last_milestone = record { name = "1 hour"; hours = 1 }

check_returns : (check_due_tasks sample world).0 ≡ ok tt
unfolding runs
check_returns = refl

-- The sample's open task is due within the hour: it is reminded of once.
reminds :
    checked.reminders
    ≡ record { id = 1; task_id = 1; scheduled_at = 9000; status = "PENDING"; created_at = 0 } ∷ []
unfolding runs
reminds = refl

check_due_tasks-RemindsOnce_example : RemindsOnce checked
check_due_tasks-RemindsOnce_example =
    check_due_tasks-RemindsOnce sample reminder_finds reminder_saves task_finds world
      (λ x y k l e f. absurd k)

check_due_tasks-RemindedOf_example : RemindedOf first_task 9000 checked × Enqueues world checked
check_due_tasks-RemindedOf_example =
    check_due_tasks-RemindedOf sample reminder_saves reminder_ids task_finds reminder_finds 1
      first_task 2 9000 world checked (inr (inr (inr (inl refl)))) (inl refl) refl (omega arith)
      (omega arith) (λ e. ground (arith, eq_iff "TODO" "DONE")) refl refl (pair_eq _ check_returns)
