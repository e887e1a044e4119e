-- ===== src/Queue.antt =====
-- The two services that only enqueue: src/modules/audit/audit.service.ts and
-- src/modules/activity/activity.service.ts. An error of the queue goes to the console.
pub mod Laws
use task_scheduling_platform.Base.{ℕ, String, Option, some, none, List, [], ◌∷◌, ◌++◌}
use task_scheduling_platform.Platform.Entities.{Json}
use task_scheduling_platform.Platform.Io.{
  World, Io, Job, JobOptions, log_action, log_activity, pure, writes, catching,
}
use task_scheduling_platform.Platform.Drivers.{Platform}

abbrev pub put_job : Job → World → World
put_job job w = record w { jobs = w.jobs ++ job ∷ [] }

-- Three attempts, with an exponential backoff from the delay.
abbrev pub three_attempts : ℕ → Option JobOptions
three_attempts delay = some (record { attempts = 3; delay = delay })

abbrev pub audit_job : String → Option ℕ → Json → Job
audit_job action user_id payload = record {
  body = log_action action user_id payload;
  options = three_attempts 1000;
}

abbrev pub activity_job : ℕ → String → ℕ → String → ℕ → Job
activity_job workspace_id entity_type entity_id action performed_by = record {
  body = log_activity workspace_id entity_type entity_id action performed_by;
  options = three_attempts 1000;
}

module _ (p : Platform) where
  -- `queue.add`
  unfoldable pub add_job : Job → Io (Unit {0})
  add_job job = writes (λ w. p.enqueue job w.jobs) (λ _. put_job job)

  unfoldable pub audit_log : String → Option ℕ → Json → Io (Unit {0})
  unfolding add_job
  audit_log action user_id payload =
      catching (add_job (audit_job action user_id payload)) (λ _. pure tt)

  unfoldable pub activity_log : ℕ → String → ℕ → String → ℕ → Io (Unit {0})
  unfolding add_job
  activity_log workspace_id entity_type entity_id action performed_by =
      catching (add_job (activity_job workspace_id entity_type entity_id action performed_by))
        (λ _. pure tt)
