-- ===== src/Queue/Laws.antt =====
-- Logging never throws and changes nothing but the jobs: the job is appended if the queue takes it.
use task_scheduling_platform.Base.{
  ℕ, String, Option, List, [], ◌∷◌, ◌++◌, ◌≡◌, ◌⊎◌, inl, inr, refl, arith,
}
use task_scheduling_platform.Platform.Entities.{Json}
use task_scheduling_platform.Platform.Io.{World, Job, Result-cases, ok}
use task_scheduling_platform.Platform.Drivers.{Platform}
use task_scheduling_platform.Queue.{audit_job, activity_job, audit_log, activity_log}

abbrev pub put_jobs : List Job → World → World
put_jobs js w = record w { jobs = js }

-- The jobs after a job was offered to a queue.
abbrev pub Offered : List Job → Job → List Job → Type 0
Offered before job after = (after ≡ before) ⊎ (after ≡ before ++ job ∷ [])

module _ (p : Platform) where
  pub audit_log_sound :
      (action : String) (user_id : Option ℕ) (payload : Json) (w : World)
      → (js : List Job) × (audit_log p action user_id payload w ≡ (ok tt, put_jobs js w))
        × Offered w.jobs (audit_job action user_id payload) js
  unfolding audit_log
  audit_log_sound action user_id payload w =
      elim (Result-cases (p.enqueue (audit_job action user_id payload) w.jobs)) [
        | inl (_, e) ↦ (w.jobs ++ audit_job action user_id payload ∷ [], ground arith, inr refl)
        | inr (x, e) ↦ (w.jobs, ground arith, inl refl)
      ]

  pub activity_log_sound :
      (workspace_id : ℕ) (entity_type : String) (entity_id : ℕ) (action : String) (performed_by : ℕ)
      (w : World)
      → let job = activity_job workspace_id entity_type entity_id action performed_by in
        (js : List Job) × (activity_log p workspace_id entity_type entity_id action performed_by w
          ≡ (ok tt, put_jobs js w))
        × Offered w.jobs job js
  unfolding activity_log
  activity_log_sound workspace_id entity_type entity_id action performed_by w =
      let job = activity_job workspace_id entity_type entity_id action performed_by in
      elim (Result-cases (p.enqueue job w.jobs)) [
        | inl (_, e) ↦ (w.jobs ++ job ∷ [], ground arith, inr refl)
        | inr (x, e) ↦ (w.jobs, ground arith, inl refl)
      ]
