-- ===== src/Scheduler/Growth.antt =====
-- What a round of the check may change: it adds reminders and jobs, and nothing else.
use task_scheduling_platform.Base.{
  ℕ, List, [], ◌∷◌, ◌++◌, ◌≡◌, ◌≢◌, ◌⊎◌, inl, inr, refl, sym, ◌∙◌, subst, arith, Elem,
  Elem-append_left, Bool-cases, ◌==◌,
}
use task_scheduling_platform.Platform.Entities.{Task, Reminder}
use task_scheduling_platform.Platform.Io.{World, Job, Result-cases, ok}
use task_scheduling_platform.Platform.Drivers.{Platform}
use task_scheduling_platform.Platform.Laws.{Saves, Identifies}
use task_scheduling_platform.Platform.Loops.{for_each, for_each-keeps}
use task_scheduling_platform.Queue.{add_job}
use task_scheduling_platform.Scheduler.{
  Milestone, is_due, is_reminder_of, was_sent, new_reminder, reminder_job, schedule, remind,
  check_milestone,
}
use task_scheduling_platform.Scheduler.Once.{StoredReminder, reminder_id, schedule_reminders}

-- Rows and jobs are only added, and the tasks and the clock stay.
pub record Grows (w w' : World) : Type 0 where
  pub same_tasks : w'.tasks ≡ w.tasks
  pub same_now : w'.now ≡ w.now
  pub kept : (x : Reminder) → Elem x w.reminders → Elem x w'.reminders
  pub jobs_kept : (j : Job) → Elem j w.jobs → Elem j w'.jobs

pub Grows-refl : (w : World) → Grows w w
Grows-refl w = record { same_tasks = refl; same_now = refl; kept = λ x k. k; jobs_kept = λ j k. k }

pub Grows-trans : (u v w : World) → Grows u v → Grows v w → Grows u w
Grows-trans u v w g h = record {
  same_tasks = h.same_tasks ∙ g.same_tasks;
  same_now = h.same_now ∙ g.same_now;
  kept = λ x k. h.kept x (g.kept x k);
  jobs_kept = λ j k. h.jobs_kept j (g.jobs_kept j k);
}

module _ (p : Platform) where
  schedule-frame :
      (m : Milestone) (t : Task) (w : World)
      → ((schedule p m t w).1.tasks ≡ w.tasks)
        × ((schedule p m t w).1.now ≡ w.now)
        × (((schedule p m t w).1.jobs ≡ w.jobs)
            ⊎ ((j : Job) × ((schedule p m t w).1.jobs ≡ w.jobs ++ j ∷ [])))
  unfolding schedule add_job
  schedule-frame m t w = elim (Result-cases (p.reminders.save (new_reminder t) w.reminders)) [
    | inl ((r, rs), stored) ↦ elim (Result-cases (p.enqueue (reminder_job m t r) w.jobs)) [
      | inl (_, taken) ↦ (ground arith, ground arith, inr (reminder_job m t r, ground arith))
      | inr (x, refused) ↦ (ground arith, ground arith, inl (ground arith))
    ]
    | inr (x, failed) ↦ (ground arith, ground arith, inl (ground arith))
  ]

  -- The ways through `remind`.
  remind-cases :
      (m : Milestone) (t : Task) (w : World)
      → ((remind p m t w).1 ≡ w) ⊎ (remind p m t w ≡ schedule p m t w)
  unfolding remind
  remind-cases m t w = elim (Result-cases (p.reminders.find_one (was_sent t) w.reminders)) [
    | inl (_, e) ↦ elim (Result-cases (p.reminders.count (is_reminder_of t) w.reminders)) [
      | inl (n, f) ↦ elim (Bool-cases (n == 0)) [
        | inl none_yet ↦ inr (ground arith)
        | inr have ↦ inl (ground arith)
      ]
      | inr (x, f) ↦ inl (ground arith)
    ]
    | inr (x, e) ↦ inl (ground arith)
  ]

  -- A round that returns and does nothing has found a reminder.
  pub remind_found :
      (m : Milestone) (t : Task) (w w' : World)
      → remind p m t w ≡ (ok tt, w')
      → ((n : ℕ) × (p.reminders.count (is_reminder_of t) w.reminders ≡ ok n) × (n ≢ 0) × (w' ≡ w))
        ⊎ (schedule p m t w ≡ (ok tt, w'))
  unfolding remind
  remind_found m t w w' h = elim (Result-cases (p.reminders.find_one (was_sent t) w.reminders)) [
    | inl (_, e) ↦ elim (Result-cases (p.reminders.count (is_reminder_of t) w.reminders)) [
      | inl (n, f) ↦ elim (Bool-cases (n == 0)) [
        | inl none_yet ↦ inr (ground arith)
        | inr have ↦ inl (n, f, λ z. ground arith, ground arith)
      ]
      | inr (x, f) ↦ absurd (ground arith)
    ]
    | inr (x, e) ↦ absurd (ground arith)
  ]

  pub schedule-ok :
      (m : Milestone) (t : Task) (w w' : World)
      → schedule p m t w ≡ (ok tt, w')
      → (r : Reminder) × (rs : List Reminder) × (p.reminders.save (new_reminder t) w.reminders
          ≡ ok (r, rs))
        × (w'.reminders ≡ rs)
        × (w'.jobs ≡ w.jobs ++ reminder_job m t r ∷ [])
  unfolding schedule add_job
  schedule-ok m t w w' h = elim (Result-cases (p.reminders.save (new_reminder t) w.reminders)) [
    | inl ((r, rs), stored) ↦ elim (Result-cases (p.enqueue (reminder_job m t r) w.jobs)) [
      | inl (_, taken) ↦ (r, rs, stored, ground arith, ground arith)
      | inr (x, refused) ↦ absurd (ground arith)
    ]
    | inr (x, failed) ↦ absurd (ground arith)
  ]

  pub check_milestone-ok :
      (m : Milestone) (w w' : World)
      → check_milestone p m w ≡ (ok tt, w')
      → (ts : List Task) × (p.tasks.find (is_due m w.now) w.tasks ≡ ok ts)
        × (for_each ts (remind p m) w ≡ (ok tt, w'))
  unfolding check_milestone
  check_milestone-ok m w w' h = elim (Result-cases (p.tasks.find (is_due m w.now) w.tasks)) [
    | inl (ts, e) ↦ (ts, e, ground arith)
    | inr (x, e) ↦ absurd (ground arith)
  ]

module _ (p : Platform) (saves : Saves reminder_id StoredReminder p.reminders)
    (ids : Identifies reminder_id p.reminders) where
  schedule_keeps :
      (m : Milestone) (t : Task) (w : World) (x : Reminder)
      → Elem x w.reminders
      → Elem x (schedule p m t w).1.reminders
  unfolding schedule add_job
  schedule_keeps m t w x k = elim (Result-cases (p.reminders.save (new_reminder t) w.reminders)) [
    | inl ((r, rs), stored) ↦
        let apart = (ids.fresh_id _ r w.reminders rs stored refl).1 x k in
        subst (Elem x) (schedule_reminders p m t w r rs stored)
          (saves.saved_others _ r w.reminders rs stored x k apart)
    | inr (x', failed) ↦
        let after : w.reminders ≡ (schedule p m t w).1.reminders = ground arith in
        subst (Elem x) after k
  ]

  pub schedule-Grows : (m : Milestone) (t : Task) (w : World) → Grows w (schedule p m t w).1
  schedule-Grows m t w =
      let (tasks, now, jobs) = schedule-frame p m t w in
      record {
        same_tasks = tasks;
        same_now = now;
        kept = λ x k. schedule_keeps m t w x k;
        jobs_kept = λ j k. elim jobs [
          | inl same ↦ subst (Elem j) (sym same) k
          | inr (i, same) ↦ subst (Elem j) (sym same) (Elem-append_left j w.jobs (i ∷ []) k)
        ];
      }

  pub remind-Grows : (m : Milestone) (t : Task) (w : World) → Grows w (remind p m t w).1
  remind-Grows m t w = elim (remind-cases p m t w) [
    | inl same ↦ subst (Grows w) (sym same) (Grows-refl w)
    | inr same ↦ subst (λ z. Grows w z.1) (sym same) (schedule-Grows m t w)
  ]

  pub check_milestone-Grows : (m : Milestone) (w : World) → Grows w (check_milestone p m w).1
  unfolding check_milestone
  check_milestone-Grows m w = elim (Result-cases (p.tasks.find (is_due m w.now) w.tasks)) [
    | inl (ts, e) ↦
        let after : (for_each ts (remind p m) w).1 ≡ (check_milestone p m w).1 = ground arith in
        subst (Grows w) after (
          for_each-keeps (Grows w) (remind p m) ts w
            (λ t k v g. Grows-trans w v _ g (remind-Grows m t v)) (Grows-refl w))
    | inr (x, e) ↦
        let after : w ≡ (check_milestone p m w).1 = ground arith in
        subst (Grows w) after (Grows-refl w)
  ]
