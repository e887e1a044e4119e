-- ===== src/Scheduler/Once.antt =====
-- One reminder at most stands for a task and a due date, however often the check runs.
use task_scheduling_platform.Base.{
  ℕ, true, false, some, List, ◌≡◌, inl, inr, sym, ap, ◌∙◌, subst, arith, Elem, Option-cases,
  Bool-cases, ◌==◌,
}
use task_scheduling_platform.Platform.Entities.{Task, Reminder}
use task_scheduling_platform.Platform.Io.{World, Result-cases, ok}
use task_scheduling_platform.Platform.Drivers.{Platform}
use task_scheduling_platform.Platform.Laws.{Finds, Saves}
use task_scheduling_platform.Platform.Loops.{for_each, for_each-keeps}
use task_scheduling_platform.Queue.{add_job}
use task_scheduling_platform.Scheduler.{
  Milestone, milestones, is_due, is_reminder_of, was_sent, new_reminder, schedule, remind,
  check_milestone, check_due_tasks,
}

abbrev pub StoredReminder : Reminder → Reminder → Type 0
StoredReminder e r = r ≡ record e { id = r.id; created_at = r.created_at }

abbrev pub reminder_id : Reminder → ℕ
reminder_id r = r.id

-- Two reminders of one task and one due date are the same.
abbrev pub RemindsOnce : World → Type 0
RemindsOnce w =
    (x y : Reminder)
    → Elem x w.reminders
    → Elem y w.reminders
    → x.task_id ≡ y.task_id
    → x.scheduled_at ≡ y.scheduled_at
    → x.id ≡ y.id

module _ (p : Platform) where
  -- The rows after a reminder was saved, whether or not the queue took its job.
  pub schedule_reminders :
      (m : Milestone) (t : Task) (w : World) (r : Reminder) (rs : List Reminder)
      → p.reminders.save (new_reminder t) w.reminders ≡ ok (r, rs)
      → rs ≡ (schedule p m t w).1.reminders
  unfolding schedule add_job
  schedule_reminders m t w r rs h = ground arith

module _ (p : Platform) (finds : Finds p.reminders)
    (saves : Saves reminder_id StoredReminder p.reminders) where
  schedule-RemindsOnce :
      (m : Milestone) (t : Task) (due : ℕ) (w : World)
      → t.due_date ≡ some due
      → ((x : Reminder) → Elem x w.reminders → is_reminder_of t x ≡ false)
      → RemindsOnce w
      → RemindsOnce (schedule p m t w).1
  unfolding schedule add_job
  schedule-RemindsOnce m t due w dated new once =
      elim (Result-cases (p.reminders.save (new_reminder t) w.reminders)) [
        | inl ((r, rs), stored) ↦
            let column = saves.saved_columns _ r w.reminders rs stored in
            let task : r.task_id ≡ t.id = ap (λ z. z.task_id) column in
            let at : r.scheduled_at ≡ due = ground arith in
            let other : (x : Reminder)
                → Elem x w.reminders
                → x.task_id ≡ r.task_id
                → x.scheduled_at ≡ r.scheduled_at
                → ⊥ =
              λ x k e f. let no = new x k in ground arith in
            let after : rs ≡ (schedule p m t w).1.reminders =
              schedule_reminders p m t w r rs stored in
            λ x y k l e f.
              elim (saves.saved_only _ r w.reminders rs stored x (subst (Elem x) (sym after) k)) [
                | inl x_new ↦
                    elim (saves.saved_only _ r w.reminders rs stored y
                      (subst (Elem y) (sym after) l)) [
                        | inl y_new ↦ ap reminder_id (x_new ∙ sym y_new)
                        | inr (y_old, _) ↦ absurd (
                            other y y_old (sym e ∙ ap (λ z. z.task_id) x_new)
                              (sym f ∙ ap (λ z. z.scheduled_at) x_new))
                      ]
                | inr (x_old, _) ↦
                    elim (saves.saved_only _ r w.reminders rs stored y
                      (subst (Elem y) (sym after) l)) [
                        | inl y_new ↦ absurd (
                            other x x_old (e ∙ ap (λ z. z.task_id) y_new)
                              (f ∙ ap (λ z. z.scheduled_at) y_new))
                        | inr (y_old, _) ↦ once x y x_old y_old e f
                      ]
              ]
        | inr (x', failed) ↦
            let after : w ≡ (schedule p m t w).1 = ground arith in subst RemindsOnce after once
      ]

  remind-RemindsOnce :
      (m : Milestone) (t : Task) (due : ℕ) (w : World)
      → t.due_date ≡ some due
      → RemindsOnce w
      → RemindsOnce (remind p m t w).1
  unfolding remind
  remind-RemindsOnce m t due w dated once =
      elim (Result-cases (p.reminders.find_one (was_sent t) w.reminders)) [
        | inl (_, e) ↦ elim (Result-cases (p.reminders.count (is_reminder_of t) w.reminders)) [
          | inl (n, f) ↦ elim (Bool-cases (n == 0)) [
            | inl none_yet ↦
                let zero : n ≡ 0 = ground arith in
                let new = finds.count_zero _ w.reminders (f ∙ ap ok zero) in
                let after : (schedule p m t w).1 ≡ (remind p m t w).1 = ground arith in
                subst RemindsOnce after (schedule-RemindsOnce m t due w dated new once)
            | inr have ↦
                let after : w ≡ (remind p m t w).1 = ground arith in subst RemindsOnce after once
          ]
          | inr (x, f) ↦
              let after : w ≡ (remind p m t w).1 = ground arith in subst RemindsOnce after once
        ]
        | inr (x, e) ↦
            let after : w ≡ (remind p m t w).1 = ground arith in subst RemindsOnce after once
      ]

  module _ (tasks : Finds p.tasks) where
    is_due-dated :
        (m : Milestone) (now : ℕ) (t : Task)
        → is_due m now t ≡ true
        → (due : ℕ) × (t.due_date ≡ some due)
    is_due-dated m now t h = elim (Option-cases t.due_date) [
      | inl missing ↦ absurd (ground arith)
      | inr found ↦ found
    ]

    check_milestone-RemindsOnce :
        (m : Milestone) (w : World) → RemindsOnce w → RemindsOnce (check_milestone p m w).1
    unfolding check_milestone
    check_milestone-RemindsOnce m w once =
        elim (Result-cases (p.tasks.find (is_due m w.now) w.tasks)) [
          | inl (ts, e) ↦
              let after : (for_each ts (remind p m) w).1 ≡ (check_milestone p m w).1 =
                ground arith in
              subst RemindsOnce after (
                for_each-keeps RemindsOnce (remind p m) ts w
                  (λ t k v h.
                    let (_, due) = tasks.all_found _ w.tasks ts e t k in
                    let (d, dated) = is_due-dated m w.now t due in
                    remind-RemindsOnce m t d v dated h)
                  once)
          | inr (x, e) ↦
              let after : w ≡ (check_milestone p m w).1 = ground arith in
              subst RemindsOnce after once
        ]

    -- A run of the check, whether it returns or throws, leaves at most one reminder for a task and a
    -- due date if there was at most one before. So the four milestones of a task do not give four
    -- reminders, as the code's comments have it: the first that is met keeps the later from giving
    -- any.
    pub check_due_tasks-RemindsOnce :
        (w : World) → RemindsOnce w → RemindsOnce (check_due_tasks p w).1
    unfolding check_due_tasks
    check_due_tasks-RemindsOnce w once =
        for_each-keeps RemindsOnce (check_milestone p) milestones w
          (λ m k. check_milestone-RemindsOnce m) once
