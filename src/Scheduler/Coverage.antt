-- ===== src/Scheduler/Coverage.antt =====
-- Every task that is due is reminded of, and every new reminder is in the queue.
use task_scheduling_platform.Base.{
  ℕ, [], ◌∷◌, none, ◌+◌, ◌-◌, ◌*◌, ◌≤◌, ◌≢◌, eq_iff, true, some, ◌≡◌, ◌⊎◌, inl, inr, refl, sym, ap,
  subst, arith, Elem, Elem-append_right,
}
use task_scheduling_platform.Platform.Entities.{Task, Reminder}
use task_scheduling_platform.Platform.Io.{World, ok}
use task_scheduling_platform.Platform.Drivers.{Platform}
use task_scheduling_platform.Platform.Laws.{Finds, Saves, Identifies}
use task_scheduling_platform.Platform.Loops.{for_each-ok, for_each-relates}
use task_scheduling_platform.Scheduler.{
  Milestone, milestones, is_due, is_reminder_of, new_reminder, reminder_job, schedule, remind,
  check_milestone, check_due_tasks,
}
use task_scheduling_platform.Scheduler.Growth.{
  Grows, Grows-refl, Grows-trans, remind_found, schedule-ok, check_milestone-ok, schedule-Grows,
  remind-Grows, check_milestone-Grows,
}
use task_scheduling_platform.Scheduler.Once.{StoredReminder, reminder_id}

-- A reminder of the task for its due date.
abbrev pub RemindedOf : Task → ℕ → World → Type 0
RemindedOf t due w =
    (r : Reminder) × Elem r w.reminders × (r.task_id ≡ t.id) × (r.scheduled_at ≡ due)

-- Every reminder that is new is a pending one of a task that was due, and is in the queue.
pub record Enqueues (w w' : World) : Type 0 where
  pub grows : Grows w w'
  pub origin :
      (r : Reminder)
      → Elem r w'.reminders
      → Elem r w.reminders
        ⊎ ((m : Milestone) × (t : Task) × Elem t w.tasks
            × (is_due m w.now t ≡ true)
            × StoredReminder (new_reminder t) r
            × Elem (reminder_job m t r) w'.jobs)

Enqueues-refl : (w : World) → Enqueues w w
Enqueues-refl w = record { grows = Grows-refl w; origin = λ r k. inl k }

Enqueues-trans : (u v w : World) → Enqueues u v → Enqueues v w → Enqueues u w
Enqueues-trans u v w g h = record {
  grows = Grows-trans u v w g.grows h.grows;
  origin = λ r k. elim (h.origin r k) [
    | inl old ↦ elim (g.origin r old) [
      | inl older ↦ inl older
      | inr (m, t, listed, due, made, queued) ↦
          inr (m, t, listed, due, made, h.grows.jobs_kept _ queued)
    ]
    | inr (m, t, listed, due, made, queued) ↦ inr (
      m,
      t,
      subst (Elem t) g.grows.same_tasks listed,
      subst (λ n. is_due m n t ≡ true) g.grows.same_now due,
      made,
      queued,
    )
  ];
}

module _ (p : Platform) (saves : Saves reminder_id StoredReminder p.reminders)
    (ids : Identifies reminder_id p.reminders) where
  schedule-Enqueues :
      (m : Milestone) (t : Task) (w w' : World)
      → Elem t w.tasks
      → is_due m w.now t ≡ true
      → schedule p m t w ≡ (ok tt, w')
      → Enqueues w w'
  schedule-Enqueues m t w w' listed due h =
      let (r, rs, stored, rows, jobs) = schedule-ok p m t w w' h in
      record {
        grows = subst (λ z. Grows w z.1) h (schedule-Grows p saves ids m t w);
        origin = λ x k.
            elim (saves.saved_only _ r w.reminders rs stored x (subst (Elem x) rows k)) [
              | inl new ↦ inr (
                m,
                t,
                listed,
                due,
                subst (StoredReminder (new_reminder t)) (sym new)
                    (saves.saved_columns _ r w.reminders rs stored),
                subst (λ z. Elem (reminder_job m t z) w'.jobs) (sym new)
                    (subst (Elem (reminder_job m t r)) (sym jobs)
                      (Elem-append_right (reminder_job m t r) w.jobs _ (inl refl))),
              )
              | inr (old, _) ↦ inl old
            ];
      }

  remind-Enqueues :
      (m : Milestone) (t : Task) (w w' : World)
      → Elem t w.tasks
      → is_due m w.now t ≡ true
      → remind p m t w ≡ (ok tt, w')
      → Enqueues w w'
  remind-Enqueues m t w w' listed due h = elim (remind_found p m t w w' h) [
    | inl (n, _, _, same) ↦ subst (Enqueues w) (sym same) (Enqueues-refl w)
    | inr run ↦ schedule-Enqueues m t w w' listed due run
  ]

  module _ (tasks : Finds p.tasks) where
    check_milestone-Enqueues :
        (m : Milestone) (w w' : World) → check_milestone p m w ≡ (ok tt, w') → Enqueues w w'
    check_milestone-Enqueues m w w' h =
        let (ts, found, run) = check_milestone-ok p m w w' h in
        for_each-relates Enqueues (remind p m) ts w w' Enqueues-refl Enqueues-trans
          (λ t k u v before step.
            let (listed, due) = tasks.all_found _ w.tasks ts found t k in
            remind-Enqueues m t u v (subst (Elem t) (sym before.grows.same_tasks) listed)
              (subst (λ n. is_due m n t ≡ true) (sym before.grows.same_now) due) step)
          run

    -- In a run of the check that returns, every reminder that is new is a pending one, for a stored
    -- task that is due at one of the milestones, and its job is in the reminder queue; the tasks,
    -- the older reminders and the older jobs are as before.
    pub check_due_tasks-Enqueues :
        (w w' : World) → check_due_tasks p w ≡ (ok tt, w') → Enqueues w w'
    unfolding check_due_tasks
    check_due_tasks-Enqueues w w' h =
        for_each-relates Enqueues (check_milestone p) milestones w w' Enqueues-refl Enqueues-trans
          (λ m k u v before step. check_milestone-Enqueues m u v step) h

    module _ (finds : Finds p.reminders) where
      is_reminder_of-eq :
          (t : Task) (r : Reminder) (due : ℕ)
          → t.due_date ≡ some due
          → is_reminder_of t r ≡ true
          → (r.task_id ≡ t.id) × (r.scheduled_at ≡ due)
      is_reminder_of-eq t r due dated h = ground arith

      remind-RemindedOf :
          (m : Milestone) (t : Task) (due : ℕ) (w w' : World)
          → t.due_date ≡ some due
          → remind p m t w ≡ (ok tt, w')
          → RemindedOf t due w'
      remind-RemindedOf m t due w w' dated h = elim (remind_found p m t w w' h) [
        | inl (n, counted, some_yet, same) ↦
            let (r, listed, is) = finds.count_some _ w.reminders n counted some_yet in
            let (task, at) = is_reminder_of-eq t r due dated is in
            (r, subst (λ z. Elem r z.reminders) (sym same) listed, task, at)
        | inr run ↦
            let (r, rs, stored, rows, _) = schedule-ok p m t w w' run in
            let column = saves.saved_columns _ r w.reminders rs stored in
            (
              r,
              subst (Elem r) (sym rows) (saves.saved_elem _ r w.reminders rs stored),
              ap (λ z. z.task_id) column,
              ground arith,
            )
      ]

      check_milestone-RemindedOf :
          (m : Milestone) (t : Task) (due : ℕ) (w w' : World)
          → Elem t w.tasks
          → t.due_date ≡ some due
          → is_due m w.now t ≡ true
          → check_milestone p m w ≡ (ok tt, w')
          → RemindedOf t due w'
      check_milestone-RemindedOf m t due w w' listed dated is h =
          let (ts, found, run) = check_milestone-ok p m w w' h in
          let k = tasks.found_all _ w.tasks ts found t listed is in
          let (u, v, _, step, beyond) =
            for_each-ok Grows (remind p m) ts w w' Grows-refl Grows-trans
              (remind-Grows p saves ids m) run t k in
          let (r, stored, task, at) = remind-RemindedOf m t due u v dated step in
          (r, beyond.kept r stored, task, at)

      milestone_of :
          (hours : ℕ)
          → Elem hours (24 ∷ 12 ∷ 6 ∷ 1 ∷ [])
          → (m : Milestone) × Elem m milestones × (m.hours ≡ hours)
      milestone_of hours (inl e) = (_, inl refl, sym e)
      milestone_of hours (inr (inl e)) = (_, inr (inl refl), sym e)
      milestone_of hours (inr (inr (inl e))) = (_, inr (inr (inl refl)), sym e)
      milestone_of hours (inr (inr (inr (inl e)))) = (_, inr (inr (inr (inl refl))), sym e)
      milestone_of hours (inr (inr (inr (inr k)))) = absurd k

      is_due_lem :
          (m : Milestone) (t : Task) (user due now : ℕ)
          → t.due_date ≡ some due
          → now + (m.hours - 1) * 3600000 ≤ due
          → due ≤ now + m.hours * 3600000
          → t.status ≢ "DONE"
          → t.assigned_to ≡ some user
          → t.deleted_at ≡ none
          → is_due m now t ≡ true
      is_due_lem m t user due now dated from until undone assigned live =
          ground (arith, eq_iff t.status "DONE")

      -- A run of the check that returns leaves a reminder of the task for its due date, for every
      -- task that is assigned, not DONE, not deleted and due in the hour up to 24, 12, 6 or 1 hours
      -- from now: one that was there, of an earlier milestone or pending without a job, or a new one.
      -- A new one is pending and has its job in the reminder queue.
      pub check_due_tasks-RemindedOf :
          (hours : ℕ) (t : Task) (user due : ℕ) (w w' : World)
          → Elem hours (24 ∷ 12 ∷ 6 ∷ 1 ∷ [])
          → Elem t w.tasks
          → t.due_date ≡ some due
          → w.now + (hours - 1) * 3600000 ≤ due
          → due ≤ w.now + hours * 3600000
          → t.status ≢ "DONE"
          → t.assigned_to ≡ some user
          → t.deleted_at ≡ none
          → check_due_tasks p w ≡ (ok tt, w')
          → RemindedOf t due w' × Enqueues w w'
      unfolding check_due_tasks
      check_due_tasks-RemindedOf hours t user due w w' in_list listed dated from until undone
            assigned live h =
          let (m, at_milestone, same) = milestone_of hours in_list in
          let (u, v, before, step, beyond) =
            for_each-ok Grows (check_milestone p) milestones w w' Grows-refl Grows-trans
              (check_milestone-Grows p saves ids) h m at_milestone in
          let due_now : is_due m w.now t ≡ true =
            is_due_lem m t user due w.now dated
              (subst (λ n. w.now + (n - 1) * 3600000 ≤ due) (sym same) from)
              (subst (λ n. due ≤ w.now + n * 3600000) (sym same) until) undone assigned live in
          let (r, stored, task, at) =
            check_milestone-RemindedOf m t due u v (subst (Elem t) (sym before.same_tasks) listed)
              dated (subst (λ n. is_due m n t ≡ true) (sym before.same_now) due_now) step in
          ((r, beyond.kept r stored, task, at), check_due_tasks-Enqueues w w' h)
