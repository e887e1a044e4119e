-- ===== src/Workers/Reminders.antt =====
-- What becomes of a reminder: SENT once it is delivered, FAILED when its delivery throws.
use task_scheduling_platform.Base.{
  ℕ, String, none, some, List, ◌≡◌, ◌≢◌, ◌⊎◌, inl, inr, sym, ap, ◌∙◌, subst, arith, Elem, ◌==◌,
  ◌&&◌,
}
use Prim.Native.String
use task_scheduling_platform.Platform.Entities.{Task, Reminder}
use task_scheduling_platform.Platform.Io.{World, Result, Error, failure, Result-cases, ok, err}
use task_scheduling_platform.Platform.Drivers.{Platform}
use task_scheduling_platform.Platform.Laws.{Updates}
use task_scheduling_platform.Notification.{create_and_send_notification}
use task_scheduling_platform.Notification.Frame.{create_and_send_notification-Framed}
use task_scheduling_platform.Task.Find.{not_deleted}
use task_scheduling_platform.Task.Create.{quoted}
use task_scheduling_platform.Workers.{
  with_status, mark_reminder, notify_due, deliver_reminder, send_reminder,
}

-- Every reminder with the id has the status, and the other ones are as before.
pub record Marked (id : ℕ) (status : String) (before after : List Reminder) : Type 0 where
  pub marked : (x : Reminder) → Elem x after → x.id ≡ id → x.status ≡ status
  pub others_stay : (x : Reminder) → x.id ≢ id → Elem x before → Elem x after
  pub others_only : (x : Reminder) → x.id ≢ id → Elem x after → Elem x before

module _ (p : Platform) (updates : Updates p.reminders) where
  mark_reminder-cases :
      (id : ℕ) (status : String) (w : World)
      → ((mark_reminder p id status w).0 ≡ ok tt)
          × Marked id status w.reminders (mark_reminder p id status w).1.reminders
        ⊎ ((e : Error) × (mark_reminder p id status w ≡ (err e, w)))
  unfolding mark_reminder
  mark_reminder-cases id status w =
      let run = p.reminders.update (λ r. r.id == id) (with_status status) w.reminders in
      elim (Result-cases run) [
        | inl (rs, e) ↦
            let rows : rs ≡ (mark_reminder p id status w).1.reminders = ground arith in
            inl (
              ground arith,
              record {
                marked = λ x k same.
                    let (y, listed, which) =
                      updates.updated_only _ _ w.reminders rs e x (subst (Elem x) (sym rows) k) in
                    elim which [
                      | inl (_, f) ↦ ap (λ z. z.status) f
                      | inr (other, f) ↦ absurd (ground arith)
                    ];
                others_stay = λ x ne k.
                    subst (Elem x) rows (updates.untouched _ _ w.reminders rs e x k (ground arith));
                others_only = λ x ne k.
                    let (y, listed, which) =
                      updates.updated_only _ _ w.reminders rs e x (subst (Elem x) (sym rows) k) in
                    elim which [
                      | inl (hit, f) ↦ absurd (ne (ap (λ z. z.id) f ∙ ground arith))
                      | inr (other, f) ↦ subst (λ z. Elem z w.reminders) (sym f) listed
                    ];
              },
            )
        | inr (x, e) ↦ inr (x, ground arith)
      ]

  -- A step of the worker has marked the reminder, or has thrown and left the reminders alone.
  abbrev Settles : ℕ → (Result (Unit {0}) × World) → List Reminder → Type 0
  Settles id run before =
      ((run.0 ≡ ok tt) × Marked id "SENT" before run.1.reminders)
      ⊎ ((e : Error) × (run.0 ≡ err e) × (run.1.reminders ≡ before))

  notify_due-Settles :
      (id user_id : ℕ) (milestone : String) (t : Task) (w : World)
      → Settles id (notify_due p id user_id milestone t w) w.reminders
  unfolding notify_due
  notify_due-Settles id user_id milestone t w =
      let title = String.◌++◌ "Task Due Soon: " t.title in
      let text = quoted "Reminder: The task \"" t.title (quoted "\" is due in " milestone ".") in
      let sent = create_and_send_notification p user_id "DUE_REMINDER" title text w in
      let framed = create_and_send_notification-Framed p user_id "DUE_REMINDER" title text w in
      let same : sent.1.reminders ≡ w.reminders = cc framed in
      elim (Result-cases sent.0) [
        | inl (n, e) ↦ elim (mark_reminder-cases id "SENT" sent.1) [
          | inl (done, marked) ↦ inl (
            ground arith,
            subst (λ z. Marked id "SENT" z (notify_due p id user_id milestone t w).1.reminders) same
                (subst (Marked id "SENT" sent.1.reminders) (ground arith) marked),
          )
          | inr (x, f) ↦ inr (x, ground arith, ground arith)
        ]
        | inr (x, e) ↦ inr (x, ground arith, ground arith)
      ]

  deliver_reminder-Settles :
      (id task_id user_id : ℕ) (milestone : String) (w : World)
      → Settles id (deliver_reminder p id task_id user_id milestone w) w.reminders
  unfolding deliver_reminder
  deliver_reminder-Settles id task_id user_id milestone w =
      elim (Result-cases (p.tasks.find_one (λ t. t.id == task_id && not_deleted t) w.tasks)) [
        | inl (none, e) ↦ inr (failure "Task not found", ground arith, ground arith)
        | inl (some t, e) ↦
            let same : notify_due p id user_id milestone t w
                ≡ deliver_reminder p id task_id user_id milestone w =
              ground arith in
            subst (λ run. Settles id run w.reminders) same
              (notify_due-Settles id user_id milestone t w)
        | inr (x, e) ↦ inr (x, ground arith, ground arith)
      ]

  -- A reminder job settles its reminder: if the worker returns, every reminder with the id of the job
  -- is SENT; if it throws, so that the queue tries the job again, they are FAILED, or the database
  -- has refused that update too and no reminder has changed. The other reminders are as before.
  pub send_reminder-Marked :
      (id task_id user_id : ℕ) (milestone : String) (w : World)
      → let run = send_reminder p id task_id user_id milestone w in
        ((run.0 ≡ ok tt) × Marked id "SENT" w.reminders run.1.reminders)
        ⊎ ((e : Error) × (run.0 ≡ err e)
            × (Marked id "FAILED" w.reminders run.1.reminders ⊎ (run.1.reminders ≡ w.reminders)))
  unfolding send_reminder
  send_reminder-Marked id task_id user_id milestone w =
      let run = send_reminder p id task_id user_id milestone w in
      let tried = deliver_reminder p id task_id user_id milestone w in
      elim (deliver_reminder-Settles id task_id user_id milestone w) [
        | inl (done, marked) ↦
            let same : tried ≡ run = ground arith in
            inl (ground arith, subst (λ z. Marked id "SENT" w.reminders z.1.reminders) same marked)
        | inr (x, thrown, same) ↦ elim (mark_reminder-cases id "FAILED" tried.1) [
          | inl (done, marked) ↦
              let after : (mark_reminder p id "FAILED" tried.1).1 ≡ run.1 = ground arith in
              let from =
                subst (λ z. Marked id "FAILED" z (mark_reminder p id "FAILED" tried.1).1.reminders)
                  same marked in
              inr (
                x,
                ground arith,
                inl (subst (λ z. Marked id "FAILED" w.reminders z.reminders) after from),
              )
          | inr (y, f) ↦ inr (y, ground arith, inr (ground arith))
        ]
      ]
