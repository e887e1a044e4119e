-- ===== src/Workers/Logs.antt =====
-- From a service's call to the row: a log that a queue has taken is stored when its job is processed.
use task_scheduling_platform.Base.{
  ℕ, String, Option, List, [], ◌∷◌, ◌++◌, ◌≡◌, inl, inr, refl, sym, subst, arith, Elem,
  Elem-append_right,
}
use task_scheduling_platform.Platform.Entities.{AuditLog, Json}
use task_scheduling_platform.Platform.Io.{World, Result-cases, ok}
use task_scheduling_platform.Platform.Drivers.{Platform}
use task_scheduling_platform.Platform.Laws.{Saves, Identifies}
use task_scheduling_platform.Queue.{audit_log, audit_job, add_job}
use task_scheduling_platform.Workers.{new_audit, persist_audit, process}

abbrev pub StoredAudit : AuditLog → AuditLog → Type 0
StoredAudit e r = r ≡ record e { id = r.id; created_at = r.created_at }

abbrev pub audit_id : AuditLog → ℕ
audit_id a = a.id

module _ (p : Platform) (saves : Saves audit_id StoredAudit p.audit_logs)
    (ids : Identifies audit_id p.audit_logs) where
  persist_audit-ok :
      (action : String) (user_id : Option ℕ) (payload : Json) (w w' : World)
      → persist_audit p action user_id payload w ≡ (ok tt, w')
      → (r : AuditLog) × (ls : List AuditLog) × (p.audit_logs.save
            (new_audit action user_id payload)
            w.audit_logs
          ≡ ok (r, ls))
        × (w'.audit_logs ≡ ls)
  unfolding persist_audit
  persist_audit-ok action user_id payload w w' h =
      elim (Result-cases (p.audit_logs.save (new_audit action user_id payload) w.audit_logs)) [
        | inl ((r, ls), stored) ↦ (r, ls, stored, ground arith)
        | inr (x, failed) ↦ absurd (ground arith)
      ]

  audit_log_enqueues :
      (action : String) (user_id : Option ℕ) (payload : Json) (w : World)
      → p.enqueue (audit_job action user_id payload) w.jobs ≡ ok tt
      → Elem (audit_job action user_id payload) (audit_log p action user_id payload w).1.jobs
  unfolding audit_log add_job
  audit_log_enqueues action user_id payload w taken =
      let after : w.jobs ++ audit_job action user_id payload ∷ []
          ≡ (audit_log p action user_id payload w).1.jobs =
        ground arith in
      subst (Elem _) after (Elem-append_right _ w.jobs _ (inl refl))

  -- No audit record is lost while the queue takes jobs: a call of the audit service puts a job in
  -- the queue, and wherever a worker processes that job and returns, a new row has the action, the
  -- user and the payload of the call, and the older rows are still there.
  pub audit_log_stores :
      (action : String) (user_id : Option ℕ) (payload : Json) (w v v' : World)
      → p.enqueue (audit_job action user_id payload) w.jobs ≡ ok tt
      → process p (audit_job action user_id payload).body v ≡ (ok tt, v')
      → Elem (audit_job action user_id payload) (audit_log p action user_id payload w).1.jobs
        × ((r : AuditLog) × Elem r v'.audit_logs × StoredAudit (new_audit action user_id payload) r)
        × ((x : AuditLog) → Elem x v.audit_logs → Elem x v'.audit_logs)
  unfolding process
  audit_log_stores action user_id payload w v v' taken h =
      let (r, ls, stored, rows) = persist_audit-ok action user_id payload v v' h in
      (
        audit_log_enqueues action user_id payload w taken,
        (
          r,
          subst (Elem r) (sym rows) (saves.saved_elem _ r _ ls stored),
          saves.saved_columns _ r _ ls stored,
        ),
        λ x k.
            subst (Elem x) (sym rows)
              (saves.saved_others _ r _ ls stored x k ((ids.fresh_id _ r _ ls stored refl).1 x k)),
      )
