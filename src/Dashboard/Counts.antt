-- ===== src/Dashboard/Counts.antt =====
-- What the figures of the summary count.
use task_scheduling_platform.Base.{
  ℕ, String, Bool, not, ◌&&◌, ◌+◌, ◌<◌, ◌≤◌, ◌≡◌, refl, List, [], ◌∷◌, length, select, str_eq,
  if◌then◌else◌, arith, Bool-cases, Option-cases, inl, inr, ltb,
}
use task_scheduling_platform.Platform.Entities.{Task}
use task_scheduling_platform.Platform.Io.{World}
use task_scheduling_platform.Dashboard.{
  is_done, due_before, due_between, seven_days, live_tasks, overdue_tasks, upcoming_tasks, Percent,
  get_summary,
}
use task_scheduling_platform.Dashboard.Grouping.{
  sum, sum-group_by, size, size-group_by, add_groups-group_by,
}

-- A task is not overdue and due soon at once, and neither if it is done.
split_due :
    (now : ℕ) (ts : List Task)
    → length (select (λ t. due_before now t.due_date && not (is_done t)) ts)
        + length (select (λ t. due_between now (now + seven_days) t.due_date && not (is_done t)) ts)
        + length (select is_done ts)
      ≤ length ts
split_due now [] = omega arith
split_due now (t ∷ ts) = elim (Option-cases t.due_date) [
  | inl none_due ↦ rw none_due (ground (arith, split_due now ts))
  | inr (due, is) ↦ rw is (ground (arith, split_due now ts))
]

rate_bounded : (percent : Percent) (c n : ℕ) → 0 < n → c ≤ n → percent.of c n ≤ 10000
rate_bounded percent c n pos le = grind (arith, percent.above c n pos)

length-select : (p : Task → Bool) (ts : List Task) → length (select p ts) ≤ length ts
length-select p [] = omega arith
length-select p (t ∷ ts) = ground (arith, length-select p ts)

rate_or_zero :
    (percent : Percent) (c n : ℕ) → c ≤ n → (if ltb 0 n then percent.of c n else 0) ≤ 10000
rate_or_zero percent c n le = elim (Bool-cases (ltb 0 n)) [
  | inl some_tasks ↦ rw some_tasks (rate_bounded percent c n (ground arith) le)
  | inr nothing ↦ rw nothing (omega arith)
]

-- The summary of a workspace, whatever the tables hold: the total is the number of its live tasks,
-- and so is the sum of the groups by status and of those by priority; the completed tasks are
-- those that are done, and with the overdue and the upcoming ones they are at most the total;
-- each group by status has the size of its status; the completion rate is at most 100 percent.
pub get_summary_bounds :
    (percent : Percent) (workspace_id : ℕ) (w : World) (status : String)
    → let s = get_summary percent workspace_id w in
      let live = live_tasks workspace_id w.tasks in
      (s.total_tasks ≡ length live)
      × (sum s.statuses ≡ s.total_tasks)
      × (sum s.priorities ≡ s.total_tasks)
      × (s.completed_tasks ≡ length (select is_done live))
      × (size status s.statuses ≡ length (select (λ t. str_eq t.status status) live))
      × (s.overdue + s.upcoming + s.completed_tasks ≤ s.total_tasks)
      × (s.completion_rate ≤ 10000)
unfolding get_summary overdue_tasks upcoming_tasks
get_summary_bounds percent workspace_id w status =
    let live = live_tasks workspace_id w.tasks in
    rw (add_groups-group_by live) (
      refl,
      sum-group_by (λ t. t.status) live,
      sum-group_by (λ t. t.priority) live,
      refl,
      size-group_by (λ t. t.status) status live,
      split_due w.now live,
      rate_or_zero percent (length (select is_done live)) (length live)
          (length-select is_done live),
    )
