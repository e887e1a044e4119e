-- ===== src/Dashboard/Tests.antt =====
-- The summary of a small workspace, and the theorem about it.
use task_scheduling_platform.Base.{ℕ, ◌+◌, ◌*◌, ◌/◌, ◌<◌, ◌≤◌, ◌≡◌, length, select, str_eq, arith}
use task_scheduling_platform.Platform.Entities.{Task}
use task_scheduling_platform.Dashboard.{Percent, get_summary, live_tasks, is_done}
use task_scheduling_platform.Dashboard.Grouping.{sum, size}
use task_scheduling_platform.Dashboard.Counts.{get_summary_bounds}
use task_scheduling_platform.Sample.World.{world}

nearest_above :
    (a b : ℕ) → 0 < b → 2 * (b * ((2 * (a * 10000) + b) / (2 * b))) ≤ 2 * (a * 10000) + b
nearest_above a b h = grind arith

nearest_below :
    (a b : ℕ) → 0 < b → 2 * (a * 10000) ≤ 2 * (b * ((2 * (a * 10000) + b) / (2 * b))) + b
nearest_below a b h = grind arith

abbrev nearest : Percent
nearest = record {
  of = λ a b. (2 * (a * 10000) + b) / (2 * b);
  above = nearest_above;
  below = nearest_below;
}

get_summary_bounds_example :
    let s = get_summary nearest 5 world in
    let live = live_tasks 5 world.tasks in
    (s.total_tasks ≡ length live)
    × (sum s.statuses ≡ s.total_tasks)
    × (sum s.priorities ≡ s.total_tasks)
    × (s.completed_tasks ≡ length (select is_done live))
    × (size "TODO" s.statuses ≡ length (select (λ (t : Task). str_eq t.status "TODO") live))
    × (s.overdue + s.upcoming + s.completed_tasks ≤ s.total_tasks)
    × (s.completion_rate ≤ 10000)
get_summary_bounds_example = get_summary_bounds nearest 5 world "TODO"
