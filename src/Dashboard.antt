-- ===== src/Dashboard.antt =====
-- src/modules/workspace/dashboard.controller.ts: the summary of a workspace. Each query is what
-- PostgreSQL makes of the tables; one that rejects ends the request with no state changed.
pub mod Grouping
pub mod Counts
pub mod Tests
use task_scheduling_platform.Base.{
  ℕ, zero, suc, String, Bool, true, false, not, ◌&&◌, ◌==◌, ◌+◌, ◌*◌, ◌<◌, ◌≤◌, ◌≡◌, Option, none,
  some, List, [], ◌∷◌, ◌++◌, length, select, ltb, leb, str_eq, is_some, if◌then◌else◌,
}
use task_scheduling_platform.Platform.Entities.{Task, User, Project}
use task_scheduling_platform.Platform.Io.{World}

-- The groups of `GROUP BY`, with the size of each.
abbrev pub Groups : Type 0
Groups = List (String × ℕ)

unfoldable pub bump : String → Groups → Groups
bump k [] = (k, 1) ∷ []
bump k ((j, n) ∷ rest) = if str_eq j k then (j, suc n) ∷ rest else (j, n) ∷ bump k rest

unfoldable pub group_by : (Task → String) → List Task → Groups
unfolding bump
group_by key [] = []
group_by key (t ∷ ts) = bump (key t) (group_by key ts)

-- `"workspaceId" = $1 AND "deletedAt" IS NULL`
abbrev pub is_live : ℕ → Task → Bool
is_live workspace_id t = t.workspace_id == workspace_id && not (is_some t.deleted_at)

abbrev pub is_done : Task → Bool
is_done t = str_eq t.status "DONE"

-- A comparison with a date that is NULL does not hold.
abbrev pub due_before : ℕ → Option ℕ → Bool
due_before now none = false
due_before now (some due) = ltb due now

abbrev pub due_between : ℕ → ℕ → Option ℕ → Bool
due_between from to none = false
due_between from to (some due) = leb from due && leb due to

-- INTERVAL '7 days'
abbrev pub seven_days : ℕ
seven_days = 604800000

abbrev pub live_tasks : ℕ → List Task → List Task
live_tasks workspace_id tasks = select (is_live workspace_id) tasks

unfoldable pub overdue_tasks : (workspace_id now : ℕ) → List Task → List Task
overdue_tasks workspace_id now tasks =
    select (λ t. due_before now t.due_date && not (is_done t)) (live_tasks workspace_id tasks)

unfoldable pub upcoming_tasks : (workspace_id now : ℕ) → List Task → List Task
upcoming_tasks workspace_id now tasks =
    select (λ t. due_between now (now + seven_days) t.due_date && not (is_done t))
      (live_tasks workspace_id tasks)

-- A user with how many tasks they completed.
pub record Productivity : Type 0 where
  pub user_id : ℕ
  pub name : String
  pub avatar : Option String
  pub completed : ℕ

-- `t."assignedTo" = u.id`, which NULL does not fit
abbrev pub is_assigned : ℕ → Task → Bool
is_assigned user_id t = elim t.assigned_to [ none ↦ false | some a ↦ a == user_id ]

abbrev pub productivity_of : ℕ → List Task → User → Productivity
productivity_of workspace_id tasks u = record {
  user_id = u.id;
  name = u.name;
  avatar = u.avatar;
  completed =
      length (select (λ t. is_assigned u.id t && is_done t) (live_tasks workspace_id tasks));
}

-- In descending order of the count.
abbrev pub insert_by_count : Productivity → List Productivity → List Productivity
insert_by_count x [] = x ∷ []
insert_by_count x (y ∷ ys) =
    if leb y.completed x.completed then x ∷ y ∷ ys else y ∷ insert_by_count x ys

-- A user with no such task is in no group.
unfoldable pub member_productivity : ℕ → List Task → List User → List Productivity
member_productivity workspace_id tasks [] = []
member_productivity workspace_id tasks (u ∷ users) =
    let rest = member_productivity workspace_id tasks users in
    let row = productivity_of workspace_id tasks u in
    if row.completed == 0 then rest else insert_by_count row rest

-- The loop over the groups: the sum of all, and the last one of DONE.
unfoldable pub add_groups : Groups → (total completed : ℕ) → ℕ × ℕ
add_groups [] total completed = (total, completed)
add_groups ((status, n) ∷ rest) total completed =
    add_groups rest (total + n) (if str_eq status "DONE" then n else completed)

-- Hundredths of a percent, as `parseFloat(((a / b) * 100).toFixed(2))` gives them: the nearest, and
-- either of two that are as near.
pub record Percent : Type 0 where
  pub of : ℕ → ℕ → ℕ
  pub above : (a b : ℕ) → 0 < b → 2 * (b * of a b) ≤ 2 * (a * 10000) + b
  pub below : (a b : ℕ) → 0 < b → 2 * (a * 10000) ≤ 2 * (b * of a b) + b

pub record Summary : Type 0 where
  pub total_tasks : ℕ
  pub completed_tasks : ℕ
  pub overdue : ℕ
  pub upcoming : ℕ
  pub total_projects : ℕ
  pub completion_rate : ℕ
  pub statuses : Groups
  pub priorities : Groups
  pub productivity : List Productivity

unfoldable pub get_summary : Percent → (workspace_id : ℕ) → World → Summary
get_summary percent workspace_id w =
    let live = live_tasks workspace_id w.tasks in
    let statuses = group_by (λ t. t.status) live in
    let (total, completed) = add_groups statuses 0 0 in
    record {
      total_tasks = total;
      completed_tasks = completed;
      overdue = length (overdue_tasks workspace_id w.now w.tasks);
      upcoming = length (upcoming_tasks workspace_id w.now w.tasks);
      total_projects = length (select (λ (r : Project). r.workspace_id == workspace_id) w.projects);
      completion_rate = if ltb 0 total then percent.of completed total else 0;
      statuses = statuses;
      priorities = group_by (λ t. t.priority) live;
      productivity = member_productivity workspace_id w.tasks w.users;
    }
