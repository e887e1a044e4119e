-- ===== src/Subtask/Query.antt =====
-- The recursive queries. PostgreSQL evaluates WITH RECURSIVE by rounds: each joins the table with the
-- rows of the last round, until a round finds none; the rows of all rounds are the answer. The
-- queries order their answer, which is left out here. A query on a database that is up answers.
use task_scheduling_platform.Base.{
  ℕ, suc, zero, Bool, some, List, [], ◌∷◌, ◌++◌, ◌==◌, ◌&&◌, is_empty, same_number, select, length,
}
use task_scheduling_platform.Platform.Entities.{Task}
use task_scheduling_platform.Platform.Io.{Io, not_found, asks, throw_if, ◌>>=◌, ◌>>◌}
use task_scheduling_platform.Task.Find.{is_task_of, not_deleted}

-- One round: the rows of the table that the join condition ties to a row of the last round.
abbrev pub join_round : (Task → Task → Bool) → List Task → List Task → List Task
join_round on table [] = []
join_round on table (st ∷ last) =
    select (λ t. on st t && not_deleted t) table ++ join_round on table last

-- The rounds, at most as many as the fuel. A round whose rows are none adds nothing, and nor do the
-- later ones.
unfoldable pub with_recursive : ℕ → (Task → Task → Bool) → List Task → List Task → List Task
with_recursive zero on table last = []
with_recursive (suc n) on table last = last ++ with_recursive n on table (join_round on table last)

-- `t."parentTaskId" = st.id`
abbrev pub is_child : Task → Task → Bool
is_child st t = same_number t.parent_task_id (some st.id)

-- A table without cycles has no more rounds than rows.
abbrev pub rounds : List Task → ℕ
rounds table = suc (length table)

-- The tree of `getTaskTree`, the task included.
abbrev pub tree_rows : (task_id workspace_id : ℕ) → List Task → List Task
tree_rows task_id workspace_id table =
    with_recursive (rounds table) is_child table (select (is_task_of task_id workspace_id) table)

-- `"parentTaskId" = $1 AND "workspaceId" = $2 AND "deletedAt" IS NULL`
abbrev pub is_subtask_of : (task_id workspace_id : ℕ) → Task → Bool
is_subtask_of task_id workspace_id t =
    same_number t.parent_task_id (some task_id) && t.workspace_id == workspace_id && not_deleted t

abbrev pub descendant_rows : (task_id workspace_id : ℕ) → List Task → List Task
descendant_rows task_id workspace_id table =
    with_recursive (rounds table) is_child table (select (is_subtask_of task_id workspace_id) table)

-- The live tasks whose id is the parent id of one of the tasks given.
abbrev pub parents_of : List Task → List Task → List Task
parents_of [] table = []
parents_of (c ∷ cs) table =
    select (λ t. same_number (some t.id) c.parent_task_id && not_deleted t) table
    ++ parents_of cs table

-- The query of `getAncestors` starts at the parent, and joins on `ta.id = t."parentTaskId"`.
abbrev pub ancestor_rows : (task_id workspace_id : ℕ) → List Task → List Task
ancestor_rows task_id workspace_id table =
    with_recursive (rounds table) is_child table
      (parents_of (select (is_task_of task_id workspace_id) table) table)

-- `taskCheck.length === 0`
unfoldable pub check_task : (task_id workspace_id : ℕ) → Io (Unit {0})
check_task task_id workspace_id = do
  found ← asks (λ w. select (is_task_of task_id workspace_id) w.tasks)
  throw_if (is_empty found) (not_found "Task not found in this workspace")

unfoldable pub get_descendants : (task_id workspace_id : ℕ) → Io (List Task)
get_descendants task_id workspace_id = do
  check_task task_id workspace_id
  asks (λ w. descendant_rows task_id workspace_id w.tasks)

unfoldable pub get_ancestors : (task_id workspace_id : ℕ) → Io (List Task)
get_ancestors task_id workspace_id = do
  check_task task_id workspace_id
  asks (λ w. ancestor_rows task_id workspace_id w.tasks)
