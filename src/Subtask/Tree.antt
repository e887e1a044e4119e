-- ===== src/Subtask/Tree.antt =====
-- `buildTree`: from the rows of a query to nodes that list their subtasks. A node is an object that
-- others refer to, so that a list of subtasks holds ids, and the map is the store of the objects.
use task_scheduling_platform.Base.{
  ℕ, Bool, false, Option, none, some, List, [], ◌∷◌, ◌++◌, map, ◌==◌, ◌&&◌, any, select,
  if◌then◌else◌, truthy,
}
use task_scheduling_platform.Platform.Entities.{Task}
use task_scheduling_platform.Platform.Io.{Io, asks, ◌>>◌}
use task_scheduling_platform.Subtask.Query.{check_task, tree_rows}

pub record TaskNode : Type 0 where
  pub row : Task
  pub sub_tasks : List ℕ

abbrev pub has_id : ℕ → TaskNode → Bool
has_id id n = n.row.id == id

-- `taskMap.set(task.id, …)`: a key that is there keeps its place.
unfoldable pub set_node : TaskNode → List TaskNode → List TaskNode
set_node n [] = n ∷ []
set_node n (m ∷ ms) = let rest = set_node n ms in if m.row.id == n.row.id then n ∷ ms else m ∷ rest

-- The first loop.
unfoldable pub add_rows : List Task → List TaskNode → List TaskNode
add_rows [] nodes = nodes
add_rows (t ∷ ts) nodes = add_rows ts (set_node (record { row = t; sub_tasks = [] }) nodes)

abbrev pub push_to : (parent child : ℕ) → TaskNode → TaskNode
push_to parent child n =
    if n.row.id == parent then record n { sub_tasks = n.sub_tasks ++ child ∷ [] } else n

-- `if (task.parentTaskId && taskMap.has(task.parentTaskId)) …push(task)`
abbrev pub link_node : TaskNode → List TaskNode → List TaskNode
link_node n nodes = elim n.row.parent_task_id [
  | none ↦ nodes
  | some parent ↦
      if truthy parent && any (has_id parent) nodes
      then map (push_to parent n.row.id) nodes
      else nodes
]

-- The second loop, over the nodes in the order of the map.
unfoldable pub link_nodes : List TaskNode → List TaskNode → List TaskNode
link_nodes [] nodes = nodes
link_nodes (n ∷ ns) nodes = link_nodes ns (link_node n nodes)

-- `if (task.id === rootId) root = task`
unfoldable pub find_root : ℕ → List TaskNode → Option ℕ
find_root root [] = none
find_root root (n ∷ ns) = elim (find_root root ns) [
  | some id ↦ some id
  | none ↦ if n.row.id == root then some n.row.id else none
]

-- The root, and the objects that can be reached from it.
abbrev pub build_tree : List Task → ℕ → Option ℕ × List TaskNode
build_tree rows root =
    let nodes = add_rows rows [] in (find_root root nodes, link_nodes nodes nodes)

unfoldable pub get_task_tree : (task_id workspace_id : ℕ) → Io (Option ℕ × List TaskNode)
get_task_tree task_id workspace_id = do
  check_task task_id workspace_id
  asks (λ w. build_tree (tree_rows task_id workspace_id w.tasks) task_id)

-- A node is a subtask of another one.
abbrev pub is_under : TaskNode → TaskNode → Bool
is_under n c = elim c.row.parent_task_id [
  | none ↦ false
  | some parent ↦ truthy parent && n.row.id == parent
]

abbrev pub ids : List TaskNode → List ℕ
ids ns = map (λ n. n.row.id) ns

-- A node with the nodes of a list that are under it added to its subtasks.
abbrev pub adopt : List TaskNode → TaskNode → TaskNode
adopt ns n = record n { sub_tasks = n.sub_tasks ++ ids (select (is_under n) ns) }
