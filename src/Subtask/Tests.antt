-- ===== src/Subtask/Tests.antt =====
-- Runs of the subtask queries, and their theorems at concrete inputs.
use task_scheduling_platform.Base.{
  ℕ, ◌≡◌, ◌<◌, ◌≤◌, ◌↔◌, ◌⊎◌, refl, sym, ap, ◌∙◌, subst, true, Option, none, some, List, [], ◌∷◌,
  inl, inr, Elem, arith, map,
}
use task_scheduling_platform.Platform.Entities.{Task}
use task_scheduling_platform.Platform.Io.{World, ok}
use task_scheduling_platform.Subtask.Query.{
  with_recursive, is_child, is_subtask_of, descendant_rows, ancestor_rows, check_task,
  get_descendants, get_ancestors,
}
use task_scheduling_platform.Subtask.Tree.{
  TaskNode, set_node, add_rows, link_nodes, find_root, adopt, get_task_tree,
}
use task_scheduling_platform.Subtask.Adoption.{link_nodes-adopt}
use task_scheduling_platform.Subtask.Reach.{
  Below, IsForest, UniqueIds, descendant_rows_iff, ancestor_rows_miss,
}
use task_scheduling_platform.Sample.World.{world, first_task}

runs : Unit {0}
unfolding with_recursive check_task get_descendants get_ancestors set_node add_rows link_nodes
    find_root get_task_tree
runs = tt

abbrev task_numbered : ℕ → Option ℕ → Task
task_numbered id parent = record first_task { id = id; parent_task_id = parent }

abbrev root : Task
root = task_numbered 1 none

abbrev middle : Task
middle = task_numbered 2 (some 1)

abbrev leaf : Task
leaf = task_numbered 3 (some 2)

abbrev table : List Task
table = root ∷ middle ∷ leaf ∷ []

abbrev family : World
family = record world { tasks = table }

descends : (get_descendants 1 5 family).0 ≡ ok (middle ∷ leaf ∷ [])
unfolding runs
descends = refl

-- The path from the leaf should be its parent and the root; it is the parent and the leaf.
ascends : (get_ancestors 3 5 family).0 ≡ ok (middle ∷ leaf ∷ [])
unfolding runs
ascends = refl

builds :
    (get_task_tree 1 5 family).0
    ≡ ok (
      some 1,
      record { row = root; sub_tasks = 2 ∷ [] }
          ∷ record { row = middle; sub_tasks = 3 ∷ [] }
          ∷ record { row = leaf; sub_tasks = [] }
          ∷ [],
    )
unfolding runs
builds = refl

abbrev depth_of : Task → ℕ
depth_of t = t.id

deeper_here : (st u : Task) → Elem u table → is_child st u ≡ true → depth_of st < depth_of u
deeper_here st u (inl e) h = let h' = subst (λ z. is_child st z ≡ true) e h in absurd (ground arith)
deeper_here st u (inr (inl e)) h =
    let h' = subst (λ z. is_child st z ≡ true) e h in let id = ap depth_of e in ground arith
deeper_here st u (inr (inr (inl e))) h =
    let h' = subst (λ z. is_child st z ≡ true) e h in let id = ap depth_of e in ground arith
deeper_here st u (inr (inr (inr k))) h = absurd k

bounded_here : (t : Task) → Elem t table → depth_of t ≤ 3
bounded_here t (inl e) = let id = ap depth_of e in ground arith
bounded_here t (inr (inl e)) = let id = ap depth_of e in ground arith
bounded_here t (inr (inr (inl e))) = let id = ap depth_of e in ground arith
bounded_here t (inr (inr (inr k))) = absurd k

table-IsForest : IsForest table
table-IsForest = record { depth = depth_of; deeper = deeper_here; bounded = bounded_here }

by_id : (x : Task) → Elem x table → x ≡ root ⊎ (x ≡ middle ⊎ x ≡ leaf)
by_id x (inl e) = inl e
by_id x (inr (inl e)) = inr (inl e)
by_id x (inr (inr (inl e))) = inr (inr e)
by_id x (inr (inr (inr k))) = absurd k

table-UniqueIds : UniqueIds table
table-UniqueIds x y k l e = elim (by_id x k) [
  | inl a ↦ elim (by_id y l) [
    | inl b ↦ a ∙ sym b
    | inr (inl b) ↦ let i = ap depth_of a in let j = ap depth_of b in absurd (ground arith)
    | inr (inr b) ↦ let i = ap depth_of a in let j = ap depth_of b in absurd (ground arith)
  ]
  | inr (inl a) ↦ elim (by_id y l) [
    | inl b ↦ let i = ap depth_of a in let j = ap depth_of b in absurd (ground arith)
    | inr (inl b) ↦ a ∙ sym b
    | inr (inr b) ↦ let i = ap depth_of a in let j = ap depth_of b in absurd (ground arith)
  ]
  | inr (inr a) ↦ elim (by_id y l) [
    | inl b ↦ let i = ap depth_of a in let j = ap depth_of b in absurd (ground arith)
    | inr (inl b) ↦ let i = ap depth_of a in let j = ap depth_of b in absurd (ground arith)
    | inr (inr b) ↦ a ∙ sym b
  ]
]

descendant_rows_iff_example : Elem leaf (descendant_rows 1 5 table) ↔ (
    (st : Task) × (k : ℕ) × Elem st table × (is_subtask_of 1 5 st ≡ true) × Below table k st leaf)
descendant_rows_iff_example = descendant_rows_iff table 1 5 table-IsForest leaf

ancestor_rows_miss_example : ¬ (Elem root (ancestor_rows 3 5 table))
ancestor_rows_miss_example =
    ancestor_rows_miss table 3 5 leaf middle root table-IsForest table-UniqueIds
      (inr (inr (inl refl))) refl (inr (inl refl)) refl refl

abbrev nodes : List TaskNode
nodes =
    record { row = root; sub_tasks = [] }
    ∷ record { row = middle; sub_tasks = [] }
    ∷ record { row = leaf; sub_tasks = [] }
    ∷ []

link_nodes-adopt_example : link_nodes nodes nodes ≡ map (adopt nodes) nodes
link_nodes-adopt_example = link_nodes-adopt nodes nodes
