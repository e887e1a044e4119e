-- ===== src/Subtask/Reach.antt =====
-- What the recursive queries find: the tasks below their start, all of them, and nothing above it.
use task_scheduling_platform.Base.{
  ℕ, suc, zero, Bool, true, some, List, [], ◌∷◌, ◌&&◌, ◌+◌, ◌≤◌, ◌<◌, same_number, select, length,
  ◌≡◌, ◌↔◌, inl, inr, refl, ap, subst, arith, Elem, Elem-append, Elem-append_left,
  Elem-append_right, Elem-select, Elem-select_intro,
}
use task_scheduling_platform.Platform.Entities.{Task}
use task_scheduling_platform.Task.Find.{is_task_of, not_deleted}
use task_scheduling_platform.Subtask.Query.{
  join_round, with_recursive, is_child, rounds, is_subtask_of, descendant_rows, parents_of,
  ancestor_rows,
}

-- `t` is `n` levels below `st`, through live tasks of the table.
pub data Below (table : List Task) : ℕ → Task → Task → Type 0 where
  itself : {t : Task} → Below table 0 t t
  under :
      {n : ℕ} {st u t : Task}
      → Elem u table
      → is_child st u ≡ true
      → not_deleted u ≡ true
      → Below table n u t
      → Below table (suc n) st t

-- The parents of a table form no cycle: a depth grows from parent to child, and the table is at least
-- as long as it is deep.
pub record IsForest (table : List Task) : Type 0 where
  pub depth : Task → ℕ
  pub deeper : (st u : Task) → Elem u table → is_child st u ≡ true → depth st < depth u
  pub bounded : (t : Task) → Elem t table → depth t ≤ length table

abbrev pub UniqueIds : List Task → Type 0
UniqueIds table = (x y : Task) → Elem x table → Elem y table → x.id ≡ y.id → x ≡ y

module _ (table : List Task) where
  joined :
      (last : List Task) (u : Task)
      → Elem u (join_round is_child table last)
      → (st : Task) × Elem st last × Elem u table × (is_child st u ≡ true) × (not_deleted u ≡ true)
  joined [] u h = absurd h
  joined (s ∷ last) u h =
      elim (Elem-append u (select (λ t. is_child s t && not_deleted t) table) _ h) [
        | inl here ↦
            let (listed, both) = Elem-select (λ t. is_child s t && not_deleted t) u table here in
            let split : (b c : Bool) → b && c ≡ true → (b ≡ true) × (c ≡ true) =
              λ b c e. ground arith in
            let (child, live) = split (is_child s u) (not_deleted u) both in
            (s, inl refl, listed, child, live)
        | inr later ↦
            let (st, k, listed, child, live) = joined last u later in
            (st, inr k, listed, child, live)
      ]

  joins :
      (last : List Task) (st u : Task)
      → Elem st last
      → Elem u table
      → is_child st u ≡ true
      → not_deleted u ≡ true
      → Elem u (join_round is_child table last)
  joins [] st u h k c l = absurd h
  joins (s ∷ last) st u (inl e) k c l =
      let both : (b d : Bool) → b ≡ true → d ≡ true → b && d ≡ true = λ b d x y. ground arith in
      let child : is_child s u ≡ true = subst (λ z. is_child z u ≡ true) e c in
      Elem-append_left u _ _ (
        Elem-select_intro (λ t. is_child s t && not_deleted t) u table k
          (both (is_child s u) (not_deleted u) child l))
  joins (s ∷ last) st u (inr h) k c l = Elem-append_right u _ _ (joins last st u h k c l)

  with_recursive-Below :
      (n : ℕ) (last : List Task) (t : Task)
      → Elem t (with_recursive n is_child table last)
      → (st : Task) × (k : ℕ) × Elem st last × Below table k st t
  unfolding with_recursive
  with_recursive-Below zero last t h = absurd h
  with_recursive-Below (suc n) last t h = elim (Elem-append t last _ h) [
    | inl here ↦ (t, 0, here, itself)
    | inr later ↦
        let (u, k, found, below) =
          with_recursive-Below n (join_round is_child table last) t later in
        let (st, start, listed, child, live) = joined last u found in
        (st, suc k, start, under listed child live below)
  ]

  Below-with_recursive :
      (n k : ℕ) (last : List Task) (st t : Task)
      → Elem st last
      → Below table k st t
      → k < n
      → Elem t (with_recursive n is_child table last)
  unfolding with_recursive
  Below-with_recursive zero k last st t h below lt = absurd (omega arith)
  Below-with_recursive (suc n) _ last st _ h itself lt = Elem-append_left st last _ h
  Below-with_recursive (suc n) (suc k) last st t h (under {u = u} listed child live below) lt =
      Elem-append_right t last _ (
        Below-with_recursive n k (join_round is_child table last) u t
          (joins last st u h listed child live) below (omega arith))

  module _ (forest : IsForest table) where
    Below-depth : (k : ℕ) (st t : Task) → Below table k st t → forest.depth st + k ≤ forest.depth t
    Below-depth _ st _ itself = omega arith
    Below-depth (suc k) st t (under {u = u} listed child live below) =
        let rest = Below-depth k u t below in
        let step = forest.deeper st u listed child in omega arith

    Below-listed : (k : ℕ) (st t : Task) → Elem st table → Below table k st t → Elem t table
    Below-listed _ st _ h itself = h
    Below-listed (suc k) st t h (under {u = u} listed child live below) =
        Below-listed k u t listed below

    -- The fuel is enough: no chain of live tasks is longer than the rounds.
    Below-rounds : (k : ℕ) (st t : Task) → Elem st table → Below table k st t → k < rounds table
    Below-rounds k st t h below =
        let deep = Below-depth k st t below in
        let bound = forest.bounded t (Below-listed k st t h below) in omega arith

  -- `getDescendants` answers with exactly the tasks below the task: its live subtasks in the
  -- workspace and, at any depth, the live tasks under them, where the parents form no cycle.
  pub descendant_rows_iff :
      (task_id workspace_id : ℕ)
      → IsForest table
      → (t : Task)
      → Elem t (descendant_rows task_id workspace_id table) ↔ (
          (st : Task) × (k : ℕ) × Elem st table
          × (is_subtask_of task_id workspace_id st ≡ true)
          × Below table k st t)
  descendant_rows_iff task_id workspace_id forest t = (
    λ h.
        let (st, k, start, below) =
          with_recursive-Below (rounds table) (select (is_subtask_of task_id workspace_id) table) t
            h in
        let (listed, is) = Elem-select (is_subtask_of task_id workspace_id) st table start in
        (st, k, listed, is, below),
    λ h.
        let (st, k, listed, is, below) = h in
        Below-with_recursive (rounds table) k _ st t
          (Elem-select_intro (is_subtask_of task_id workspace_id) st table listed is) below
          (Below-rounds forest k st t listed below),
  )

  parents_of-Elem :
      (cs : List Task) (q : Task)
      → Elem q (parents_of cs table)
      → (c : Task) × Elem c cs × Elem q table × (is_child q c ≡ true)
  parents_of-Elem [] q h = absurd h
  parents_of-Elem (c ∷ cs) q h =
      elim (Elem-append q
        (select (λ t. same_number (some t.id) c.parent_task_id && not_deleted t) table) _ h) [
          | inl here ↦
              let (listed, both) =
                Elem-select (λ t. same_number (some t.id) c.parent_task_id && not_deleted t) q table
                  here in
              (c, inl refl, listed, ground arith)
          | inr later ↦
              let (d, k, listed, child) = parents_of-Elem cs q later in (d, inr k, listed, child)
        ]

  -- `getAncestors` answers with the parent of the task and tasks below that, and so never with a
  -- grandparent: where ids are unique and the parents form no cycle, the parent of the parent of the
  -- task is not among its rows.
  pub ancestor_rows_miss :
      (task_id workspace_id : ℕ) (c q g : Task)
      → IsForest table
      → UniqueIds table
      → Elem c table
      → is_task_of task_id workspace_id c ≡ true
      → Elem q table
      → is_child q c ≡ true
      → is_child g q ≡ true
      → ¬ (Elem g (ancestor_rows task_id workspace_id table))
  ancestor_rows_miss task_id workspace_id c q g forest unique c_in is_c q_in qc gq h =
      let (q', k, start, below) =
        with_recursive-Below (rounds table)
          (parents_of (select (is_task_of task_id workspace_id) table) table) g h in
      let (c', found, q'_in, q'c') =
        parents_of-Elem (select (is_task_of task_id workspace_id) table) q' start in
      let (c'_in, is_c') = Elem-select (is_task_of task_id workspace_id) c' table found in
      let same_c : c' ≡ c = unique c' c c'_in c_in (ground arith) in
      let q'c : is_child q' c ≡ true = subst (λ z. is_child q' z ≡ true) same_c q'c' in
      let same_q : q' ≡ q = unique q' q q'_in q_in (ground arith) in
      let deep = Below-depth forest k q' g below in
      let above = forest.deeper g q q_in gq in let level = ap forest.depth same_q in omega arith
