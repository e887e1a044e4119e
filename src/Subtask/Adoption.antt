-- ===== src/Subtask/Adoption.antt =====
-- The two loops of `buildTree` against what they are for: every node lists the nodes under it.
use task_scheduling_platform.Base.{
  ℕ, true, false, some, List, [], ◌∷◌, ◌++◌, map, ◌==◌, any, select, if◌then◌else◌, truthy, ◌≡◌,
  refl, sym, ap, ◌∙◌, arith, inl, inr, Bool-cases, Option-cases,
}
use mathlib.Core.List.{map-map, append-nil, append_assoc}
use task_scheduling_platform.Subtask.Tree.{
  TaskNode, has_id, push_to, link_node, link_nodes, is_under, ids, adopt,
}

module _ {A B : Type 0} where
  map_same : (f g : A → B) (xs : List A) → ((x : A) → f x ≡ g x) → map f xs ≡ map g xs
  map_same f g [] h = refl
  map_same f g (x ∷ xs) h = λ i. h x i ∷ map_same f g xs h i

map_none :
    (parent child : ℕ) (ns : List TaskNode)
    → any (has_id parent) ns ≡ false
    → map (push_to parent child) ns ≡ ns
map_none parent child [] h = refl
map_none parent child (n ∷ ns) h = elim (Bool-cases (n.row.id == parent)) [
  | inl hit ↦ absurd (ground arith)
  | inr miss ↦ rw (miss, map_none parent child ns (ground arith)) refl
]

map_id : (f : TaskNode → TaskNode) (ns : List TaskNode) → ((n : TaskNode) → f n ≡ n) → map f ns ≡ ns
map_id f [] h = refl
map_id f (n ∷ ns) h = λ i. h n i ∷ map_id f ns h i

adopts_one :
    (c n : TaskNode) (ns : List TaskNode)
    → is_under n c ≡ true
    → select (is_under n) (c ∷ ns) ≡ c ∷ select (is_under n) ns
adopts_one c n ns h = ap (λ b. if b then c ∷ select (is_under n) ns else select (is_under n) ns) h

adopts_none :
    (c n : TaskNode) (ns : List TaskNode)
    → is_under n c ≡ false
    → select (is_under n) (c ∷ ns) ≡ select (is_under n) ns
adopts_none c n ns h = ap (λ b. if b then c ∷ select (is_under n) ns else select (is_under n) ns) h

adopt_none : (c n : TaskNode) → is_under n c ≡ false → adopt (c ∷ []) n ≡ n
adopt_none c n h =
    ap (λ l. record n { sub_tasks = n.sub_tasks ++ ids l }) (adopts_none c n [] h)
    ∙ ap (λ l. record n { sub_tasks = l }) (append-nil n.sub_tasks)

adopt_one :
    (c n : TaskNode) (parent : ℕ)
    → c.row.parent_task_id ≡ some parent
    → truthy parent ≡ true
    → push_to parent c.row.id n ≡ adopt (c ∷ []) n
adopt_one c n parent has real = elim (Bool-cases (n.row.id == parent)) [
  | inl hit ↦
      let under : is_under n c ≡ true = ground arith in
      let pushed : push_to parent c.row.id n
          ≡ record n { sub_tasks = n.sub_tasks ++ c.row.id ∷ [] } =
        ap (λ b. if b then record n { sub_tasks = n.sub_tasks ++ c.row.id ∷ [] } else n) hit in
      pushed
      ∙ sym (ap (λ l. record n { sub_tasks = n.sub_tasks ++ ids l }) (adopts_one c n [] under))
  | inr miss ↦
      let other : is_under n c ≡ false = ground arith in
      let kept : push_to parent c.row.id n ≡ n =
        ap (λ b. if b then record n { sub_tasks = n.sub_tasks ++ c.row.id ∷ [] } else n) miss in
      kept ∙ sym (adopt_none c n other)
]

adopt_more :
    (c : TaskNode) (ns : List TaskNode) (n : TaskNode)
    → adopt ns (adopt (c ∷ []) n) ≡ adopt (c ∷ ns) n
adopt_more c ns n = elim (Bool-cases (is_under n c)) [
  | inl under ↦
      let one = ap (λ l. record n { sub_tasks = n.sub_tasks ++ ids l }) (adopts_one c n [] under) in
      ap (adopt ns) one
      ∙ ap (λ l. record n { sub_tasks = l })
          (append_assoc n.sub_tasks (c.row.id ∷ []) (ids (select (is_under n) ns)))
      ∙ sym (ap (λ l. record n { sub_tasks = n.sub_tasks ++ ids l }) (adopts_one c n ns under))
  | inr other ↦
      ap (adopt ns) (adopt_none c n other)
      ∙ sym (ap (λ l. record n { sub_tasks = n.sub_tasks ++ ids l }) (adopts_none c n ns other))
]

link_node-adopt :
    (c : TaskNode) (nodes : List TaskNode) → link_node c nodes ≡ map (adopt (c ∷ [])) nodes
link_node-adopt c nodes = elim (Option-cases c.row.parent_task_id) [
  | inl root ↦
      let none_here : (n : TaskNode) → is_under n c ≡ false = λ n. ground arith in
      let same : link_node c nodes ≡ nodes = ground arith in
      same ∙ sym (map_id (adopt (c ∷ [])) nodes (λ n. adopt_none c n (none_here n)))
  | inr (parent, has) ↦ elim (Bool-cases (truthy parent)) [
    | inl real ↦ elim (Bool-cases (any (has_id parent) nodes)) [
      | inl there ↦
          let linked : link_node c nodes ≡ map (push_to parent c.row.id) nodes = ground arith in
          linked ∙ map_same _ _ nodes (λ n. adopt_one c n parent has real)
      | inr gone ↦
          let same : link_node c nodes ≡ nodes = ground arith in
          same
          ∙ sym (map_none parent c.row.id nodes gone)
          ∙ map_same _ _ nodes (λ n. adopt_one c n parent has real)
    ]
    | inr empty ↦
        let none_here : (n : TaskNode) → is_under n c ≡ false = λ n. ground arith in
        let same : link_node c nodes ≡ nodes = ground arith in
        same ∙ sym (map_id (adopt (c ∷ [])) nodes (λ n. adopt_none c n (none_here n)))
  ]
]

-- The second loop makes every node list the nodes of the map that are under it, in their order: a
-- node is listed by its parent, where the map has it, and by no other node.
pub link_nodes-adopt : (ns nodes : List TaskNode) → link_nodes ns nodes ≡ map (adopt ns) nodes
unfolding link_nodes
link_nodes-adopt [] nodes =
    sym
      (map_id (adopt []) nodes (λ n. ap (λ l. record n { sub_tasks = l }) (append-nil n.sub_tasks)))
link_nodes-adopt (c ∷ ns) nodes =
    link_nodes-adopt ns (link_node c nodes)
    ∙ ap (map (adopt ns)) (link_node-adopt c nodes)
    ∙ map-map (adopt ns) (adopt (c ∷ [])) nodes
    ∙ map_same _ _ nodes (adopt_more c ns)
