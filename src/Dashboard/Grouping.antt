-- ===== src/Dashboard/Grouping.antt =====
-- What the groups of a query add up to.
use task_scheduling_platform.Base.{
  ℕ, suc, String, Bool, true, false, ◌||◌, ◌+◌, ◌≡◌, refl, List, [], ◌∷◌, length, select, str_eq,
  eq_iff, if◌then◌else◌, arith, Bool-cases, inl, inr, ap, sym, ◌∙◌,
}
use task_scheduling_platform.Platform.Entities.{Task}
use task_scheduling_platform.Dashboard.{Groups, bump, group_by, add_groups}

abbrev pub sum : Groups → ℕ
sum [] = 0
sum ((_, n) ∷ rest) = n + sum rest

-- The size of a group, and whether there is one.
abbrev pub size : String → Groups → ℕ
size k [] = 0
size k ((j, n) ∷ rest) = if str_eq j k then n else size k rest

abbrev has : String → Groups → Bool
has k [] = false
has k ((j, _) ∷ rest) = str_eq j k || has k rest

-- No two groups have one key.
abbrev pub Distinct : Groups → Type 0
Distinct [] = Unit {0}
Distinct ((j, _) ∷ rest) = (has j rest ≡ false) × Distinct rest

sum-bump : (k : String) (g : Groups) → sum (bump k g) ≡ suc (sum g)
unfolding bump
sum-bump k [] = refl
sum-bump k ((j, n) ∷ rest) = ground (arith, sum-bump k rest)

pub sum-group_by : (key : Task → String) (ts : List Task) → sum (group_by key ts) ≡ length ts
unfolding group_by
sum-group_by key [] = refl
sum-group_by key (t ∷ ts) = omega (arith, sum-bump (key t) (group_by key ts), sum-group_by key ts)

size-bump :
    (k i : String) (g : Groups)
    → size i (bump k g) ≡ (if str_eq k i then suc (size i g) else size i g)
unfolding bump
size-bump k i [] = ground arith
size-bump k i ((j, n) ∷ rest) =
    ground (arith, eq_iff j k, eq_iff k i, eq_iff j i, size-bump k i rest)

pub size-group_by :
    (key : Task → String) (i : String) (ts : List Task)
    → size i (group_by key ts) ≡ length (select (λ t. str_eq (key t) i) ts)
unfolding group_by
size-group_by key i [] = refl
size-group_by key i (t ∷ ts) =
    ground (arith, size-bump (key t) i (group_by key ts), size-group_by key i ts)

has-bump : (k i : String) (g : Groups) → has i (bump k g) ≡ (str_eq k i || has i g)
unfolding bump
has-bump k i [] = ground arith
has-bump k i ((j, n) ∷ rest) = ground (arith, eq_iff j k, eq_iff k i, eq_iff j i, has-bump k i rest)

Distinct-bump : (k : String) (g : Groups) → Distinct g → Distinct (bump k g)
unfolding bump
Distinct-bump k [] d = (refl, tt)
Distinct-bump k ((j, n) ∷ rest) d = elim (Bool-cases (str_eq j k)) [
  | inl here ↦ rw here d
  | inr there ↦
      rw there (ground (arith, has-bump k j rest, eq_iff k j, eq_iff j k), Distinct-bump k rest d.1)
]

pub Distinct-group_by : (key : Task → String) (ts : List Task) → Distinct (group_by key ts)
unfolding group_by
Distinct-group_by key [] = tt
Distinct-group_by key (t ∷ ts) = Distinct-bump (key t) (group_by key ts) (Distinct-group_by key ts)

add_groups_total :
    (g : Groups) (total completed : ℕ) → (add_groups g total completed).0 ≡ total + sum g
unfolding add_groups
add_groups_total [] total completed = omega arith
add_groups_total ((s, n) ∷ rest) total completed =
    omega (arith, add_groups_total rest (total + n) (if str_eq s "DONE" then n else completed))

-- The loop keeps what it has where no group is DONE.
add_groups_kept :
    (g : Groups) (total completed : ℕ)
    → has "DONE" g ≡ false
    → (add_groups g total completed).1 ≡ completed
unfolding add_groups
add_groups_kept [] total completed h = refl
add_groups_kept ((s, n) ∷ rest) total completed h =
    ground (arith, add_groups_kept rest (total + n) completed)

has_of_key :
    (s : String) (g : Groups) → str_eq s "DONE" ≡ true → has s g ≡ false → has "DONE" g ≡ false
has_of_key s g e h =
    let same : s ≡ "DONE" = (eq_iff s "DONE").0 e in ap (λ k. has k g) (sym same) ∙ h

add_groups_done : (g : Groups) (total : ℕ) → Distinct g → (add_groups g total 0).1 ≡ size "DONE" g
unfolding add_groups
add_groups_done [] total d = refl
add_groups_done ((s, n) ∷ rest) total d = elim (Bool-cases (str_eq s "DONE")) [
  | inl done ↦ ground (arith, add_groups_kept rest (total + n) n (has_of_key s rest done d.0))
  | inr other ↦ ground (arith, add_groups_done rest (total + n) d.1)
]

-- The loop over the groups counts all tasks, and those that are done.
pub add_groups-group_by :
    (ts : List Task)
    → add_groups (group_by (λ t. t.status) ts) 0 0
      ≡ (length ts, length (select (λ t. str_eq t.status "DONE") ts))
add_groups-group_by ts =
    let g = group_by (λ t. t.status) ts in
    ground (
      arith,
      add_groups_total g 0 0,
      sum-group_by (λ t. t.status) ts,
      add_groups_done g 0 (Distinct-group_by (λ t. t.status) ts),
      size-group_by (λ t. t.status) "DONE" ts,
    )
