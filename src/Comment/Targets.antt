-- ===== src/Comment/Targets.antt =====
-- Who is told of a comment.
use task_scheduling_platform.Base.{
  ℕ, Option, none, some, List, [], ◌∷◌, ◌≡◌, ◌≢◌, ◌⊎◌, ◌↔◌, arith, Elem, ◌==◌, not, if◌then◌else◌,
}
use task_scheduling_platform.Platform.Entities.{Task}
use task_scheduling_platform.Comment.{add_target, assignee_targets, targets}

-- No member of the list stands in it twice.
abbrev pub AllDifferent : List ℕ → Type 0
AllDifferent [] = Unit
AllDifferent (u ∷ us) = ¬ (Elem u us) × AllDifferent us

-- The targets of a task, by its assignee and its creator.
abbrev target_list : Option ℕ → (creator user_id : ℕ) → List ℕ
target_list o creator user_id =
    let first = assignee_targets o user_id in
    if not (creator == user_id) then add_target creator first else first

target_list-told :
    (o : Option ℕ) (creator user_id u : ℕ)
    → Elem u (target_list o creator user_id)
    → (u ≢ user_id) × (((o ≡ some u) × (u ≢ 0)) ⊎ (creator ≡ u))
target_list-told none creator user_id u h = ground arith
target_list-told (some a) creator user_id u h = ground arith

target_list-tells :
    (o : Option ℕ) (creator user_id u : ℕ)
    → u ≢ user_id
    → ((o ≡ some u) × (u ≢ 0)) ⊎ (creator ≡ u)
    → Elem u (target_list o creator user_id)
target_list-tells none creator user_id u ne h = ground arith
target_list-tells (some a) creator user_id u ne h = ground arith

target_list-AllDifferent :
    (o : Option ℕ) (creator user_id : ℕ) → AllDifferent (target_list o creator user_id)
target_list-AllDifferent none creator user_id = ground arith
target_list-AllDifferent (some a) creator user_id = ground arith

-- A comment is told to the assignee of the task and to its creator, to each once, and never to the
-- author of the comment.
pub targets_iff :
    (t : Task) (user_id : ℕ)
    → ((u : ℕ)
        → Elem u (targets t user_id)
          ↔ ((u ≢ user_id) × (((t.assigned_to ≡ some u) × (u ≢ 0)) ⊎ (t.created_by ≡ u))))
      × AllDifferent (targets t user_id)
targets_iff t user_id = (
  λ u. (
    target_list-told t.assigned_to t.created_by user_id u,
    λ h. target_list-tells t.assigned_to t.created_by user_id u h.0 h.1,
  ),
  target_list-AllDifferent t.assigned_to t.created_by user_id,
)
