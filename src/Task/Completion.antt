-- ===== src/Task/Completion.antt =====
-- The completion date follows the status, and an update leaves alone what it does not name.
use task_scheduling_platform.Base.{
  ℕ, String, none, some, ◌≡◌, ◌≢◌, arith, eq_iff, Option-cases, inl, inr,
}
use task_scheduling_platform.Platform.Entities.{Task}
use task_scheduling_platform.Task.Dto.{UpdateTaskDto}
use task_scheduling_platform.Task.Update.{apply_update}

-- A task has a completion date exactly if its status is DONE.
pub record IsDated (t : Task) : Type 0 where
  pub dated : t.status ≡ "DONE" → t.completed_at ≢ none
  pub undated : t.status ≢ "DONE" → t.completed_at ≡ none

-- An update keeps completion dates right, whatever it asks for, as long as the status that it names
-- is not the empty text.
pub apply_update-IsDated :
    (parse : String → ℕ) (now : ℕ) (dto : UpdateTaskDto) (t : Task)
    → dto.status ≢ some ""
    → IsDated t
    → IsDated (apply_update parse now dto t)
unfolding apply_update
apply_update-IsDated parse now dto t real h = elim (Option-cases dto.status) [
  | inl unnamed ↦ record { dated = ground arith; undated = ground arith }
  | inr (s, named) ↦ record {
    dated = ground (arith, eq_iff s "DONE", eq_iff t.status "DONE", eq_iff s "");
    undated = ground (arith, eq_iff s "DONE", eq_iff t.status "DONE", eq_iff s "");
  }
]
