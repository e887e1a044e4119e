-- ===== src/Task/Steps.antt =====
-- The ways through `updateTask`, and what each answers.
use task_scheduling_platform.Base.{ℕ, true, false, ◌≡◌, inl, inr, arith, List}
use task_scheduling_platform.Platform.Entities.{Task}
use task_scheduling_platform.Platform.Io.{World, Error, Result-cases, ok, err, conflict}
use task_scheduling_platform.Platform.Drivers.{Platform}
use task_scheduling_platform.Cache
use task_scheduling_platform.Cache.{put_cache}
use task_scheduling_platform.Task.Create.{put_tasks}
use task_scheduling_platform.Task.Dto.{UpdateTaskDto}
use task_scheduling_platform.Task.Keys.{task_cache_key, list_cache_pattern}
use task_scheduling_platform.Task.Find.{find_by_id}
use task_scheduling_platform.Task.Update.{
  joined_assignee, in_memory, version_conflict, locking_message, apply_update, announce_update,
  persist_update, update_task,
}

module _ (p : Platform) (id workspace_id user_id : ℕ) (dto : UpdateTaskDto) where
  -- The three ways through `updateTask` before its `try` block ends.
  pub update_task_unfound :
      (x : Error) (w w' : World)
      → find_by_id p id workspace_id w ≡ (err x, w')
      → update_task p id workspace_id user_id dto w ≡ (err x, w')
  unfolding update_task
  update_task_unfound x w w' e = ground arith

  pub update_task_conflict :
      (t : Task) (w w' : World)
      → find_by_id p id workspace_id w ≡ (ok t, w')
      → version_conflict dto.version t ≡ true
      → update_task p id workspace_id user_id dto w ≡ (err (conflict locking_message), w')
  unfolding update_task
  update_task_conflict t w w' e f = ground arith

  pub update_task_persists :
      (t : Task) (w w' : World)
      → find_by_id p id workspace_id w ≡ (ok t, w')
      → version_conflict dto.version t ≡ false
      → (update_task p id workspace_id user_id dto w).1
        ≡ (persist_update p id workspace_id user_id dto t
            (apply_update p.parse_date w'.now dto t)
            w').1
  unfolding update_task
  update_task_persists t w w' e f = ground arith

  announce_update-ok :
      (t e saved r : Task) (w w' : World)
      → announce_update p id workspace_id user_id dto t e saved w ≡ (ok r, w')
      → r ≡ saved
  unfolding announce_update
  announce_update-ok t e saved r w w' h = ground arith

  pub persist_update-ok :
      (t e r : Task) (w w' : World)
      → persist_update p id workspace_id user_id dto t e w ≡ (ok r, w')
      → (s : Task) × (ts : List Task) × (p.tasks.save (joined_assignee t e) w.tasks ≡ ok (s, ts))
        × (r ≡ in_memory e s)
  unfolding persist_update
  persist_update-ok t e r w w' h =
      elim (Result-cases (p.tasks.save (joined_assignee t e) w.tasks)) [
        | inl ((saved, ts), f) ↦
            let w₁ = (Cache.del p (task_cache_key id) (put_tasks ts w)).1 in
            let w₂ = (Cache.del_pattern p (list_cache_pattern workspace_id e.project_id) w₁).1 in
            (saved, ts, f, ground (arith, announce_update-ok t e (in_memory e saved) r w₂ w'))
        | inr (x, f) ↦ absurd (ground arith)
      ]

  pub update_task-ok :
      (r : Task) (w w' : World)
      → update_task p id workspace_id user_id dto w ≡ (ok r, w')
      → (t : Task) × (w₁ : World) × (find_by_id p id workspace_id w ≡ (ok t, w₁))
        × (version_conflict dto.version t ≡ false)
        × (persist_update p id workspace_id user_id dto t
              (apply_update p.parse_date w₁.now dto t)
              w₁
            ≡ (ok r, w'))
  unfolding update_task
  update_task-ok r w w' h = elim (Result-cases (find_by_id p id workspace_id w).0) [
    | inl (t, f) ↦ (t, (find_by_id p id workspace_id w).1, ground arith, ground arith, ground arith)
    | inr (x, f) ↦ absurd (ground arith)
  ]

  -- A save that is refused leaves the state alone.
  pub persist_update_fails :
      (t e : Task) (x : Error) (w : World)
      → p.tasks.save (joined_assignee t e) w.tasks ≡ err x
      → persist_update p id workspace_id user_id dto t e w ≡ (err x, w)
  unfolding persist_update
  persist_update_fails t e x w h = ground arith
