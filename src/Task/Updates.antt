-- ===== src/Task/Updates.antt =====
-- `updateTask` from end to end: optimistic locking, the row that is stored, and the caches.
use task_scheduling_platform.Base.{
  ℕ, none, String, ◌∙◌, ap, true, false, some, ◌≡◌, ◌≢◌, ◌⊎◌, inl, inr, refl, Elem, arith, List,
  sym, subst, Bool-cases,
}
use task_scheduling_platform.Platform.Entities.{Task}
use task_scheduling_platform.Platform.Io.{pair_eq, cached, World, Result-cases, ok, err, conflict}
use task_scheduling_platform.Platform.Drivers.{Platform}
use task_scheduling_platform.Platform.Laws.{IsRedis, IsUp, Finds, Saves, Identifies}
use task_scheduling_platform.Cache.{put_cache}
use task_scheduling_platform.Task.Dto.{UpdateTaskDto}
use task_scheduling_platform.Task.Keys.{task_cache_key}
use task_scheduling_platform.Task.Find.{find_by_id}
use task_scheduling_platform.Task.Update.{
  joined_assignee, in_memory, version_conflict, locking_message, apply_update, persist_update,
  update_task,
}
use task_scheduling_platform.Task.Coherence.{
  IsTaskOf, EntriesAgree, Found, find_by_id-Found, find_by_id-eq-err,
}
use task_scheduling_platform.Task.Requested.{
  Requested, GivenOption, apply_update-Requested, apply_update-GivenOption,
}
use task_scheduling_platform.Task.Steps.{
  update_task_unfound, update_task_conflict, update_task_persists, persist_update-ok,
  update_task-ok, persist_update_fails,
}
use task_scheduling_platform.Task.Writes.{
  StoredTask, Written-EntriesAgree, Written-tasks, Written-cache, NoPages, Written-NoPages,
  persist_update-Written,
}

apply_update-id :
    (parse : String → ℕ) (now : ℕ) (dto : UpdateTaskDto) (t : Task)
    → (apply_update parse now dto t).id ≡ t.id
unfolding apply_update
apply_update-id parse now dto t = refl

apply_update_project :
    (parse : String → ℕ) (now : ℕ) (dto : UpdateTaskDto) (t : Task)
    → (apply_update parse now dto t).project_id ≡ t.project_id
unfolding apply_update
apply_update_project parse now dto t = refl

-- What a successful update has done to the task `old` that it found: `row` is stored, `r` answered.
pub record Updated (p : Platform) (id workspace_id : ℕ) (dto : UpdateTaskDto) (r : Task)
    (w w' : World) : Type 0 where
  pub old : Task
  pub was_listed : Elem old w.tasks
  pub was : IsTaskOf id workspace_id old
  pub same_version : (v : ℕ) → dto.version ≡ some v → old.version ≡ v
  pub row : Task
  pub stored : Elem row w'.tasks
  pub same_id : row.id ≡ id
  pub requested : Requested p.parse_date w.now dto old row
  pub returned : r ≡ record row { assigned_to = r.assigned_to }
  pub answered : GivenOption dto.assigned_to old.assigned_to r.assigned_to
  pub others_stay : (x : Task) → x.id ≢ id → Elem x w.tasks → Elem x w'.tasks
  pub others_only : (x : Task) → x.id ≢ id → Elem x w'.tasks → Elem x w.tasks

-- The cache after a write of the task: its entries of tasks are right, and the rows are as before or
-- the pages of the project are gone.
abbrev pub Refreshed : (id workspace_id : ℕ) → World → World → Type 0
Refreshed id workspace_id w w' =
    EntriesAgree w'
    × ((w'.tasks ≡ w.tasks)
        ⊎ ((t : Task) × Elem t w.tasks × (t.id ≡ id) × NoPages workspace_id t.project_id w'))

module _ (p : Platform) (redis : IsRedis p.redis) (finds : Finds p.tasks)
    (saves : Saves (λ (t : Task). t.id) StoredTask p.tasks)
    (ids : Identifies (λ (t : Task). t.id) p.tasks) where
  Updated-row :
      (id workspace_id : ℕ) (dto : UpdateTaskDto) (t s r : Task) (w w₁ w' : World) (ts : List Task)
      → id ≢ 0
      → Found id workspace_id t w w₁
      → version_conflict dto.version t ≡ false
      → let e = apply_update p.parse_date w₁.now dto t in
        p.tasks.save (joined_assignee t e) w₁.tasks ≡ ok (s, ts)
        → r ≡ in_memory (apply_update p.parse_date w₁.now dto t) s
        → w'.tasks ≡ ts
        → Updated p id workspace_id dto r w w'
  Updated-row id workspace_id dto t s r w w₁ w' ts nz found fresh saved₁ answer tasks =
      let same : w₁.tasks ≡ w.tasks = cc found.only_cache in
      let now : w₁.now ≡ w.now = cc found.only_cache in
      let e = apply_update p.parse_date w.now dto t in
      let stored = joined_assignee t e in
      let saved : p.tasks.save stored w.tasks ≡ ok (s, ts) = ground arith in
      let e_id : e.id ≡ id = apply_update-id p.parse_date w.now dto t ∙ found.is_task_of.same_id in
      let same_id : s.id ≡ id =
        ids.kept_id stored s w.tasks ts saved (λ z. nz (sym e_id ∙ z)) ∙ e_id in
      let columns = saves.saved_columns stored s w.tasks ts saved in
      let answered : r ≡ in_memory e s =
        subst (λ n. r ≡ in_memory (apply_update p.parse_date n dto t) s) now answer in
      record {
        old = t;
        was_listed = found.listed;
        was = found.is_task_of;
        same_version = λ v k. ground arith;
        row = s;
        stored = subst (Elem s) (sym tasks) (saves.saved_elem stored s w.tasks ts saved);
        same_id = same_id;
        requested = subst (Requested p.parse_date w.now dto t) (sym columns) (
            apply_update-Requested p.parse_date w.now dto t s.id s.version s.created_at
              s.updated_at);
        returned = rw answered refl;
        answered =
            subst (GivenOption dto.assigned_to t.assigned_to)
              (sym (ap (λ z. z.assigned_to) answered))
              (apply_update-GivenOption p.parse_date w.now dto t);
        others_stay = λ x ne k.
            subst (Elem x) (sym tasks)
              (saves.saved_others stored s w.tasks ts saved x k (λ z. ne (z ∙ same_id)));
        others_only = λ x ne k.
            elim (saves.saved_only stored s w.tasks ts saved x (subst (Elem x) tasks k)) [
              | inl z ↦ absurd (ne (ap (λ (y : Task). y.id) z ∙ same_id))
              | inr (old, _) ↦ old
            ];
      }

  -- An update that returns has found a live row of this id and workspace, at the version that the
  -- request names if it names one. It has stored a row of the same id in which title, description,
  -- status, priority, labels, attachments and due date are those that the request names (an empty
  -- due date is none), and as they were where it names none. The completion date is now where the
  -- status becomes DONE, none where another that is not empty is named, and as it was otherwise.
  -- Workspace, project, parent and creator stay, and so does every other row. The assignee that the
  -- request names is stored only where the task had none: otherwise the old one stays, though the
  -- answer has the new one.
  pub update_task-Updated :
      (id workspace_id user_id : ℕ) (dto : UpdateTaskDto) (r : Task) (w w' : World)
      → id ≢ 0
      → EntriesAgree w
      → update_task p id workspace_id user_id dto w ≡ (ok r, w')
      → Updated p id workspace_id dto r w w'
  update_task-Updated id workspace_id user_id dto r w w' nz h e =
      let (t, w₁, f, fresh, g) = update_task-ok p id workspace_id user_id dto r w w' e in
      let found = find_by_id-Found p redis finds id workspace_id t w w₁ h f in
      let (s, ts, saved, answer) = persist_update-ok p id workspace_id user_id dto t _ r w₁ w' g in
      let (written, _) =
        persist_update-Written p redis id workspace_id user_id dto t _ s ts w₁ saved in
      Updated-row id workspace_id dto t s r w w₁ w' ts nz found fresh saved answer
        (sym (ap (λ z. z.1.tasks) g) ∙ Written-tasks written)

  -- A request that names a version other than the stored one is refused with a conflict, and
  -- nothing but the cache has changed.
  pub update_task_stale :
      (id workspace_id user_id v : ℕ) (dto : UpdateTaskDto) (t : Task) (w w₁ : World)
      → EntriesAgree w
      → find_by_id p id workspace_id w ≡ (ok t, w₁)
      → dto.version ≡ some v
      → t.version ≢ v
      → (update_task p id workspace_id user_id dto w ≡ (err (conflict locking_message), w₁))
        × (w₁ ≡ put_cache w₁.cache w)
  update_task_stale id workspace_id user_id v dto t w w₁ h f named differs =
      let found = find_by_id-Found p redis finds id workspace_id t w w₁ h f in
      let stale : version_conflict dto.version t ≡ true = ground arith in
      (update_task_conflict p id workspace_id user_id dto t w w₁ f stale, found.only_cache)

  persist_update-Refreshed :
      (id workspace_id user_id : ℕ) (dto : UpdateTaskDto) (t : Task) (w w₁ : World)
      → IsUp p.redis
      → id ≢ 0
      → Found id workspace_id t w w₁
      → let e = apply_update p.parse_date w₁.now dto t in
        Refreshed id workspace_id w (persist_update p id workspace_id user_id dto t e w₁).1
  persist_update-Refreshed id workspace_id user_id dto t w w₁ up nz found =
      let e = apply_update p.parse_date w₁.now dto t in
      let stored = joined_assignee t e in
      let e_id : e.id ≡ id = apply_update-id p.parse_date w₁.now dto t ∙ found.is_task_of.same_id in
      elim (Result-cases (p.tasks.save stored w₁.tasks)) [
        | inl ((r, ts), saved) ↦
            let (written, gone) =
              persist_update-Written p redis id workspace_id user_id dto t e r ts w₁ saved in
            let r_id : r.id ≡ id =
              ids.kept_id stored r w₁.tasks ts saved (λ z. nz (sym e_id ∙ z)) ∙ e_id in
            let pages = Written-NoPages workspace_id e.project_id ts w₁ _ written (gone up).1 in
            (
              Written-EntriesAgree id ts w₁ _ found.coherent
                  (λ x k ne. saves.saved_others stored r w₁.tasks ts saved x k (λ z. ne (z ∙ r_id)))
                  written (gone up).0,
              inr (
                t,
                found.listed,
                found.is_task_of.same_id,
                subst
                    (λ n.
                      NoPages workspace_id n
                        (persist_update p id workspace_id user_id dto t e w₁).1)
                    (apply_update_project p.parse_date w₁.now dto t) pages,
              ),
            )
        | inr (x, failed) ↦
            rw (persist_update_fails p id workspace_id user_id dto t e x w₁ failed)
              (found.coherent, inl (cc found.only_cache))
      ]

  -- Whatever an update does, error or not, while Redis is up: every cached entry of a task is still
  -- a live row of its id, and no page of the list of the task's project is cached, unless the rows
  -- are as before.
  pub update_task-Refreshed :
      (id workspace_id user_id : ℕ) (dto : UpdateTaskDto) (w : World)
      → IsUp p.redis
      → id ≢ 0
      → EntriesAgree w
      → Refreshed id workspace_id w (update_task p id workspace_id user_id dto w).1
  update_task-Refreshed id workspace_id user_id dto w up nz h =
      elim (Result-cases (find_by_id p id workspace_id w).0) [
        | inl (t, f) ↦
            let w₁ = (find_by_id p id workspace_id w).1 in
            let found = find_by_id-Found p redis finds id workspace_id t w w₁ h (pair_eq _ f) in
            elim (Bool-cases (version_conflict dto.version t)) [
              | inl stale ↦
                  rw (update_task_conflict p id workspace_id user_id dto t w w₁ (pair_eq _ f) stale)
                    (found.coherent, inl (cc found.only_cache))
              | inr fresh ↦
                  rw (update_task_persists p id workspace_id user_id dto t w w₁ (pair_eq _ f) fresh)
                    (persist_update-Refreshed id workspace_id user_id dto t w w₁ up nz found)
            ]
        | inr (x, f) ↦
            let w₁ = (find_by_id p id workspace_id w).1 in
            let same = find_by_id-eq-err p redis finds id workspace_id x w w₁ (pair_eq _ f) in
            rw (update_task_unfound p id workspace_id user_id dto x w w₁ (pair_eq _ f), same)
              (h, inl refl)
      ]

  -- An update that returns leaves no page of the task's project and no entry of the task in the
  -- cache while Redis is up, so that the next read of either sees the new row.
  pub update_task-NoPages :
      (id workspace_id user_id : ℕ) (dto : UpdateTaskDto) (r : Task) (w w' : World)
      → IsUp p.redis
      → update_task p id workspace_id user_id dto w ≡ (ok r, w')
      → NoPages workspace_id r.project_id w' × (cached w'.cache (task_cache_key id) ≡ none)
  update_task-NoPages id workspace_id user_id dto r w w' up h =
      let (t, w₁, f, fresh, g) = update_task-ok p id workspace_id user_id dto r w w' h in
      let e = apply_update p.parse_date w₁.now dto t in
      let (s, ts, saved, answer) = persist_update-ok p id workspace_id user_id dto t e r w₁ w' g in
      let (written, gone) =
        persist_update-Written p redis id workspace_id user_id dto t e s ts w₁ saved in
      let project : r.project_id ≡ e.project_id =
        ap (λ (x : Task). x.project_id) answer
        ∙ ap (λ (x : Task). x.project_id)
            (saves.saved_columns (joined_assignee t e) s w₁.tasks ts saved) in
      let final : (persist_update p id workspace_id user_id dto t e w₁).1 ≡ w' = ap (λ z. z.1) g in
      (
        rw project (
            subst (NoPages workspace_id e.project_id) final
              (Written-NoPages workspace_id e.project_id ts w₁ _ written (gone up).1)),
        subst (λ (z : World). cached z.cache (task_cache_key id) ≡ none) final
            (ap (λ c. cached c (task_cache_key id)) (Written-cache written) ∙ (gone up).0),
      )
