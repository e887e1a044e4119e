-- ===== src/Task/Creates.antt =====
-- `createTask`: the row that is stored and the pages that are evicted, on every branch.
use task_scheduling_platform.Base.{
  ℕ, none, ◌≡◌, ◌≢◌, inl, inr, refl, Elem, arith, List, ◌∙◌, sym, subst, ap,
}
use task_scheduling_platform.Platform.Entities.{Task}
use task_scheduling_platform.Platform.Io.{World, Result-cases, ok, err, Error, Key, cached}
use task_scheduling_platform.Platform.Drivers.{Platform}
use task_scheduling_platform.Platform.Laws.{IsRedis, IsUp, Saves, Identifies, Matches}
use task_scheduling_platform.Cache.{put_cache}
use task_scheduling_platform.Cache
use task_scheduling_platform.Cache.Laws.{del_pattern_sound}
use task_scheduling_platform.Task.Dto.{CreateTaskDto}
use task_scheduling_platform.Task.Keys.{list_cache_pattern}
use task_scheduling_platform.Task.Create.{put_tasks, new_task, announce_create, create_task}
use task_scheduling_platform.Task.Coherence.{EntriesAgree}
use task_scheduling_platform.Task.Requested.{RequestedNew, new_task-RequestedNew}
use task_scheduling_platform.Task.Frame.{announce_create-Framed}
use task_scheduling_platform.Task.Writes.{
  StoredTask, Written, Written-tasks, Written-EntriesAgree_grown, NoPages, Written-NoPages,
}

module _ (p : Platform) (workspace_id project_id user_id : ℕ) (dto : CreateTaskDto) where
  abbrev pub created_entity : Task
  created_entity = new_task p.parse_date workspace_id project_id user_id dto

  create_task_fails :
      (x : Error) (w : World)
      → p.tasks.save created_entity w.tasks ≡ err x
      → create_task p workspace_id project_id user_id dto w ≡ (err x, w)
  unfolding create_task
  create_task_fails x w h = ground arith

  announce_create-ok :
      (saved r : Task) (w w' : World)
      → announce_create p workspace_id project_id user_id dto saved w ≡ (ok r, w')
      → r ≡ saved
  unfolding announce_create
  announce_create-ok saved r w w' h = ground arith

  create_task-ok :
      (r : Task) (w w' : World)
      → create_task p workspace_id project_id user_id dto w ≡ (ok r, w')
      → (ts : List Task) × (p.tasks.save created_entity w.tasks ≡ ok (r, ts))
  unfolding create_task
  create_task-ok r w w' h = elim (Result-cases (p.tasks.save created_entity w.tasks)) [
    | inl ((saved, ts), f) ↦
        let w₁ =
          (Cache.del_pattern p (list_cache_pattern workspace_id project_id) (put_tasks ts w)).1 in
        (ts, ground (arith, announce_create-ok saved r w₁ w'))
    | inr (x, f) ↦ absurd (ground arith)
  ]

  module _ (redis : IsRedis p.redis) where
    create_task-Written :
        (r : Task) (ts : List Task) (w : World)
        → p.tasks.save created_entity w.tasks ≡ ok (r, ts)
        → (written : Written ts w (create_task p workspace_id project_id user_id dto w).1) × (IsUp
              p.redis
            → (j : Key) → Matches (list_cache_pattern workspace_id project_id) j
            → cached written.cache j ≡ none)
    unfolding create_task
    create_task-Written r ts w saved =
        let (c, e, shrinks, gone) =
          del_pattern_sound p redis (list_cache_pattern workspace_id project_id) (put_tasks ts w) in
        let w₁ = put_cache c (put_tasks ts w) in
        let whole : create_task p workspace_id project_id user_id dto w
            ≡ announce_create p workspace_id project_id user_id dto r w₁ =
          ground arith in
        (
          record {
            cache = c;
            shrinks = shrinks;
            notifies = rw whole (announce_create-Framed p workspace_id project_id user_id dto r w₁);
          },
          gone,
        )

-- What a creation that returns `r` has stored.
pub record Created (p : Platform) (workspace_id project_id user_id : ℕ) (dto : CreateTaskDto)
    (r : Task) (w w' : World) : Type 0 where
  pub stored : Elem r w'.tasks
  pub columns : RequestedNew p.parse_date workspace_id project_id user_id dto r
  pub fresh : (x : Task) → Elem x w.tasks → x.id ≢ r.id
  pub others_stay : (x : Task) → Elem x w.tasks → Elem x w'.tasks
  pub others_only : (x : Task) → x.id ≢ r.id → Elem x w'.tasks → Elem x w.tasks

module _ (p : Platform) (redis : IsRedis p.redis)
    (saves : Saves (λ (t : Task). t.id) StoredTask p.tasks)
    (ids : Identifies (λ (t : Task). t.id) p.tasks) where
  -- A creation that returns has stored one new row, with a fresh id, the workspace, the project
  -- and the creator of the request, status TODO, no completion date, not deleted, and the requested
  -- columns (MEDIUM where the priority is missing or empty, no attachments where they are missing,
  -- no due date where it is missing or empty); every row that was there stays as it was, and while Redis is up no page
  -- of the project's list is left in the cache.
  pub create_task-Created :
      (workspace_id project_id user_id : ℕ) (dto : CreateTaskDto) (r : Task) (w w' : World)
      → create_task p workspace_id project_id user_id dto w ≡ (ok r, w')
      → Created p workspace_id project_id user_id dto r w w'
        × (IsUp p.redis → NoPages workspace_id project_id w')
  create_task-Created workspace_id project_id user_id dto r w w' h =
      let e = new_task p.parse_date workspace_id project_id user_id dto in
      let (ts, saved) = create_task-ok p workspace_id project_id user_id dto r w w' h in
      let (written, gone) =
        create_task-Written p workspace_id project_id user_id dto redis r ts w saved in
      let final : (create_task p workspace_id project_id user_id dto w).1 ≡ w' = ap (λ z. z.1) h in
      let tasks : w'.tasks ≡ ts = ap (λ (z : World). z.tasks) (sym final) ∙ Written-tasks written in
      let fresh = (ids.fresh_id e r w.tasks ts saved refl).1 in
      (
        record {
          stored = subst (Elem r) (sym tasks) (saves.saved_elem e r w.tasks ts saved);
          columns =
              subst (RequestedNew p.parse_date workspace_id project_id user_id dto)
                (sym (saves.saved_columns e r w.tasks ts saved))
                (new_task-RequestedNew p.parse_date workspace_id project_id user_id dto r.id
                  r.version r.created_at r.updated_at);
          fresh = fresh;
          others_stay = λ x k.
              subst (Elem x) (sym tasks) (saves.saved_others e r w.tasks ts saved x k (fresh x k));
          others_only = λ x ne k.
              elim (saves.saved_only e r w.tasks ts saved x (subst (Elem x) tasks k)) [
                | inl z ↦ absurd (ne (ap (λ (y : Task). y.id) z))
                | inr (old, _) ↦ old
              ];
        },
        λ up.
            subst (NoPages workspace_id project_id) final
              (Written-NoPages workspace_id project_id ts w _ written (gone up)),
      )

  -- Whatever a creation does, error or not, the cache stays coherent.
  pub create_task-EntriesAgree :
      (workspace_id project_id user_id : ℕ) (dto : CreateTaskDto) (w : World)
      → EntriesAgree w
      → EntriesAgree (create_task p workspace_id project_id user_id dto w).1
  create_task-EntriesAgree workspace_id project_id user_id dto w h =
      let e = new_task p.parse_date workspace_id project_id user_id dto in
      elim (Result-cases (p.tasks.save e w.tasks)) [
        | inl ((r, ts), saved) ↦
            let (written, _) =
              create_task-Written p workspace_id project_id user_id dto redis r ts w saved in
            let fresh = (ids.fresh_id e r w.tasks ts saved refl).1 in
            Written-EntriesAgree_grown ts w _ h
              (λ x k. saves.saved_others e r w.tasks ts saved x k (fresh x k)) written
        | inr (x, failed) ↦
            rw (create_task_fails p workspace_id project_id user_id dto x w failed) h
      ]
