-- ===== src/Task/Deletes.antt =====
-- `deleteTask`: the row that is marked, and what is left in the caches.
use task_scheduling_platform.Base.{
  ℕ, none, ◌≡◌, ◌≢◌, inl, inr, Elem, arith, List, ◌∙◌, sym, subst, ap,
}
use task_scheduling_platform.Platform.Entities.{Task}
use task_scheduling_platform.Platform.Io.{pair_eq, World, Result-cases, ok, err, Error, Key, cached}
use task_scheduling_platform.Platform.Drivers.{Platform}
use task_scheduling_platform.Platform.Laws.{IsRedis, IsUp, Finds, SoftRemoves, Matches}
use task_scheduling_platform.Cache.{put_cache}
use task_scheduling_platform.Cache.Laws.{evict_sound}
use task_scheduling_platform.Task.Keys.{task_cache_key, list_cache_pattern}
use task_scheduling_platform.Task.Find.{find_by_id}
use task_scheduling_platform.Task.Create.{put_tasks}
use task_scheduling_platform.Task.Update.{announce_delete, delete_task}
use task_scheduling_platform.Task.Coherence.{
  IsTaskOf, EntriesAgree, Found, find_by_id-Found, find_by_id-eq-err,
}
use task_scheduling_platform.Task.Frame.{announce_delete-Framed}
use task_scheduling_platform.Task.Writes.{
  Written, Written-tasks, Written-cache, Written-EntriesAgree, NoPages, Written-NoPages,
}

module _ (p : Platform) (id workspace_id user_id : ℕ) where
  delete_task_unfound :
      (x : Error) (w w' : World)
      → find_by_id p id workspace_id w ≡ (err x, w')
      → delete_task p id workspace_id user_id w ≡ (err x, w')
  unfolding delete_task
  delete_task_unfound x w w' e = ground arith

  delete_task_fails :
      (t : Task) (x : Error) (w w' : World)
      → find_by_id p id workspace_id w ≡ (ok t, w')
      → p.soft_remove t w'.now w'.tasks ≡ err x
      → delete_task p id workspace_id user_id w ≡ (err x, w')
  unfolding delete_task
  delete_task_fails t x w w' e f = ground arith

  delete_task-ok :
      (w w' : World)
      → delete_task p id workspace_id user_id w ≡ (ok tt, w')
      → (t : Task) × (w₁ : World) × (r : Task) × (ts : List Task) × (find_by_id p id workspace_id w
          ≡ (ok t, w₁))
        × (p.soft_remove t w₁.now w₁.tasks ≡ ok (r, ts))
  unfolding delete_task
  delete_task-ok w w' h = elim (Result-cases (find_by_id p id workspace_id w).0) [
    | inl (t, f) ↦
        let w₁ = (find_by_id p id workspace_id w).1 in
        elim (Result-cases (p.soft_remove t w₁.now w₁.tasks)) [
          | inl ((r, ts), g) ↦ (t, w₁, r, ts, ground arith, g)
          | inr (x, g) ↦ absurd (ground arith)
        ]
    | inr (x, f) ↦ absurd (ground arith)
  ]

  module _ (redis : IsRedis p.redis) where
    delete_task-Written :
        (t r : Task) (ts : List Task) (w w₁ : World)
        → find_by_id p id workspace_id w ≡ (ok t, w₁)
        → p.soft_remove t w₁.now w₁.tasks ≡ ok (r, ts)
        → (written : Written ts w₁ (delete_task p id workspace_id user_id w).1) × (IsUp p.redis
            → (cached written.cache (task_cache_key id) ≡ none)
              × ((j : Key)
                  → Matches (list_cache_pattern workspace_id t.project_id) j
                  → cached written.cache j ≡ none))
    unfolding delete_task
    delete_task-Written t r ts w w₁ found removed =
        let rest = announce_delete p id workspace_id user_id in
        let (c, step, shrinks, gone) =
          evict_sound p redis (task_cache_key id) (list_cache_pattern workspace_id t.project_id)
            rest (put_tasks ts w₁) in
        let w₂ = put_cache c (put_tasks ts w₁) in
        let whole : delete_task p id workspace_id user_id w ≡ rest w₂ = ground arith in
        (
          record {
            cache = c;
            shrinks = shrinks;
            notifies = rw whole (announce_delete-Framed p id workspace_id user_id w₂);
          },
          gone,
        )

-- What a deletion that returns has done: `old` is the task that it found.
pub record Deleted (id workspace_id : ℕ) (w w' : World) : Type 0 where
  pub old : Task
  pub was_listed : Elem old w.tasks
  pub was : IsTaskOf id workspace_id old
  pub marked : (x : Task) → x.id ≡ id → Elem x w'.tasks → x.deleted_at ≢ none
  pub evicted :
      (cached w'.cache (task_cache_key id) ≡ none) × NoPages workspace_id old.project_id w'
  pub others_stay : (x : Task) → x.id ≢ id → Elem x w.tasks → Elem x w'.tasks
  pub others_only : (x : Task) → x.id ≢ id → Elem x w'.tasks → Elem x w.tasks

module _ (p : Platform) (redis : IsRedis p.redis) (finds : Finds p.tasks)
    (removes : SoftRemoves p.soft_remove) where
  Deleted-rows :
      (id workspace_id : ℕ) (t r : Task) (w w₁ w' : World) (ts : List Task)
      → Found id workspace_id t w w₁
      → p.soft_remove t w₁.now w₁.tasks ≡ ok (r, ts)
      → w'.tasks ≡ ts
      → (cached w'.cache (task_cache_key id) ≡ none) × NoPages workspace_id t.project_id w'
      → Deleted id workspace_id w w'
  Deleted-rows id workspace_id t r w w₁ w' ts found removed tasks evicted =
      let same : w₁.tasks ≡ w.tasks = cc found.only_cache in
      let t_id = found.is_task_of.same_id in
      record {
        old = t;
        was_listed = found.listed;
        was = found.is_task_of;
        evicted = evicted;
        marked = λ x e k.
            removes.marked t r w₁.now w₁.tasks ts removed x (subst (Elem x) tasks k) (e ∙ sym t_id);
        others_stay = λ x ne k. subst (Elem x) (sym tasks) (
            removes.unmarked_stay t r w₁.now w₁.tasks ts removed x (subst (Elem x) (sym same) k)
              (λ z. ne (z ∙ t_id)));
        others_only = λ x ne k. subst (Elem x) same (
            removes.unmarked_only t r w₁.now w₁.tasks ts removed x (subst (Elem x) tasks k)
              (λ z. ne (z ∙ t_id)));
      }

  -- Whatever a deletion does, error or not, the cache stays coherent while Redis is up: the deleted
  -- task is not served from it again.
  pub delete_task-EntriesAgree :
      (id workspace_id user_id : ℕ) (w : World)
      → IsUp p.redis
      → EntriesAgree w
      → EntriesAgree (delete_task p id workspace_id user_id w).1
  delete_task-EntriesAgree id workspace_id user_id w up h =
      let w₁ = (find_by_id p id workspace_id w).1 in
      elim (Result-cases (find_by_id p id workspace_id w).0) [
        | inl (t, f) ↦
            let found = find_by_id-Found p redis finds id workspace_id t w w₁ h (pair_eq _ f) in
            elim (Result-cases (p.soft_remove t w₁.now w₁.tasks)) [
              | inl ((r, ts), removed) ↦
                  let (written, gone) =
                    delete_task-Written p id workspace_id user_id redis t r ts w w₁ (pair_eq _ f)
                      removed in
                  Written-EntriesAgree id ts w₁ _ found.coherent
                    (λ x k ne.
                      removes.unmarked_stay t r w₁.now w₁.tasks ts removed x k
                        (λ z. ne (z ∙ found.is_task_of.same_id)))
                    written (gone up).0
              | inr (x, failed) ↦
                  rw (delete_task_fails p id workspace_id user_id t x w w₁ (pair_eq _ f) failed)
                    found.coherent
            ]
        | inr (x, f) ↦
            rw
              (
                delete_task_unfound p id workspace_id user_id x w w₁ (pair_eq _ f),
                find_by_id-eq-err p redis finds id workspace_id x w w₁ (pair_eq _ f),
              )
              h
      ]

  -- A deletion that returns, while Redis is up, has found a live row of this id in this workspace.
  -- After it every row with the id is marked as deleted and every other row is as before, no entry
  -- of the task and no page of its project is left in the cache, and no read finds the task.
  pub delete_task-Deleted :
      (id workspace_id user_id : ℕ) (w w' : World)
      → IsUp p.redis
      → EntriesAgree w
      → delete_task p id workspace_id user_id w ≡ (ok tt, w')
      → Deleted id workspace_id w w'
        × ((t : Task) (w₂ : World) → find_by_id p id workspace_id w' ≢ (ok t, w₂))
  delete_task-Deleted id workspace_id user_id w w' up h e =
      let (t, w₁, r, ts, f, removed) = delete_task-ok p id workspace_id user_id w w' e in
      let found = find_by_id-Found p redis finds id workspace_id t w w₁ h f in
      let (written, gone) =
        delete_task-Written p id workspace_id user_id redis t r ts w w₁ f removed in
      let final : (delete_task p id workspace_id user_id w).1 ≡ w' = ap (λ z. z.1) e in
      let evicted : (cached w'.cache (task_cache_key id) ≡ none)
          × NoPages workspace_id t.project_id w' =
        (
          subst (λ (z : World). cached z.cache (task_cache_key id) ≡ none) final
              (ap (λ c. cached c (task_cache_key id)) (Written-cache written) ∙ (gone up).0),
          subst (NoPages workspace_id t.project_id) final
              (Written-NoPages workspace_id t.project_id ts w₁ _ written (gone up).1),
        ) in
      let deleted =
        Deleted-rows id workspace_id t r w w₁ w' ts found removed
          (ap (λ (z : World). z.tasks) (sym final) ∙ Written-tasks written) evicted in
      let coherent =
        subst EntriesAgree final (delete_task-EntriesAgree id workspace_id user_id w up h) in
      (
        deleted,
        λ u w₂ read.
            let again = find_by_id-Found p redis finds id workspace_id u w' w₂ coherent read in
            deleted.marked u again.is_task_of.same_id again.listed again.is_task_of.live,
      )
