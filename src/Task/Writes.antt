-- ===== src/Task/Writes.antt =====
-- What a write of the task service leaves behind: the saved row, the other rows, and a cache in
-- which nothing of the old row is left.
use task_scheduling_platform.Base.{
  ℕ, none, some, ◌≡◌, ◌≢◌, Elem, arith, List, sym, subst, ap, refl, ◌∙◌,
}
use task_scheduling_platform.Platform.Entities.{Task}
use task_scheduling_platform.Platform.Io.{World, ok, Key, Store, cached, task}
use task_scheduling_platform.Platform.Drivers.{Platform}
use task_scheduling_platform.Platform.Laws.{IsRedis, IsUp, Matches}
use task_scheduling_platform.Cache.{put_cache}
use task_scheduling_platform.Cache.Laws.{Shrinks, evict_sound}
use task_scheduling_platform.Notification.Frame.{Notifies}
use task_scheduling_platform.Task.Dto.{UpdateTaskDto, QueryTaskDto}
use task_scheduling_platform.Task.Keys.{
  task_cache_key, list_cache_pattern, list_cache_key, query_parts,
}
use task_scheduling_platform.Task.Create.{put_tasks}
use task_scheduling_platform.Task.Update.{
  joined_assignee, in_memory, persist_update, announce_update,
}
use task_scheduling_platform.Task.Coherence.{EntriesAgree}
use task_scheduling_platform.Task.Frame.{announce_update-Framed}

-- A saved task has the columns of the entity; the database sets its id, version and timestamps.
abbrev pub StoredTask : Task → Task → Type 0
StoredTask e r = r ≡ record e {
  id = r.id;
  version = r.version;
  created_at = r.created_at;
  updated_at = r.updated_at;
}

-- The state after the rows became `ts` and the cache lost entries, up to what logging adds.
pub record Written (ts : List Task) (w w' : World) : Type 0 where
  pub cache : Store
  pub shrinks : Shrinks w.cache cache
  pub notifies : Notifies (put_cache cache (put_tasks ts w)) w'

pub Written-tasks : {ts : List Task} {w w' : World} → Written ts w w' → w'.tasks ≡ ts
Written-tasks written = cc written.notifies

pub Written-cache :
    {ts : List Task} {w w' : World} (written : Written ts w w') → w'.cache ≡ written.cache
Written-cache written = cc written.notifies

-- Every page of the project's task list is under a key that the pattern matches.
pub list_cache_key-Matches :
    (workspace_id project_id : ℕ) (query : QueryTaskDto)
    → Matches
        (list_cache_pattern workspace_id project_id)
        (list_cache_key workspace_id project_id query)
list_cache_key-Matches workspace_id project_id query = (query_parts query, refl)

-- No page of the project's task list is cached.
abbrev pub NoPages : (workspace_id project_id : ℕ) → World → Type 0
NoPages workspace_id project_id w =
    (query : QueryTaskDto) → cached w.cache (list_cache_key workspace_id project_id query) ≡ none

pub Written-NoPages :
    (workspace_id project_id : ℕ) (ts : List Task) (w w' : World) (written : Written ts w w')
    → ((j : Key)
        → Matches (list_cache_pattern workspace_id project_id) j
        → cached written.cache j ≡ none)
    → NoPages workspace_id project_id w'
Written-NoPages workspace_id project_id ts w w' written gone query =
    ap (λ c. cached c (list_cache_key workspace_id project_id query)) (Written-cache written)
    ∙ gone _ (list_cache_key-Matches workspace_id project_id query)

evicted-ne :
    (id i : ℕ) (t : Task) (c : Store)
    → cached c (task_cache_key id) ≡ none
    → t.id ≡ i
    → t.id ≡ id
    → cached c (task_cache_key i) ≢ some (task t)
evicted-ne id i t c gone same other e =
    let f : i ≡ id = cc in cc (ap (λ k. cached c (task_cache_key k)) f)

-- Rows that keep every other row keep the cache coherent once the entry of the row is gone.
pub Written-EntriesAgree :
    (id : ℕ) (ts : List Task) (w w' : World)
    → EntriesAgree w
    → ((x : Task) → Elem x w.tasks → x.id ≢ id → Elem x ts)
    → (written : Written ts w w') → cached written.cache (task_cache_key id) ≡ none
    → EntriesAgree w'
Written-EntriesAgree id ts w w' h keeps written gone =
    let same_cache : w'.cache ≡ written.cache = cc written.notifies in
    let same_tasks : w'.tasks ≡ ts = cc written.notifies in
    let old = λ (i : ℕ) (t : Task) (e : cached w'.cache (task_cache_key i) ≡ some (task t)).
      written.shrinks (task_cache_key i) (task t)
        (subst (λ c. cached c (task_cache_key i) ≡ some (task t)) same_cache e) in
    let other =
      λ (i : ℕ) (t : Task) (e : cached w'.cache (task_cache_key i) ≡ some (task t)) (f : t.id ≡ id).
        evicted-ne id i t written.cache gone (h.cached_id i t (old i t e)) f
          (subst (λ c. cached c (task_cache_key i) ≡ some (task t)) same_cache e) in
    record {
      cached_id = λ i t e. h.cached_id i t (old i t e);
      cached_elem = λ i t e.
          subst (Elem t) (sym same_tasks) (keeps t (h.cached_elem i t (old i t e)) (other i t e));
      cached_live = λ i t e. h.cached_live i t (old i t e);
    }

-- Rows that are only added to keep the cache coherent too.
pub Written-EntriesAgree_grown :
    (ts : List Task) (w w' : World)
    → EntriesAgree w
    → ((x : Task) → Elem x w.tasks → Elem x ts)
    → Written ts w w'
    → EntriesAgree w'
Written-EntriesAgree_grown ts w w' h keeps written =
    let old = λ (i : ℕ) (t : Task) (e : cached w'.cache (task_cache_key i) ≡ some (task t)).
      written.shrinks (task_cache_key i) (task t)
        (subst (λ c. cached c (task_cache_key i) ≡ some (task t)) (Written-cache written) e) in
    record {
      cached_id = λ i t e. h.cached_id i t (old i t e);
      cached_elem = λ i t e.
          subst (Elem t) (sym (Written-tasks written)) (keeps t (h.cached_elem i t (old i t e)));
      cached_live = λ i t e. h.cached_live i t (old i t e);
    }

module _ (p : Platform) (redis : IsRedis p.redis) where
  pub persist_update-Written :
      (id workspace_id user_id : ℕ) (dto : UpdateTaskDto) (t e r : Task) (ts : List Task)
      (w : World)
      → p.tasks.save (joined_assignee t e) w.tasks ≡ ok (r, ts)
      → (written : Written ts w (persist_update p id workspace_id user_id dto t e w).1) × (IsUp
            p.redis
          → (cached written.cache (task_cache_key id) ≡ none)
            × ((j : Key)
                → Matches (list_cache_pattern workspace_id e.project_id) j
                → cached written.cache j ≡ none))
  unfolding persist_update
  persist_update-Written id workspace_id user_id dto t e r ts w saved =
      let (c, step, shrinks, gone) =
        evict_sound p redis (task_cache_key id) (list_cache_pattern workspace_id e.project_id)
          (announce_update p id workspace_id user_id dto t e (in_memory e r)) (put_tasks ts w) in
      let whole : persist_update p id workspace_id user_id dto t e w
          ≡ announce_update p id workspace_id user_id dto t e (in_memory e r)
              (put_cache c (put_tasks ts w)) =
        ground arith in
      (
        record {
          cache = c;
          shrinks = shrinks;
          notifies = rw whole (
              announce_update-Framed p id workspace_id user_id dto t e (in_memory e r)
                (put_cache c (put_tasks ts w)));
        },
        gone,
      )
