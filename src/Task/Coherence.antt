-- ===== src/Task/Coherence.antt =====
-- The task cache holds only rows of the table: `findById` relies on it and keeps it.
use task_scheduling_platform.Base.{
  ℕ, true, Option, none, some, ◌≡◌, ◌⊎◌, inl, inr, refl, Elem, arith, Option-cases, sym, subst,
}
use task_scheduling_platform.Platform.Entities.{Task}
use task_scheduling_platform.Platform.Io.{
  World, Result-cases, Error, err, ok, Key, Cached, Store, cached, task,
}
use task_scheduling_platform.Platform.Drivers.{Platform}
use task_scheduling_platform.Platform.Laws.{IsRedis, Finds}
use task_scheduling_platform.Cache.{put_cache}
use task_scheduling_platform.Cache.Laws.{get_sound, set_sound}
use task_scheduling_platform.Task.Keys.{task_cache_key}
use task_scheduling_platform.Task.Find.{is_task_of, cached_task, load_task, find_by_id}

-- A live task with this id in this workspace.
pub record IsTaskOf (id workspace_id : ℕ) (t : Task) : Type 0 where
  pub same_id : t.id ≡ id
  pub same_workspace : t.workspace_id ≡ workspace_id
  pub live : t.deleted_at ≡ none

-- Every cached entry of a task is a live row of the table with the id of its key. The pages of lists
-- are no part of this: `NoPages` of Task/Writes.antt is about them.
pub record EntriesAgree (w : World) : Type 0 where
  pub cached_id :
      (id : ℕ) (t : Task) → cached w.cache (task_cache_key id) ≡ some (task t) → t.id ≡ id
  pub cached_elem :
      (id : ℕ) (t : Task) → cached w.cache (task_cache_key id) ≡ some (task t) → Elem t w.tasks
  pub cached_live :
      (id : ℕ) (t : Task) → cached w.cache (task_cache_key id) ≡ some (task t) → t.deleted_at ≡ none

pub is_task_of-IsTaskOf :
    (id workspace_id : ℕ) (t : Task)
    → is_task_of id workspace_id t ≡ true
    → IsTaskOf id workspace_id t
is_task_of-IsTaskOf id workspace_id t h = record {
  same_id = ground arith;
  same_workspace = ground arith;
  live = ground arith;
}

task_cache_key-injective : (i j : ℕ) → task_cache_key i ≡ task_cache_key j → i ≡ j
task_cache_key-injective i j e = cc

cached_task-eq-some :
    (workspace_id : ℕ) (o : Option Cached) (t : Task)
    → cached_task workspace_id o ≡ some t
    → (o ≡ some (task t)) × (t.workspace_id ≡ workspace_id)
cached_task-eq-some workspace_id none t h = cc
cached_task-eq-some workspace_id (some (task u)) t h = ground arith
cached_task-eq-some workspace_id (some _) t h = cc

task-injective : {t u : Task} → task t ≡ task u → t ≡ u
task-injective e = cc

-- Storing a row under its own key keeps the cache coherent.
put_cache-EntriesAgree :
    (id : ℕ) (t : Task) (w : World) (c : Store)
    → EntriesAgree w
    → t.id ≡ id
    → Elem t w.tasks
    → t.deleted_at ≡ none
    → ((j : Key) (u : Cached)
        → cached c j ≡ some u
        → ((j ≡ task_cache_key id) × (u ≡ task t)) ⊎ (cached w.cache j ≡ some u))
    → EntriesAgree (put_cache c w)
put_cache-EntriesAgree id t w c h same listed live only = record {
  cached_id = λ i u e. elim (only (task_cache_key i) (task u) e) [
    | inl (f, g) ↦ cc (task_cache_key-injective i id f)
    | inr f ↦ h.cached_id i u f
  ];
  cached_elem = λ i u e. elim (only (task_cache_key i) (task u) e) [
    | inl (f, g) ↦ subst (λ x. Elem x w.tasks) (sym (task-injective g)) listed
    | inr f ↦ h.cached_elem i u f
  ];
  cached_live = λ i u e. elim (only (task_cache_key i) (task u) e) [
    | inl (f, g) ↦ cc
    | inr f ↦ h.cached_live i u f
  ];
}

-- What a successful call has found, and what it has changed.
pub record Found (id workspace_id : ℕ) (t : Task) (w w' : World) : Type 0 where
  pub is_task_of : IsTaskOf id workspace_id t
  pub listed : Elem t w.tasks
  pub only_cache : w' ≡ put_cache w'.cache w
  pub coherent : EntriesAgree w'

module _ (p : Platform) (redis : IsRedis p.redis) (tasks : Finds p.tasks) where
  load_task-Found :
      (id workspace_id : ℕ) (t : Task) (w w' : World)
      → EntriesAgree w
      → load_task p id workspace_id w ≡ (ok t, w')
      → Found id workspace_id t w w'
  unfolding load_task
  load_task-Found id workspace_id t w w' h e =
      elim (Result-cases (p.tasks.find_one (is_task_of id workspace_id) w.tasks)) [
        | inl (none, f) ↦ absurd (ground arith)
        | inl (some u, f) ↦
            let (c, stored, only) = set_sound p redis (task_cache_key id) (task u) 300 w in
            let of = is_task_of-IsTaskOf id workspace_id u (tasks.found_holds _ w.tasks u f) in
            let listed = tasks.found_elem _ w.tasks u f in
            let loaded : (t ≡ u) × (w' ≡ put_cache c w) = ground arith in
            rw (loaded.0, loaded.1)
              (record {
                is_task_of = of;
                listed = listed;
                only_cache = refl;
                coherent = put_cache-EntriesAgree id u w c h of.same_id listed of.live only;
              })
        | inr (x, f) ↦ absurd (ground arith)
      ]

  -- `findById` returns a live row of the table with the id and the workspace asked for, from the
  -- cache or not, and changes nothing but the cache, which stays coherent.
  pub find_by_id-Found :
      (id workspace_id : ℕ) (t : Task) (w w' : World)
      → EntriesAgree w
      → find_by_id p id workspace_id w ≡ (ok t, w')
      → Found id workspace_id t w w'
  unfolding find_by_id
  find_by_id-Found id workspace_id t w w' h e =
      let (o, got, kept) = get_sound p redis (task_cache_key id) w in
      elim (Option-cases (cached_task workspace_id o)) [
        | inl missed ↦ load_task-Found id workspace_id t w w' h (ground arith)
        | inr (u, hit) ↦
            let (f, same) = cached_task-eq-some workspace_id o u hit in
            let found : (t ≡ u) × (w' ≡ w) = ground arith in
            let stored = kept (task u) f in
            rw (found.0, found.1)
              (record {
                is_task_of = record {
                  same_id = h.cached_id id u stored;
                  same_workspace = same;
                  live = h.cached_live id u stored;
                };
                listed = h.cached_elem id u stored;
                only_cache = refl;
                coherent = h;
              })
      ]

  -- A call that fails leaves the state as it was.
  pub find_by_id-eq-err :
      (id workspace_id : ℕ) (x : Error) (w w' : World)
      → find_by_id p id workspace_id w ≡ (err x, w')
      → w' ≡ w
  unfolding find_by_id load_task
  find_by_id-eq-err id workspace_id x w w' e =
      let (o, got, kept) = get_sound p redis (task_cache_key id) w in
      elim (Option-cases (cached_task workspace_id o)) [
        | inl missed ↦ elim (Result-cases (p.tasks.find_one (is_task_of id workspace_id) w.tasks)) [
          | inl (none, f) ↦ ground arith
          | inl (some u, f) ↦
              let (c, stored, only) = set_sound p redis (task_cache_key id) (task u) 300 w in
              absurd (ground arith)
          | inr (y, f) ↦ ground arith
        ]
        | inr (u, hit) ↦ absurd (ground arith)
      ]
