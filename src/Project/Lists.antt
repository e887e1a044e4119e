-- ===== src/Project/Lists.antt =====
-- The cached list of a workspace's active projects never outlives a write.
use task_scheduling_platform.Base.{
  ℕ, String, Option, none, some, ◌≡◌, inl, inr, sym, ap, ◌∙◌, subst, arith, Option-cases,
}
use task_scheduling_platform.Platform.Entities.{Project, Json}
use task_scheduling_platform.Platform.Io.{World, Result-cases, ok, cached}
use task_scheduling_platform.Platform.Drivers.{Platform}
use task_scheduling_platform.Platform.Laws.{IsRedis, IsUp}
use task_scheduling_platform.Cache.{put_cache}
use task_scheduling_platform.Cache.Laws.{get_sound, del_sound}
use task_scheduling_platform.Queue.Laws.{put_jobs, audit_log_sound, activity_log_sound}
use task_scheduling_platform.Project.{
  projects_key, new_project, patch_project, change_json, place_json, put_projects, settle,
  create_project, update_project, delete_project, find_project, load_projects, get_projects,
}

-- No list of the workspace's projects is cached.
abbrev pub NoList : ℕ → World → Type 0
NoList workspace_id w = cached w.cache (projects_key workspace_id) ≡ none

module _ (p : Platform) (redis : IsRedis p.redis) where
  -- The end of every write returns, evicts the list, and leaves the tables alone.
  pub settle_sound :
      (workspace_id user_id id : ℕ) (audit activity : String) (payload : Json) (w : World)
      → IsUp p.redis
      → let run = settle p workspace_id user_id id audit activity payload w in
        (run.0 ≡ ok tt) × NoList workspace_id run.1 × (run.1.projects ≡ w.projects)
  unfolding settle
  settle_sound workspace_id user_id id audit activity payload w up =
      let (c, e, _, gone) = del_sound p redis (projects_key workspace_id) w in
      let v = put_cache c w in
      let (js, f, _) = audit_log_sound p audit (some user_id) payload v in
      let u = record v { jobs = js } in
      let (is, g, _) = activity_log_sound p workspace_id "PROJECT" id activity user_id u in
      let whole : settle p workspace_id user_id id audit activity payload w
          ≡ (ok tt, put_jobs is u) =
        ground arith in
      (
        ap (λ z. z.0) whole,
        ap (λ z. cached z.1.cache (projects_key workspace_id)) whole ∙ gone up,
        ap (λ z. z.1.projects) whole,
      )

-- A write to the projects of a workspace that returns, from the state before it to the one after it.
pub data Wrote (p : Platform) (workspace_id : ℕ) : World → World → Type 0 where
  created :
      (user_id : ℕ) (name : String) (description : Option String) (r : Project) (w w' : World)
      → create_project p workspace_id user_id name description w ≡ (ok r, w')
      → Wrote p workspace_id w w'
  updated :
      (id user_id : ℕ) (name description status : Option String) (r : Project) (w w' : World)
      → update_project p id workspace_id user_id name description status w ≡ (ok r, w')
      → Wrote p workspace_id w w'
  deleted :
      (id user_id : ℕ) (w w' : World)
      → delete_project p id workspace_id user_id w ≡ (ok tt, w')
      → Wrote p workspace_id w w'

module _ (p : Platform) where
  -- Each write ends with `settle`.
  created_settles :
      (workspace_id user_id : ℕ) (name : String) (description : Option String) (r : Project)
      (w w' : World)
      → create_project p workspace_id user_id name description w ≡ (ok r, w')
      → (id : ℕ) × (audit activity : String) × (payload : Json) × (v : World) × (w'
          ≡ (settle p workspace_id user_id id audit activity payload v).1)
  unfolding create_project
  created_settles workspace_id user_id name description r w w' h =
      elim (Result-cases (p.projects.save (new_project workspace_id name description) w.projects)) [
        | inl ((s, ps), e) ↦ (
          s.id,
          "PROJECT_CREATE",
          "PROJECT_CREATED",
          place_json s.id workspace_id,
          put_projects ps w,
          ground arith,
        )
        | inr (x, e) ↦ absurd (ground arith)
      ]

  updated_settles :
      (id workspace_id user_id : ℕ) (name description status : Option String) (r : Project)
      (w w' : World)
      → update_project p id workspace_id user_id name description status w ≡ (ok r, w')
      → (audit activity : String) × (payload : Json) × (v : World) × (w'
          ≡ (settle p workspace_id user_id id audit activity payload v).1)
  unfolding update_project
  updated_settles id workspace_id user_id name description status r w w' h =
      let found = find_project p id workspace_id w in
      elim (Result-cases found.0) [
        | inl (q, e) ↦
            elim (Result-cases
              (p.projects.save (patch_project name description status q) found.1.projects)) [
                | inl ((s, ps), f) ↦ (
                  "PROJECT_UPDATE",
                  "PROJECT_UPDATED",
                  change_json id workspace_id q (patch_project name description status q),
                  put_projects ps found.1,
                  ground arith,
                )
                | inr (x, f) ↦ absurd (ground arith)
              ]
        | inr (x, e) ↦ absurd (ground arith)
      ]

  deleted_settles :
      (id workspace_id user_id : ℕ) (w w' : World)
      → delete_project p id workspace_id user_id w ≡ (ok tt, w')
      → (audit activity : String) × (payload : Json) × (v : World) × (w'
          ≡ (settle p workspace_id user_id id audit activity payload v).1)
  unfolding delete_project
  deleted_settles id workspace_id user_id w w' h =
      let found = find_project p id workspace_id w in
      elim (Result-cases found.0) [
        | inl (q, e) ↦ elim (Result-cases (p.projects.remove q found.1.projects)) [
          | inl ((s, ps), f) ↦ (
            "PROJECT_DELETE",
            "PROJECT_DELETED",
            place_json id workspace_id,
            put_projects ps found.1,
            ground arith,
          )
          | inr (x, f) ↦ absurd (ground arith)
        ]
        | inr (x, e) ↦ absurd (ground arith)
      ]

  module _ (redis : IsRedis p.redis) where
    get_projects_loads :
        (workspace_id : ℕ) (w : World)
        → NoList workspace_id w
        → get_projects p workspace_id w ≡ load_projects p workspace_id w
    unfolding get_projects
    get_projects_loads workspace_id w gone =
        let (o, e, kept) = get_sound p redis (projects_key workspace_id) w in
        elim (Option-cases o) [
          | inl missing ↦ ground arith
          | inr (v, found) ↦ absurd (cc (kept v found))
        ]

    Wrote-NoList :
        (workspace_id : ℕ) (w w' : World)
        → IsUp p.redis
        → Wrote p workspace_id w w'
        → NoList workspace_id w'
    Wrote-NoList workspace_id w w' up (created user_id name description r _ _ h) =
        let (id, audit, activity, payload, v, same) =
          created_settles workspace_id user_id name description r w w' h in
        subst (NoList workspace_id) (sym same)
          (settle_sound p redis workspace_id user_id id audit activity payload v up).1
    Wrote-NoList workspace_id w w' up (updated id user_id name description status r _ _ h) =
        let (audit, activity, payload, v, same) =
          updated_settles id workspace_id user_id name description status r w w' h in
        subst (NoList workspace_id) (sym same)
          (settle_sound p redis workspace_id user_id id audit activity payload v up).1
    Wrote-NoList workspace_id w w' up (deleted id user_id _ _ h) =
        let (audit, activity, payload, v, same) = deleted_settles id workspace_id user_id w w' h in
        subst (NoList workspace_id) (sym same)
          (settle_sound p redis workspace_id user_id id audit activity payload v up).1

    -- A write is seen by the next read: after a creation, an update or a deletion of a project that
    -- returns, and while Redis is up, the list of the workspace's projects comes from the database.
    pub Wrote-get_projects :
        (workspace_id : ℕ) (w w' : World)
        → IsUp p.redis
        → Wrote p workspace_id w w'
        → get_projects p workspace_id w' ≡ load_projects p workspace_id w'
    Wrote-get_projects workspace_id w w' up wrote =
        get_projects_loads workspace_id w' (Wrote-NoList workspace_id w w' up wrote)
