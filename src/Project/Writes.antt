-- ===== src/Project/Writes.antt =====
-- What an update of a project changes.
use task_scheduling_platform.Base.{
  ℕ, String, true, Option, none, some, List, ◌≡◌, ◌≢◌, inl, inr, sym, ap, ◌∙◌, subst, arith, Elem,
}
use task_scheduling_platform.Platform.Entities.{Project, Json}
use task_scheduling_platform.Platform.Io.{World, Result-cases, ok}
use task_scheduling_platform.Platform.Drivers.{Platform}
use task_scheduling_platform.Platform.Laws.{Finds, Saves, Identifies}
use task_scheduling_platform.Cache.{del}
use task_scheduling_platform.Queue.{audit_log, activity_log}
use task_scheduling_platform.Project.{
  is_project_of, patch_project, change_json, put_projects, find_project, settle, update_project,
}

abbrev pub StoredProject : Project → Project → Type 0
StoredProject e r = r ≡ record e { id = r.id; created_at = r.created_at; updated_at = r.updated_at }

abbrev pub project_id : Project → ℕ
project_id q = q.id

-- What an update that returns `r` has done to the project that it found.
pub record Changed (id workspace_id : ℕ) (name description status : Option String) (r : Project)
    (w w' : World) : Type 0 where
  pub old : Project
  pub listed : Elem old w.projects
  pub of_workspace : is_project_of id workspace_id old ≡ true
  pub stored : Elem r w'.projects
  pub same_id : r.id ≡ id
  pub columns : StoredProject (patch_project name description status old) r
  pub others_stay : (x : Project) → x.id ≢ id → Elem x w.projects → Elem x w'.projects
  pub others_only : (x : Project) → x.id ≢ id → Elem x w'.projects → Elem x w.projects

module _ (p : Platform) where
  settle_projects :
      (workspace_id user_id id : ℕ) (audit activity : String) (payload : Json) (w : World)
      → (settle p workspace_id user_id id audit activity payload w).1.projects ≡ w.projects
  unfolding settle del audit_log activity_log
  settle_projects workspace_id user_id id audit activity payload w = ground arith

  update_project-ok :
      (id workspace_id user_id : ℕ) (name description status : Option String) (r : Project)
      (w w' : World)
      → update_project p id workspace_id user_id name description status w ≡ (ok r, w')
      → (q : Project) × (ps : List Project) × (p.projects.find_one
            (is_project_of id workspace_id)
            w.projects
          ≡ ok (some q))
        × (p.projects.save (patch_project name description status q) w.projects ≡ ok (r, ps))
        × (w'.projects ≡ ps)
  unfolding update_project find_project
  update_project-ok id workspace_id user_id name description status r w w' h =
      elim (Result-cases (p.projects.find_one (is_project_of id workspace_id) w.projects)) [
        | inl (none, e) ↦ absurd (ground arith)
        | inl (some q, e) ↦
            let changed = patch_project name description status q in
            elim (Result-cases (p.projects.save changed w.projects)) [
              | inl ((s, ps), f) ↦
                  let kept =
                    settle_projects workspace_id user_id id "PROJECT_UPDATE" "PROJECT_UPDATED"
                      (change_json id workspace_id q changed) (put_projects ps w) in
                  (q, ps, e, ground arith, ground arith)
              | inr (x, f) ↦ absurd (ground arith)
            ]
        | inr (x, e) ↦ absurd (ground arith)
      ]

  module _ (finds : Finds p.projects) (saves : Saves project_id StoredProject p.projects)
      (ids : Identifies project_id p.projects) where
    -- An update that returns has found a project with the id in the workspace, and has stored it with
    -- the name, the description and the status that are given, and the old ones where they are not,
    -- under the same id; every other project is as before.
    pub update_project-Changed :
        (id workspace_id user_id : ℕ) (name description status : Option String) (r : Project)
        (w w' : World)
        → id ≢ 0
        → update_project p id workspace_id user_id name description status w ≡ (ok r, w')
        → Changed id workspace_id name description status r w w'
    update_project-Changed id workspace_id user_id name description status r w w' nz h =
        let (q, ps, found, saved, rows) =
          update_project-ok id workspace_id user_id name description status r w w' h in
        let is = finds.found_holds _ w.projects q found in
        let q_id : q.id ≡ id = ground arith in
        let same_id : r.id ≡ id =
          ids.kept_id _ r w.projects ps saved (λ z. nz (sym q_id ∙ z)) ∙ q_id in
        record {
          old = q;
          listed = finds.found_elem _ w.projects q found;
          of_workspace = is;
          stored = subst (Elem r) (sym rows) (saves.saved_elem _ r w.projects ps saved);
          same_id = same_id;
          columns = saves.saved_columns _ r w.projects ps saved;
          others_stay = λ x ne k.
              subst (Elem x) (sym rows)
                (saves.saved_others _ r w.projects ps saved x k (λ z. ne (z ∙ same_id)));
          others_only = λ x ne k.
              elim (saves.saved_only _ r w.projects ps saved x (subst (Elem x) rows k)) [
                | inl z ↦ absurd (ne (ap project_id z ∙ same_id))
                | inr (old, _) ↦ old
              ];
        }
