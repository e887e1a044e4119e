-- ===== src/Project.antt =====
-- src/modules/project/project.service.ts: the projects of a workspace, and the cache of their list.
pub mod Lists
pub mod Writes
pub mod Tests
use task_scheduling_platform.Base.{
  ℕ, String, Bool, true, Option, none, some, List, [], ◌∷◌, ◌==◌, ◌&&◌, str_eq, given,
}
use task_scheduling_platform.Platform.Entities.{Project, Json, text, number, obj, field, end}
use task_scheduling_platform.Platform.Io.{
  World, Io, Cached, projects, Key, word, number as number_part, not_found, pure, reads, commits,
  or_throw, ◌>>=◌, ◌>>◌,
}
use task_scheduling_platform.Platform.Drivers.{Platform}
use task_scheduling_platform.Cache
use task_scheduling_platform.Queue.{audit_log, activity_log}
use task_scheduling_platform.Task.Dto.{null_field, opt_text}
use task_scheduling_platform.Task.Find.{or_load}
use task_scheduling_platform.Task.Update.{given_option}

abbrev pub projects_key : ℕ → Key
projects_key workspace_id = word "workspace" ∷ number_part workspace_id ∷ word "projects" ∷ []

abbrev pub put_projects : List Project → World → World
put_projects ps w = record w { projects = ps }

abbrev pub new_project : (workspace_id : ℕ) → String → Option String → Project
new_project workspace_id name description = record {
  id = 0;
  workspace_id = workspace_id;
  name = name;
  description = description;
  status = "ACTIVE";
  created_at = 0;
  updated_at = 0;
}

abbrev pub is_project_of : (id workspace_id : ℕ) → Project → Bool
is_project_of id workspace_id q = q.id == id && q.workspace_id == workspace_id

abbrev pub is_active_in : ℕ → Project → Bool
is_active_in workspace_id q = q.workspace_id == workspace_id && str_eq q.status "ACTIVE"

abbrev pub cached_projects : Option Cached → Option (List Project)
cached_projects (some (projects ps)) = some ps
cached_projects _ = none

abbrev pub patch_project : (name description status : Option String) → Project → Project
patch_project name description status q = record q {
  name = given name q.name;
  description = given_option description q.description;
  status = given status q.status;
}

abbrev project_json : Project → Json
project_json q = obj (
    field "name" (text q.name)
      (null_field "description" (opt_text q.description) (field "status" (text q.status) end)))

abbrev pub place_json : (id workspace_id : ℕ) → Json
place_json id workspace_id =
    obj (field "projectId" (number id) (field "workspaceId" (number workspace_id) end))

abbrev pub change_json : (id workspace_id : ℕ) (previous new : Project) → Json
change_json id workspace_id previous new = obj (
    field "projectId" (number id) (
      field "workspaceId" (number workspace_id)
        (field "previous" (project_json previous) (field "new" (project_json new) end))))

module _ (p : Platform) where
  -- What follows a write: the eviction of the list, and the two logs.
  unfoldable pub settle : (workspace_id user_id id : ℕ) → String → String → Json → Io (Unit {0})
  settle workspace_id user_id id audit activity payload = do
    Cache.del p (projects_key workspace_id)
    audit_log p audit (some user_id) payload
    activity_log p workspace_id "PROJECT" id activity user_id

  unfoldable pub create_project : (workspace_id user_id : ℕ) → String → Option String → Io Project
  create_project workspace_id user_id name description = do
    saved ←
        commits (λ w. p.projects.save (new_project workspace_id name description) w.projects)
          put_projects
    settle workspace_id user_id saved.id "PROJECT_CREATE" "PROJECT_CREATED"
        (place_json saved.id workspace_id)
    pure saved

  unfoldable pub load_projects : ℕ → Io (List Project)
  load_projects workspace_id = do
    ps ← reads (λ w.
        p.projects.find_sorted (is_active_in workspace_id) (λ q. q.created_at) true w.projects)
    Cache.set p (projects_key workspace_id) (projects ps) 300
    pure ps

  unfoldable pub get_projects : ℕ → Io (List Project)
  get_projects workspace_id = do
    cached ← Cache.get p (projects_key workspace_id)
    or_load (cached_projects cached) (load_projects workspace_id)

  unfoldable pub find_project : (id workspace_id : ℕ) → Io Project
  find_project id workspace_id = do
    found ← reads (λ w. p.projects.find_one (is_project_of id workspace_id) w.projects)
    or_throw found (not_found "Project not found in this workspace")

  unfoldable pub update_project :
      (id workspace_id user_id : ℕ) (name description status : Option String) → Io Project
  update_project id workspace_id user_id name description status = do
    q ← find_project id workspace_id
    let e = patch_project name description status q
    saved ← commits (λ w. p.projects.save e w.projects) put_projects
    settle workspace_id user_id id "PROJECT_UPDATE" "PROJECT_UPDATED"
        (change_json id workspace_id q e)
    pure saved

  unfoldable pub delete_project : (id workspace_id user_id : ℕ) → Io (Unit {0})
  delete_project id workspace_id user_id = do
    q ← find_project id workspace_id
    _ ← commits (λ w. p.projects.remove q w.projects) put_projects
    settle workspace_id user_id id "PROJECT_DELETE" "PROJECT_DELETED" (place_json id workspace_id)
