-- ===== src/Task/Find.antt =====
-- Reading tasks: `findById` and `getTasks` of src/modules/task/task.service.ts.
use task_scheduling_platform.Base.{
  ℕ, String, Bool, true, Option, none, some, ◌==◌, ◌&&◌, not, ◌+◌, ◌-◌, ◌*◌, ◌/◌, str_eq, is_some,
  number_or, text_or, same_number, if◌then◌else◌,
}
use task_scheduling_platform.Platform.Entities.{Task}
use task_scheduling_platform.Platform.Io.{
  Io, Cached, task, task_page, TaskPage, not_found, pure, reads, or_throw, ◌>>=◌, ◌>>◌,
}
use task_scheduling_platform.Platform.Drivers.{
  Platform, SortField, created_at, due_date, title, SortOrder, asc, desc,
}
use task_scheduling_platform.Cache
use task_scheduling_platform.Task.Dto.{QueryTaskDto}
use task_scheduling_platform.Task.Keys.{task_cache_key, list_cache_key}

-- TypeORM adds `deletedAt IS NULL` to every query of an entity with a `@DeleteDateColumn`.
abbrev pub not_deleted : Task → Bool
not_deleted t = not (is_some t.deleted_at)

abbrev pub is_task_of : (id workspace_id : ℕ) → Task → Bool
is_task_of id workspace_id t = t.id == id && t.workspace_id == workspace_id && not_deleted t

-- `cached && cached.workspaceId === workspaceId`
abbrev pub cached_task : ℕ → Option Cached → Option Task
cached_task workspace_id (some (task t)) = if t.workspace_id == workspace_id then some t else none
cached_task workspace_id _ = none

abbrev pub or_load : {A : Type 0} → Option A → Io A → Io A
or_load (some a) m = pure a
or_load none m = m

-- `if (query.x) queryBuilder.andWhere('task.x = :x')`
abbrev pub text_filter : Option String → String → Bool
text_filter none s = true
text_filter (some q) s = if str_eq q "" then true else str_eq s q

abbrev pub id_filter : Option ℕ → Option ℕ → Bool
id_filter none a = true
id_filter (some q) a = if q == 0 then true else same_number a (some q)

abbrev pub search_filter : (String → Task → Bool) → Option String → Task → Bool
search_filter matches none t = true
search_filter matches (some q) t = if str_eq q "" then true else matches q t

abbrev pub sort_field : Option String → SortField
sort_field none = created_at
sort_field (some s) =
    if str_eq s "dueDate" then due_date else if str_eq s "title" then title else created_at

abbrev pub sort_order : Option String → SortOrder
sort_order o = if str_eq (text_or o "DESC") "ASC" then asc else desc

-- `Math.ceil(total / limit)`, for a limit that is not 0
abbrev pub ceil_div : ℕ → ℕ → ℕ
ceil_div total limit = (total + limit - 1) / limit

abbrev pub cached_page : Option Cached → Option TaskPage
cached_page (some (task_page page)) = some page
cached_page _ = none

module _ (p : Platform) where
  abbrev pub task_filter : (workspace_id project_id : ℕ) → QueryTaskDto → Task → Bool
  task_filter workspace_id project_id query t =
      t.workspace_id == workspace_id
      && t.project_id == project_id
      && text_filter query.status t.status
      && text_filter query.priority t.priority
      && id_filter query.assigned_to t.assigned_to
      && search_filter p.text_matches query.search t
      && not_deleted t

  unfoldable pub load_task : (id workspace_id : ℕ) → Io Task
  load_task id workspace_id = do
    found ← reads (λ w. p.tasks.find_one (is_task_of id workspace_id) w.tasks)
    t ← or_throw found (not_found "Task not found in this workspace")
    Cache.set p (task_cache_key id) (task t) 300
    pure t

  unfoldable pub find_by_id : (id workspace_id : ℕ) → Io Task
  find_by_id id workspace_id = do
    cached ← Cache.get p (task_cache_key id)
    or_load (cached_task workspace_id cached) (load_task id workspace_id)

  unfoldable pub load_page : (workspace_id project_id : ℕ) → QueryTaskDto → Io TaskPage
  load_page workspace_id project_id query = do
    let page = number_or query.page 1
    let limit = number_or query.limit 10
    let skip = (page - 1) * limit
    found ← reads (λ w.
        p.many_and_count (task_filter workspace_id project_id query) (sort_field query.sort_by)
          (sort_order query.sort_order) limit skip w.tasks)
    let result : TaskPage = record {
      items = found.0;
      total = found.1;
      page = page;
      limit = limit;
      total_pages = ceil_div found.1 limit;
    }
    Cache.set p (list_cache_key workspace_id project_id query) (task_page result) 300
    pure result

  unfoldable pub get_tasks : (workspace_id project_id : ℕ) → QueryTaskDto → Io TaskPage
  get_tasks workspace_id project_id query = do
    cached ← Cache.get p (list_cache_key workspace_id project_id query)
    or_load (cached_page cached) (load_page workspace_id project_id query)
