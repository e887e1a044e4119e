-- ===== src/Task/Keys.antt =====
-- The cache keys of src/modules/task/task.service.ts, part by part.
use task_scheduling_platform.Base.{
  ℕ, String, Option, none, some, [], ◌∷◌, ◌++◌, text_or, if◌then◌else◌, ◌==◌,
}
use task_scheduling_platform.Platform.Io.{Key, Part, word, number}
use task_scheduling_platform.Task.Dto.{QueryTaskDto}

-- `task:id:${id}`
abbrev pub task_cache_key : ℕ → Key
task_cache_key id = word "task" ∷ word "id" ∷ number id ∷ []

-- `workspace:${workspaceId}:project:${projectId}:tasks:` and then `*`
abbrev pub list_cache_pattern : (workspace_id project_id : ℕ) → Key
list_cache_pattern workspace_id project_id =
    word "workspace" ∷ number workspace_id ∷ word "project" ∷ number project_id ∷ word "tasks" ∷ []

abbrev number_part : Option ℕ → Part
number_part none = word "undefined"
number_part (some n) = number n

abbrev text_part : Option String → Part
text_part none = word "undefined"
text_part (some s) = word s

-- `query.assignedTo || 'all'`
abbrev id_or_all : Option ℕ → Part
id_or_all none = word "all"
id_or_all (some a) = if a == 0 then word "all" else number a

-- What a list key says of the query.
abbrev pub query_parts : QueryTaskDto → Key
query_parts query =
    word "page"
    ∷ number_part query.page
    ∷ word "limit"
    ∷ number_part query.limit
    ∷ word "status"
    ∷ word (text_or query.status "all")
    ∷ word "priority"
    ∷ word (text_or query.priority "all")
    ∷ word "assignee"
    ∷ id_or_all query.assigned_to
    ∷ word "search"
    ∷ word (text_or query.search "none")
    ∷ word "sortBy"
    ∷ text_part query.sort_by
    ∷ word "sortOrder"
    ∷ text_part query.sort_order
    ∷ []

abbrev pub list_cache_key : (workspace_id project_id : ℕ) → QueryTaskDto → Key
list_cache_key workspace_id project_id query =
    list_cache_pattern workspace_id project_id ++ query_parts query
