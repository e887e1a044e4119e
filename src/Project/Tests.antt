-- ===== src/Project/Tests.antt =====
-- Runs of the project service, and its theorems at concrete inputs.
use task_scheduling_platform.Base.{◌≡◌, refl, none, some, [], ◌∷◌}
use task_scheduling_platform.Platform.Entities.{Project}
use task_scheduling_platform.Platform.Io.{World, ok, pair_eq, cached, key_eq}
use task_scheduling_platform.Cache.{get, set, del}
use task_scheduling_platform.Queue.{audit_log, activity_log}
use task_scheduling_platform.Project.{
  settle, create_project, load_projects, get_projects, find_project, update_project, delete_project,
}
use task_scheduling_platform.Project.Lists.{updated, Wrote-get_projects}
use task_scheduling_platform.Sample.Store.{store_redis-IsRedis, store_redis-IsUp}
use task_scheduling_platform.Sample.World.{sample, world}

runs : Unit {0}
unfolding get set del audit_log activity_log settle create_project load_projects get_projects
    find_project update_project delete_project cached key_eq
runs = tt

abbrev project : Project
project = record {
  id = 6;
  workspace_id = 5;
  name = "Launch";
  description = none;
  status = "ACTIVE";
  created_at = 1;
  updated_at = 1;
}

-- A world whose list of projects has been read, and is cached.
abbrev read : World
read = (get_projects sample 5 (record world { projects = project ∷ [] })).1

abbrev archived : Project
archived = record project { status = "ARCHIVED" }

abbrev written : World
written = (update_project sample 6 5 1 none none (some "ARCHIVED") read).1

writes : (update_project sample 6 5 1 none none (some "ARCHIVED") read).0 ≡ ok archived
unfolding runs
writes = refl

rereads : (get_projects sample 5 written).0 ≡ ok []
unfolding runs
rereads = refl

Wrote-get_projects_example : get_projects sample 5 written ≡ load_projects sample 5 written
Wrote-get_projects_example =
    Wrote-get_projects sample store_redis-IsRedis 5 read written store_redis-IsUp
      (updated 6 1 none none (some "ARCHIVED") archived read written (pair_eq _ writes))
