-- ===== src/Task/Tests.antt =====
-- Runs of the task service, and its theorems at concrete inputs.
use task_scheduling_platform.Base.{map, ◌∷◌, [], ◌≡◌, ◌≢◌, refl, none, some, arith, eq_iff}
use task_scheduling_platform.Platform.Entities.{Task}
use task_scheduling_platform.Platform.Io.{World, pair_eq, ok, err, conflict, cached, key_eq}
use task_scheduling_platform.Platform.Laws.{IsUp, Finds, Saves, Identifies}
use task_scheduling_platform.Cache.{put_cache, get, set, del, del_pattern}
use task_scheduling_platform.Queue.{audit_log, activity_log}
use task_scheduling_platform.Realtime.{send_task_created, send_task_updated}
use task_scheduling_platform.Notification.{create_and_send_notification}
use task_scheduling_platform.Task.Dto.{UpdateTaskDto, CreateTaskDto}
use task_scheduling_platform.Task.Find.{find_by_id, load_task}
use task_scheduling_platform.Task.Create.{new_task, create_task, announce_create, notify_assignee}
use task_scheduling_platform.Task.Update.{
  apply_update, record_change, announce_update, persist_update, update_task, announce_delete,
  delete_task, locking_message,
}
use task_scheduling_platform.Task.Coherence.{EntriesAgree}
use task_scheduling_platform.Task.Writes.{StoredTask, NoPages}
use task_scheduling_platform.Task.Updates.{
  Updated, Refreshed, update_task-Updated, update_task_stale, update_task-Refreshed,
  update_task-NoPages,
}
use task_scheduling_platform.Task.Creates.{Created, create_task-Created}
use task_scheduling_platform.Task.Deletes.{Deleted, delete_task-Deleted}
use task_scheduling_platform.Task.Keys.{task_cache_key}
use task_scheduling_platform.Task.Completion.{IsDated}
use task_scheduling_platform.Sample.Table.{table-Finds, table-Identifies, table-Saves}
use task_scheduling_platform.Sample.Store.{
  store_redis, store_redis-IsRedis, store_redis-IsUp, soft-SoftRemoves,
}
use task_scheduling_platform.Sample.World.{sample, world, first_task}

runs : Unit {0}
unfolding find_by_id load_task create_task announce_create notify_assignee apply_update
    record_change announce_update persist_update update_task announce_delete delete_task get set del
    del_pattern audit_log activity_log send_task_created send_task_updated
    create_and_send_notification cached key_eq
runs = tt

abbrev no_change : UpdateTaskDto
no_change = record {
  title = none;
  description = none;
  status = none;
  priority = none;
  assigned_to = none;
  due_date = none;
  labels = none;
  attachments = none;
  version = none;
}

abbrev finish : UpdateTaskDto
finish = record no_change { status = some "DONE"; version = some 3 }

abbrev task_finds : Finds sample.tasks
task_finds = table-Finds (λ (r : Task). r.id) (λ n r. record r { id = n })

abbrev task_ids : Identifies (λ (t : Task). t.id) sample.tasks
task_ids = table-Identifies (λ (r : Task). r.id) (λ n r. record r { id = n }) (λ n r. refl)

abbrev task_saves : Saves (λ (t : Task). t.id) StoredTask sample.tasks
task_saves =
    table-Saves (λ (r : Task). r.id) (λ n r. record r { id = n }) (λ n r. refl) StoredTask
      (λ e. refl) (λ n e. refl)

world-EntriesAgree : EntriesAgree world
unfolding cached
world-EntriesAgree = record {
  cached_id = λ i t e. cc;
  cached_elem = λ i t e. absurd (cc);
  cached_live = λ i t e. cc;
}

abbrev finished : Task
finished = record first_task { status = "DONE"; completed_at = some 50 }

update_finishes : (update_task sample 1 5 1 finish world).0 ≡ ok finished
unfolding runs
update_finishes = refl

update_task-Updated_example :
    Updated sample 1 5 finish finished world (update_task sample 1 5 1 finish world).1
update_task-Updated_example =
    update_task-Updated sample store_redis-IsRedis task_finds task_saves task_ids 1 5 1 finish
      finished world (update_task sample 1 5 1 finish world).1 (omega arith) world-EntriesAgree
      (pair_eq _ update_finishes)

update_task_stale_example :
    let w = (find_by_id sample 1 5 world).1 in
    (update_task sample 1 5 1 (record finish { version = some 2 }) world
      ≡ (err (conflict locking_message), w))
    × (w ≡ put_cache w.cache world)
unfolding find_by_id load_task get set cached
update_task_stale_example =
    update_task_stale sample store_redis-IsRedis task_finds task_saves task_ids 1 5 1 2
      (record finish { version = some 2 }) first_task world (find_by_id sample 1 5 world).1
      world-EntriesAgree refl refl (omega arith)

update_task-Refreshed_example : Refreshed 1 5 world (update_task sample 1 5 1 finish world).1
update_task-Refreshed_example =
    update_task-Refreshed sample store_redis-IsRedis task_finds task_saves task_ids 1 5 1 finish
      world store_redis-IsUp (omega arith) world-EntriesAgree

update_task-NoPages_example :
    let w = (update_task sample 1 5 1 finish world).1 in
    NoPages 5 6 w × (cached w.cache (task_cache_key 1) ≡ none)
update_task-NoPages_example =
    update_task-NoPages sample store_redis-IsRedis task_finds task_saves task_ids 1 5 1 finish
      finished world (update_task sample 1 5 1 finish world).1 store_redis-IsUp
      (pair_eq _ update_finishes)

abbrev plan : CreateTaskDto
plan = record {
  title = "Plan";
  description = none;
  parent_task_id = none;
  priority = some "";
  assigned_to = some 2;
  due_date = some "2026-01-01";
  labels = none;
  attachments = none;
}

abbrev planned : Task
planned = record (new_task sample.parse_date 5 6 1 plan) { id = 3 }

create_plans : (create_task sample 5 6 1 plan world).0 ≡ ok planned
unfolding runs
create_plans = refl

-- The new task has priority MEDIUM, since an empty priority counts as none.
planned_priority : planned.priority ≡ "MEDIUM"
planned_priority = refl

create_task-Created_example :
    let w = (create_task sample 5 6 1 plan world).1 in
    Created sample 5 6 1 plan planned world w × (IsUp store_redis → NoPages 5 6 w)
create_task-Created_example =
    create_task-Created sample store_redis-IsRedis task_saves task_ids 5 6 1 plan planned world
      (create_task sample 5 6 1 plan world).1 (pair_eq _ create_plans)

delete_returns : (delete_task sample 2 5 1 world).0 ≡ ok tt
unfolding runs
delete_returns = refl

delete_task-Deleted_example :
    let w = (delete_task sample 2 5 1 world).1 in
    Deleted 2 5 world w × ((t : Task) (w₂ : World) → find_by_id sample 2 5 w ≢ (ok t, w₂))
delete_task-Deleted_example =
    delete_task-Deleted sample store_redis-IsRedis task_finds soft-SoftRemoves 2 5 1 world
      (delete_task sample 2 5 1 world).1 store_redis-IsUp world-EntriesAgree
      (pair_eq _ delete_returns)

-- The first task has an assignee, and a request to give it to another user is answered as if done,
-- but not stored.
assignee_stays :
    let (r, w) = update_task sample 1 5 1 (record no_change { assigned_to = some 3 }) world in
    map (λ (t : Task). t.assigned_to) w.tasks ≡ some 2 ∷ some 2 ∷ []
unfolding runs
assignee_stays = refl

first_task_open : first_task.status ≢ "DONE"
first_task_open e = ground (arith, eq_iff "TODO" "DONE")

first_task-IsDated : IsDated first_task
first_task-IsDated = record { dated = λ e. absurd (first_task_open e); undated = λ ne. refl }
