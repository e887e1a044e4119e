-- ===== src/Comment.antt =====
-- src/modules/comment/comment.service.ts: comments on tasks, and who is told of them.
pub mod Added
pub mod Targets
pub mod Told
pub mod Tests
use task_scheduling_platform.Base.{
  ℕ, String, Bool, true, false, Option, none, some, List, [], ◌∷◌, ◌++◌, ◌==◌, ◌&&◌, not, any, ltb,
  truthy, if◌then◌else◌, text_length, first_units,
}
use Prim.Native.String
use task_scheduling_platform.Platform.Entities.{Task, Comment, number, obj, field, end}
use task_scheduling_platform.Platform.Io.{
  World, Io, not_found, pure, reads, commits, or_throw, ◌>>=◌, ◌>>◌,
}
use task_scheduling_platform.Platform.Drivers.{Platform}
use task_scheduling_platform.Platform.Loops.{for_each}
use task_scheduling_platform.Queue.{audit_log, activity_log}
use task_scheduling_platform.Realtime.{send_comment_created}
use task_scheduling_platform.Notification.{create_and_send_notification}
use task_scheduling_platform.Task.Create.{quoted}
use task_scheduling_platform.Task.Find.{is_task_of}

abbrev pub put_comments : List Comment → World → World
put_comments cs w = record w { comments = cs }

abbrev pub new_comment : (task_id user_id : ℕ) → String → Comment
new_comment task_id user_id message = record {
  id = 0;
  task_id = task_id;
  user_id = user_id;
  message = message;
  created_at = 0;
  updated_at = 0;
}

-- `targets.add(id)`: a set keeps its order and takes a member once.
abbrev pub add_target : ℕ → List ℕ → List ℕ
add_target u us = if any (λ v. v == u) us then us else us ++ u ∷ []

abbrev pub assignee_targets : Option ℕ → (user_id : ℕ) → List ℕ
assignee_targets none user_id = []
assignee_targets (some a) user_id = if truthy a && not (a == user_id) then add_target a [] else []

abbrev pub targets : Task → (user_id : ℕ) → List ℕ
targets t user_id =
    let first = assignee_targets t.assigned_to user_id in
    if not (t.created_by == user_id) then add_target t.created_by first else first

abbrev pub excerpt : String → String
excerpt message =
    String.◌++◌ (first_units 50 message) (if ltb 50 (text_length message) then "..." else "")

module _ (p : Platform) where
  abbrev pub find_task : (task_id workspace_id : ℕ) → Io Task
  find_task task_id workspace_id = do
    found ← reads (λ w. p.tasks.find_one (is_task_of task_id workspace_id) w.tasks)
    or_throw found (not_found "Task not found in this workspace")

  unfoldable pub notify_target : Task → String → ℕ → Io (Unit {0})
  notify_target t message target = do
    _ ←
        create_and_send_notification p target "COMMENT_ADDED"
          (String.◌++◌ "New Comment on: " t.title)
          (quoted "A new comment was added to the task \"" t.title
            (quoted "\": \"" (excerpt message) "\""))
    pure tt

  -- What follows the new comment.
  unfoldable pub announce_comment :
      (workspace_id task_id user_id : ℕ) → String → Task → Comment → Io Comment
  announce_comment workspace_id task_id user_id message t saved = do
    with_user ← reads (λ w. p.comments.find_one (λ c. c.id == saved.id) w.comments)
    send_comment_created workspace_id with_user
    audit_log p "COMMENT_CREATE" (some user_id) (
        obj (
          field "commentId" (number saved.id)
            (field "taskId" (number task_id) (field "workspaceId" (number workspace_id) end))))
    activity_log p workspace_id "TASK" task_id "COMMENT_ADDED" user_id
    for_each (targets t user_id) (notify_target t message)
    pure saved

  unfoldable pub add_comment : (workspace_id task_id user_id : ℕ) → String → Io Comment
  add_comment workspace_id task_id user_id message = do
    t ← find_task task_id workspace_id
    saved ←
        commits (λ w. p.comments.save (new_comment task_id user_id message) w.comments) put_comments
    announce_comment workspace_id task_id user_id message t saved

  unfoldable pub get_comments : (task_id workspace_id : ℕ) → Io (List Comment)
  get_comments task_id workspace_id = do
    _ ← find_task task_id workspace_id
    reads (λ w.
        p.comments.find_sorted (λ c. c.task_id == task_id) (λ c. c.created_at) false w.comments)
