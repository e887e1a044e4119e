-- ===== src/Comment/Tests.antt =====
-- Runs of the comment service, and its theorems at concrete inputs.
use task_scheduling_platform.Base.{
  ℕ, List, ◌++◌, ◌≡◌, ◌≢◌, ◌⊎◌, ◌↔◌, refl, some, [], ◌∷◌, Elem, map, text_length, first_units,
}
use task_scheduling_platform.Platform.Entities.{Task, Comment, Notification}
use task_scheduling_platform.Platform.Io.{World, ok, pair_eq}
use task_scheduling_platform.Platform.Loops.{for_each}
use task_scheduling_platform.Queue.{audit_log, activity_log}
use task_scheduling_platform.Realtime.{send_comment_created}
use task_scheduling_platform.Notification.{create_and_send_notification}
use task_scheduling_platform.Comment.{excerpt, notify_target, announce_comment, add_comment}
use task_scheduling_platform.Comment.Targets.{AllDifferent}
use task_scheduling_platform.Comment.Told.{told, add_comment-told}
use task_scheduling_platform.Task.Coherence.{IsTaskOf}
use task_scheduling_platform.Sample.Table.{table-Finds}
use task_scheduling_platform.Sample.World.{sample, world}

runs : Unit {0}
unfolding for_each audit_log activity_log send_comment_created create_and_send_notification
    notify_target announce_comment add_comment text_length first_units
runs = tt

abbrev comment : Comment
comment = record {
  id = 1;
  task_id = 1;
  user_id = 3;
  message = "Looks good";
  created_at = 0;
  updated_at = 0;
}

abbrev commented : World
commented = (add_comment sample 5 1 3 "Looks good" world).1

comments : (add_comment sample 5 1 3 "Looks good" world).0 ≡ ok comment
unfolding runs
comments = refl

-- The assignee and the creator are told.
tells : map (λ (n : Notification). n.user_id) commented.notifications ≡ 2 ∷ 1 ∷ []
unfolding runs
tells = refl

short_excerpt : excerpt "Looks good" ≡ "Looks good"
unfolding runs
short_excerpt = refl

add_comment-told_example :
    (t : Task) × Elem t world.tasks
    × IsTaskOf 1 5 t
    × (us : List ℕ) × (told commented.emitted ≡ told world.emitted ++ us)
    × ((u : ℕ)
        → Elem u us ↔ ((u ≢ 3) × (((t.assigned_to ≡ some u) × (u ≢ 0)) ⊎ (t.created_by ≡ u))))
    × AllDifferent us
add_comment-told_example =
    add_comment-told sample (table-Finds (λ (r : Task). r.id) (λ n r. record r { id = n })) 5 1 3
      "Looks good" comment world commented (pair_eq _ comments)
