-- ===== src/Realtime.antt =====
-- src/modules/realtime/realtime.gateway.ts: the events that services send to rooms of sockets.
pub mod Sockets
pub mod Rooms
pub mod Tests
use task_scheduling_platform.Base.{ℕ, String, Option, [], ◌∷◌, ◌++◌}
use task_scheduling_platform.Platform.Entities.{Task, Notification, Comment}
use task_scheduling_platform.Platform.Io.{
  World, Io, Room, workspace_room, user_room, Message, task_message, notification_message,
  comment_message, member_message, MemberInfo, Emission, modify,
}

abbrev pub put_emission : Emission → World → World
put_emission e w = record w { emitted = w.emitted ++ e ∷ [] }

-- `this.server.to(room).emit(event, message)`
unfoldable pub emit : Room → String → Message → Io (Unit {0})
emit room event message =
    modify (put_emission (record { room = room; event = event; message = message }))

unfoldable pub send_task_created : ℕ → Task → Io (Unit {0})
unfolding emit
send_task_created workspace_id t =
    emit (workspace_room workspace_id) "task.created" (task_message t)

unfoldable pub send_task_updated : ℕ → Message → Io (Unit {0})
unfolding emit
send_task_updated workspace_id m = emit (workspace_room workspace_id) "task.updated" m

unfoldable pub send_task_assigned : ℕ → Task → Io (Unit {0})
unfolding emit
send_task_assigned workspace_id t =
    emit (workspace_room workspace_id) "task.assigned" (task_message t)

unfoldable pub send_notification_created : ℕ → Notification → Io (Unit {0})
unfolding emit
send_notification_created user_id n =
    emit (user_room user_id) "notification.created" (notification_message n)

unfoldable pub send_comment_created : ℕ → Option Comment → Io (Unit {0})
unfolding emit
send_comment_created workspace_id c =
    emit (workspace_room workspace_id) "comment.created" (comment_message c)

unfoldable pub send_member_joined : ℕ → MemberInfo → Io (Unit {0})
unfolding emit
send_member_joined workspace_id m =
    emit (workspace_room workspace_id) "workspace.member.joined" (member_message m)
