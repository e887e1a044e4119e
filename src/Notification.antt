-- ===== src/Notification.antt =====
-- src/modules/notification/notification.service.ts: notifications are stored, sent to the user's
-- sockets, and queued for push and email.
pub mod Frame
use task_scheduling_platform.Base.{
  ℕ, String, Bool, true, false, Option, none, some, List, ◌==◌, ◌&&◌, not,
}
use task_scheduling_platform.Platform.Entities.{Notification}
use task_scheduling_platform.Platform.Io.{
  World, Io, Job, send_push, send_email, pure, reads, commits, writes, ◌>>=◌, ◌>>◌,
}
use task_scheduling_platform.Platform.Drivers.{Platform}
use task_scheduling_platform.Queue.{add_job, three_attempts}
use task_scheduling_platform.Realtime.{send_notification_created}

abbrev pub put_notifications : List Notification → World → World
put_notifications ns w = record w { notifications = ns }

abbrev pub new_notification : (user_id : ℕ) (type title message : String) → Notification
new_notification user_id type title message = record {
  id = 0;
  user_id = user_id;
  type = type;
  title = title;
  message = message;
  is_read = false;
  created_at = 0;
}

abbrev push_job : Notification → (user_id : ℕ) (type title message : String) → Job
push_job n user_id type title message = record {
  body = send_push n.id user_id type title message;
  options = three_attempts 1000;
}

abbrev email_job : (user_id : ℕ) (title message : String) → Job
email_job user_id title message = record {
  body = send_email user_id title message;
  options = three_attempts 2000;
}

abbrev same_flag : Bool → Bool → Bool
same_flag true b = b
same_flag false b = not b

-- `where.isRead = isRead` if it is given
abbrev read_is : Option Bool → Notification → Bool
read_is none n = true
read_is (some b) n = same_flag b n.is_read

module _ (p : Platform) where
  -- The `catch` only logs, and throws the error again.
  unfoldable pub create_and_send_notification :
      (user_id : ℕ) (type title message : String) → Io Notification
  unfolding send_notification_created add_job
  create_and_send_notification user_id type title message = do
    saved ←
        commits
          (λ w. p.notifications.save (new_notification user_id type title message) w.notifications)
          put_notifications
    send_notification_created user_id saved
    add_job p (push_job saved user_id type title message)
    add_job p (email_job user_id title message)
    pure saved

  unfoldable pub get_notifications_for_user : ℕ → Option Bool → Io (List Notification)
  get_notifications_for_user user_id is_read = reads (λ w.
      p.notifications.find_sorted (λ n. n.user_id == user_id && read_is is_read n)
        (λ n. n.created_at) true w.notifications)

  mark : Option Notification → Io (Option Notification)
  mark none = pure none
  mark (some n) = do
    saved ←
        commits (λ w. p.notifications.save (record n { is_read = true }) w.notifications)
          put_notifications
    pure (some saved)

  unfoldable pub mark_as_read : (id user_id : ℕ) → Io (Option Notification)
  unfolding mark
  mark_as_read id user_id = do
    found ←
        reads
          (λ w. p.notifications.find_one (λ n. n.id == id && n.user_id == user_id) w.notifications)
    mark found

  unfoldable pub mark_all_as_read : ℕ → Io (Unit {0})
  mark_all_as_read user_id =
      writes
        (λ w.
          p.notifications.update (λ n. n.user_id == user_id && same_flag false n.is_read)
            (λ n. record n { is_read = true }) w.notifications)
        put_notifications
