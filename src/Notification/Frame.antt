-- ===== src/Notification/Frame.antt =====
-- What logging, events and notifications leave alone: every table but the notifications, and the
-- cache. The services use these facts of the calls that follow their own writes.
use task_scheduling_platform.Base.{ℕ, String, Bool, true, false, Option, ◌≡◌, refl, arith, inl, inr}
use task_scheduling_platform.Platform.Entities.{Json}
use task_scheduling_platform.Platform.Io.{
  World, Io, Message, Room, when, pure, asks, ◌>>=◌, Result-cases,
}
use task_scheduling_platform.Platform.Drivers.{Platform}
use task_scheduling_platform.Queue.{audit_log, activity_log}
use task_scheduling_platform.Realtime.{emit}
use task_scheduling_platform.Notification.{create_and_send_notification}

-- Only notifications, events and jobs differ.
abbrev pub Notifies : World → World → Type 0
Notifies w w' =
    w' ≡ record w { notifications = w'.notifications; emitted = w'.emitted; jobs = w'.jobs }

pub Notifies-trans : (u v w : World) → Notifies u v → Notifies v w → Notifies u w
Notifies-trans u v w h k = cc

-- Every run of the action only notifies.
abbrev pub Framed : {A : Type 0} → Io A → Type 0
Framed m = (w : World) → Notifies w (m w).1

module _ {A B : Type 0} where
  pub >>=-Framed :
      (m : Io A) (k : A → Io B) → Framed m → ((a : A) → Framed (k a)) → Framed (m >>= k)
  >>=-Framed m k h g w = elim (Result-cases (m w).0) [
    | inl (a, e) ↦ rw (e, ◌>>=◌) (Notifies-trans w (m w).1 (k a (m w).1).1 (h w) (g a (m w).1))
    | inr (x, e) ↦ rw (e, ◌>>=◌) (h w)
  ]

pub pure-Framed : {A : Type 0} (a : A) → Framed (pure a)
pure-Framed a w = refl

pub when-Framed : (b : Bool) (m : Io (Unit {0})) → Framed m → Framed (when b m)
when-Framed true m h w = h w
when-Framed false m h w = refl

pub asks-Framed : {A : Type 0} (f : World → A) → Framed (asks f)
asks-Framed f w = refl

pub emit-Framed : (room : Room) (event : String) (m : Message) → Framed (emit room event m)
unfolding emit
emit-Framed room event m w = refl

module _ (p : Platform) where
  pub audit_log-Framed :
      (action : String) (user_id : Option ℕ) (payload : Json)
      → Framed (audit_log p action user_id payload)
  unfolding audit_log
  audit_log-Framed action user_id payload w = ground arith

  pub activity_log-Framed :
      (workspace_id : ℕ) (entity_type : String) (entity_id : ℕ) (action : String) (performed_by : ℕ)
      → Framed (activity_log p workspace_id entity_type entity_id action performed_by)
  unfolding activity_log
  activity_log-Framed workspace_id entity_type entity_id action performed_by w = ground arith

  pub create_and_send_notification-Framed :
      (user_id : ℕ) (type title message : String)
      → Framed (create_and_send_notification p user_id type title message)
  unfolding create_and_send_notification
  create_and_send_notification-Framed user_id type title message w = ground arith

pub ruleset framed = (
  >>=-Framed, pure-Framed, when-Framed, asks-Framed, emit-Framed, audit_log-Framed,
  activity_log-Framed, create_and_send_notification-Framed,
)
