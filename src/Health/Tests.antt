-- ===== src/Health/Tests.antt =====
-- Checks of health on a client with one bit of state.
use task_scheduling_platform.Base.{String, Bool, true, false, [], ◌∷◌, refl, ◌≡◌, arith}
use task_scheduling_platform.Platform.Entities.{Json}
use task_scheduling_platform.Http.Envelope.{Js}
use task_scheduling_platform.Health.{
  Answer, done, failed, RedisClient, full, redis_only, probe_all, check, check_db, check_redis,
  returned, health, up, redis_finding, verdict, unavailable_with,
}
use task_scheduling_platform.Health.Outage.{Connects, AllUnavailable, probe_all_stuck}

abbrev js : Js
js = record { iso = λ n. "2026-01-01"; show = λ v. "[object Object]" }

abbrev message_of : Json → String
message_of body = "Service Unavailable Exception"

abbrev connect : Bool → Answer (Unit {0}) × Bool
connect true = (failed "Redis is already connecting/connected", true)
connect false = (done tt, true)

-- A server that asks for a password.
abbrev locked : RedisClient Bool
locked = record {
  connect = connect;
  ping = λ s. (failed "NOAUTH Authentication required.", s);
  disconnect = λ s. false;
}

abbrev open_server : RedisClient Bool
open_server = record { connect = connect; ping = λ s. (done "PONG", s); disconnect = λ s. false }

connect_twice :
    (s : Bool) → s ≡ true → locked.connect s ≡ (failed "Redis is already connecting/connected", s)
connect_twice true h = refl
connect_twice false h = absurd (ground arith)

locked-Connects : Connects locked (λ s. s) "Redis is already connecting/connected"
locked-Connects = record { refuses = connect_twice }

probe_all_stuck_example :
    AllUnavailable
      (probe_all js message_of locked (full (done tt) 3 ∷ redis_only ∷ full (done tt) 9 ∷ []) false)
probe_all_stuck_example =
    probe_all_stuck js message_of locked (λ s. s) "Redis is already connecting/connected"
      locked-Connects (full (done tt) 3) (redis_only ∷ full (done tt) 9 ∷ []) false true true
      "NOAUTH Authentication required." refl refl refl

-- Where the server answers pings, each check leaves the client as it was.
checks_go_on :
    probe_all js message_of open_server (redis_only ∷ redis_only ∷ []) false
    ≡ (check_redis js message_of open_server false).0
      ∷ (check_redis js message_of open_server false).0
      ∷ []
unfolding probe_all check_redis
checks_go_on = refl

check_is_ok :
    check js message_of open_server (done tt) 7 false
    ≡ (returned (health js message_of "ok" up up 7), false)
unfolding check redis_finding verdict
check_is_ok = refl

db_down : check_db js message_of (failed "timeout") ≡ unavailable_with js message_of "timeout"
unfolding check_db
db_down = refl
