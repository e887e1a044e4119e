-- ===== src/Health.antt =====
-- HealthController of src/modules/health/health.controller.ts, whose client of Redis lives as long
-- as the server.
pub mod Outage
pub mod Tests
use task_scheduling_platform.Base.{
  ℕ, String, Bool, ◌&&◌, Option, none, some, List, [], ◌∷◌, ◌++◌, str_eq, if◌then◌else◌,
}
use Prim.Native.String
use task_scheduling_platform.Platform.Entities.{Json, text, obj, Fields, end, field}
use task_scheduling_platform.Http.Envelope.{Js, Exception, http_exception}

-- What an awaited call answers, or the message of what it rejects with.
pub data Answer (A : Type 0) : Type 0 where
  done : A → Answer A
  failed : (message : String) → Answer A

-- The client of ioredis, on its own state.
pub record RedisClient (S : Type 0) : Type 0 where
  pub connect : S → Answer (Unit {0}) × S
  pub ping : S → Answer String × S
  pub disconnect : S → S

-- What a method of the controller does: it returns, or it throws.
pub data Outcome : Type 0 where
  returned : Json → Outcome
  thrown : Exception → Outcome

-- `{ status }`
abbrev pub status_object : String → Json
status_object s = obj (field "status" (text s) end)

abbrev pub info : (parts : Fields) → Json
info parts = obj (field "status" (text "ok") (field "info" (obj parts) end))

-- What `check` knows of a part of the system: its status, and what went wrong.
pub record Finding : Type 0 where
  pub status : String
  pub errors : List String

abbrev pub up : Finding
up = record { status = "up"; errors = [] }

abbrev pub down : String → Finding
down message = record { status = "down"; errors = message ∷ [] }

abbrev pub database_finding : Answer (Unit {0}) → Finding
database_finding (done _) = up
database_finding (failed m) = down (String.◌++◌ "Database connection failed: " m)

abbrev pub pong_finding : String → Finding
pong_finding reply = if str_eq reply "PONG" then up else down "Redis ping did not return PONG"

module _ {S : Type 0} (client : RedisClient S) where
  -- The second `try` of `check`: only a ping that is answered is followed by `disconnect`.
  abbrev pub pinged_finding : Answer String × S → Finding × S
  pinged_finding (done reply, s) = (pong_finding reply, client.disconnect s)
  pinged_finding (failed m, s) = (down (String.◌++◌ "Redis connection failed: " m), s)

  abbrev pub connected_finding : Answer (Unit {0}) × S → Finding × S
  connected_finding (done _, s) = pinged_finding (client.ping s)
  connected_finding (failed m, s) = (down (String.◌++◌ "Redis connection failed: " m), s)

  unfoldable pub redis_finding : S → Finding × S
  redis_finding s = connected_finding (client.connect s)

-- A ServiceUnavailableException with an object: NestJS finds its message in the object.
abbrev pub unavailable : (message_of : Json → String) → Json → Exception
unavailable message_of body =
    http_exception 503 body (message_of body) "ServiceUnavailableException"

abbrev pub is_up : Finding → Bool
is_up f = str_eq f.status "up"

-- Requests of the two routes that use the client of Redis.
pub data Probe : Type 0 where
  full : (database : Answer (Unit {0})) (now : ℕ) → Probe
  redis_only : Probe

module _ (js : Js) (message_of : Json → String) where
  abbrev pub health : (status : String) (database redis : Finding) (now : ℕ) → Json
  health status database redis now = obj (
      field "status" (text status) (
        field "info"
          (obj (
            field "database" (status_object database.status)
              (field "redis" (status_object redis.status) end)))
          (field "timestamp" (text (js.iso now)) end)))

  -- The end of `check`.
  unfoldable pub verdict : (database redis : Finding) (now : ℕ) → Outcome
  verdict database redis now =
      if is_up database && is_up redis
      then returned (health "ok" database redis now)
      else thrown (unavailable message_of (health "error" database redis now))

  -- `database` is what `SELECT 1` is answered with.
  unfoldable pub check :
      {S : Type 0} → RedisClient S → (database : Answer (Unit {0})) → (now : ℕ) → S → Outcome × S
  unfolding redis_finding verdict
  check client database now s =
      let (redis, s') = redis_finding client s in
      (verdict (database_finding database) redis now, s')

  abbrev pub unavailable_with : String → Outcome
  unavailable_with m =
      thrown (
        unavailable message_of (obj (field "status" (text "error") (field "message" (text m) end))))

  unfoldable pub check_db : (database : Answer (Unit {0})) → Outcome
  check_db (done _) = returned (info (field "database" (status_object "up") end))
  check_db (failed m) = unavailable_with m

  module _ {S : Type 0} (client : RedisClient S) where
    abbrev pub pinged : Answer String × S → Outcome × S
    pinged (done _, s) =
        (returned (info (field "redis" (status_object "up") end)), client.disconnect s)
    pinged (failed m, s) = (unavailable_with m, s)

    abbrev pub connected : Answer (Unit {0}) × S → Outcome × S
    connected (done _, s) = pinged (client.ping s)
    connected (failed m, s) = (unavailable_with m, s)

    unfoldable pub check_redis : S → Outcome × S
    check_redis s = connected (client.connect s)

  abbrev pub probe : {S : Type 0} → RedisClient S → Probe → S → Outcome × S
  probe client (full database now) s = check client database now s
  probe client redis_only s = check_redis client s

  -- What requests that come one after another are answered.
  unfoldable pub probe_all : {S : Type 0} → RedisClient S → List Probe → S → List Outcome
  unfolding check check_redis
  probe_all client [] s = []
  probe_all client (q ∷ qs) s = let (o, s') = probe client q s in o ∷ probe_all client qs s'
