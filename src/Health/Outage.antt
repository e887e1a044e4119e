-- ===== src/Health/Outage.antt =====
-- What the checks of health tell of the database and of Redis, and what they leave behind.
use Prim.Native.String
use task_scheduling_platform.Base.{
  ℕ, String, Bool, true, ◌&&◌, none, List, [], ◌∷◌, ◌≡◌, refl, ap, inl, inr, arith, sym, Bool-cases,
  ◌∙◌,
}
use task_scheduling_platform.Platform.Entities.{Json, null}
use task_scheduling_platform.Http.Json.{member}
use task_scheduling_platform.Http.Envelope.{
  Js, Exception, http_exception, status_of, catch_exception,
}
use task_scheduling_platform.Health.{
  Answer, done, failed, RedisClient, Outcome, returned, thrown, Finding, redis_finding,
  connected_finding, pinged_finding, connected, pinged, is_up, verdict, down, health, unavailable,
  database_finding, check, check_redis, unavailable_with, Probe, full, redis_only, probe, probe_all,
}

-- What NestJS documents of the message of an exception that is made of an object.
pub record Messages (message_of : Json → String) : Type 0 where
  pub default :
      (body : Json)
      → member "message" body ≡ none
      → message_of body ≡ "Service Unavailable Exception"

module _ (js : Js) (message_of : Json → String) (laws : Messages message_of) where
  verdict_lem :
      (database redis : Finding) (now : ℕ) (e : Exception)
      → verdict js message_of database redis now ≡ thrown e
      → unavailable message_of (health js message_of "error" database redis now) ≡ e
  unfolding verdict
  verdict_lem database redis now e h = elim (Bool-cases (is_up database && is_up redis)) [
    | inl t ↦ absurd (ground arith)
    | inr f ↦ ground arith
  ]

  -- What the filter makes of a check that fails.
  silent_reply : (url correlation : String) (now : ℕ) → ℕ × Json
  silent_reply url correlation now =
      catch_exception js
        (http_exception 503 null "Service Unavailable Exception" "ServiceUnavailableException") url
        correlation now

  catch-verdict :
      (database redis : Finding) (at now : ℕ) (e : Exception) (url correlation : String)
      → verdict js message_of database redis at ≡ thrown e
      → catch_exception js e url correlation now ≡ silent_reply url correlation now
  unfolding catch_exception silent_reply
  catch-verdict database redis at now e url correlation h =
      let body = health js message_of "error" database redis at in
      rw (sym (verdict_lem database redis at e h), laws.default body refl) refl

  -- A failing check of health does not say what is down: whatever the database and Redis answer to
  -- two checks that throw, and whatever states of their clients they start from, the global filter
  -- sends the same reply for both.
  pub check-catch_exception :
      {S T : Type 0} (client : RedisClient S) (client' : RedisClient T) (s : S) (s' : T)
      (database database' : Answer (Unit {0})) (at at' now : ℕ) (e e' : Exception)
      (url correlation : String)
      → (check js message_of client database at s).0 ≡ thrown e
      → (check js message_of client' database' at' s').0 ≡ thrown e'
      → catch_exception js e url correlation now ≡ catch_exception js e' url correlation now
  unfolding check
  check-catch_exception client client' s s' database database' at at' now e e' url correlation h
        h' =
      catch-verdict (database_finding database) (redis_finding client s).0 at now e url correlation
        h
      ∙ sym (
          catch-verdict (database_finding database') (redis_finding client' s').0 at' now e' url
            correlation h')

-- What ioredis documents of `connect`, for the states in which the connection stands.
pub record Connects {S : Type 0} (client : RedisClient S) (is_connected : S → Bool)
    (already : String) : Type 0 where
  pub refuses : (s : S) → is_connected s ≡ true → client.connect s ≡ (failed already, s)

-- A method that throws ServiceUnavailableException.
abbrev pub Unavailable : Outcome → Type 0
Unavailable (returned _) = ⊥
Unavailable (thrown e) = status_of e ≡ 503

abbrev pub AllUnavailable : List Outcome → Type 0
AllUnavailable [] = Unit {0}
AllUnavailable (o ∷ os) = Unavailable o × AllUnavailable os

module _ (js : Js) (message_of : Json → String) {S : Type 0} (client : RedisClient S)
    (is_connected : S → Bool) (already : String) (laws : Connects client is_connected already) where
  verdict-down :
      (database : Finding) (m : String) (now : ℕ)
      → Unavailable (verdict js message_of database (down m) now)
  unfolding verdict
  verdict-down database m now = elim (Bool-cases (is_up database)) [
    | inl t ↦ rw t refl
    | inr f ↦ rw f refl
  ]

  finding_unconnected :
      (s s₁ : S) (m : String)
      → client.connect s ≡ (failed m, s₁)
      → redis_finding client s ≡ (down (String.◌++◌ "Redis connection failed: " m), s₁)
  unfolding redis_finding
  finding_unconnected s s₁ m h = ap (connected_finding client) h

  finding_unanswered :
      (s s₁ s₂ : S) (m : String)
      → client.connect s ≡ (done tt, s₁)
      → client.ping s₁ ≡ (failed m, s₂)
      → redis_finding client s ≡ (down (String.◌++◌ "Redis connection failed: " m), s₂)
  unfolding redis_finding
  finding_unanswered s s₁ s₂ m joins refused =
      ap (connected_finding client) joins ∙ ap (pinged_finding client) refused

  redis_unconnected :
      (s s₁ : S) (m : String)
      → client.connect s ≡ (failed m, s₁)
      → check_redis js message_of client s ≡ (unavailable_with js message_of m, s₁)
  unfolding check_redis
  redis_unconnected s s₁ m h = ap (connected js message_of client) h

  redis_unanswered :
      (s s₁ s₂ : S) (m : String)
      → client.connect s ≡ (done tt, s₁)
      → client.ping s₁ ≡ (failed m, s₂)
      → check_redis js message_of client s ≡ (unavailable_with js message_of m, s₂)
  unfolding check_redis
  redis_unanswered s s₁ s₂ m joins refused =
      ap (connected js message_of client) joins ∙ ap (pinged js message_of client) refused

  probe_connected :
      (q : Probe) (s : S)
      → is_connected s ≡ true
      → Unavailable (probe js message_of client q s).0 × ((probe js message_of client q s).1 ≡ s)
  unfolding check
  probe_connected (full database now) s h =
      rw (finding_unconnected s s already (laws.refuses s h)) (
        verdict-down (database_finding database) (String.◌++◌ "Redis connection failed: " already)
            now,
        refl,
      )
  probe_connected redis_only s h =
      rw (redis_unconnected s s already (laws.refuses s h)) (refl, refl)

  probe_all_connected :
      (qs : List Probe) (s : S)
      → is_connected s ≡ true
      → AllUnavailable (probe_all js message_of client qs s)
  unfolding probe_all
  probe_all_connected [] s h = tt
  probe_all_connected (q ∷ qs) s h =
      let (bad, same) = probe_connected q s h in (bad, probe_all_connected qs _ (rw same h))

  -- A ping that the server refuses leaves the checks failing for good: a check of either kind
  -- connects, its ping is rejected, and the connection stands. Then that check and all later ones,
  -- of either kind, answer 503, whatever the server would answer to a ping by then, since the
  -- client was not disconnected and does not connect twice.
  pub probe_all_stuck :
      (q : Probe) (qs : List Probe) (s s₁ s₂ : S) (m : String)
      → client.connect s ≡ (done tt, s₁)
      → client.ping s₁ ≡ (failed m, s₂)
      → is_connected s₂ ≡ true
      → AllUnavailable (probe_all js message_of client (q ∷ qs) s)
  unfolding probe_all check
  probe_all_stuck (full database now) qs s s₁ s₂ m joins refused stands =
      rw (finding_unanswered s s₁ s₂ m joins refused) (
        verdict-down (database_finding database) (String.◌++◌ "Redis connection failed: " m) now,
        probe_all_connected qs s₂ stands,
      )
  probe_all_stuck redis_only qs s s₁ s₂ m joins refused stands =
      rw (redis_unanswered s s₁ s₂ m joins refused) (refl, probe_all_connected qs s₂ stands)
