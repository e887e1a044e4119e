-- ===== src/Http/Replies.antt =====
-- The reply envelope against the client that opens it.
use task_scheduling_platform.Base.{ℕ, ◌≡◌, refl, String, false, Option, some, arith, ◌≤◌, ◌<◌}
use task_scheduling_platform.Platform.Entities.{Json, text, number, boolean}
use task_scheduling_platform.Http.Json.{member}
use task_scheduling_platform.Http.Envelope.{
  Js, Exception, other, http_exception, envelope, intercept, bypasses, is_wrapped, or_null,
  catch_exception, status_of,
}
use task_scheduling_platform.Client.Query.{Reply, resolved, rejected, answer, failure, query_result}

-- `validateStatus` of axios: a status from 200 to 299 resolves, any other rejects with the reply.
pub record Settles (settle : ℕ → Json → Reply) : Type 0 where
  pub resolves :
      (status : ℕ) (value : Json)
      → 200 ≤ status
      → status < 300
      → settle status value ≡ resolved value
  pub rejects :
      (status : ℕ) (value : Json)
      → 300 ≤ status
      → (m : String) × (settle status value ≡ rejected (some (status, value)) m)

-- What the reply to an exception that is not an HttpException says instead of what was thrown.
abbrev pub Masks : Exception → Json → Type 0
Masks (http_exception status response message name) body = Unit {0}
Masks (other message name) body =
    (member "statusCode" body ≡ some (number 500))
    × (member "message" body ≡ some (text "Internal server error"))

masks_lem :
    (js : Js) (e : Exception) (url correlation : String) (now : ℕ)
    → Masks e (catch_exception js e url correlation now).1
unfolding catch_exception
masks_lem js (http_exception status response message name) url correlation now = tt
masks_lem js (other message name) url correlation now = (refl, refl)

module _ (js : Js) (settle : ℕ → Json → Reply) (laws : Settles settle) where
  -- Where the path is not one of those that bypass the envelope and the value is not an envelope
  -- already, a reply of a status from 200 to 299 has a body, and the client that opens it gives its
  -- caller what the handler returned, or null where that was undefined.
  pub query_result-intercept :
      (path correlation : String) (status now : ℕ) (value : Option Json)
      → bypasses path ≡ false
      → is_wrapped value ≡ false
      → 200 ≤ status
      → status < 300
      → (body : Json) × (intercept js path status correlation now value ≡ some body)
        × (query_result (settle status body) ≡ answer (or_null value))
  unfolding intercept query_result
  query_result-intercept path correlation status now value b w lo hi =
      let body = envelope js status correlation now value in
      (body, rw (b, w), rw (laws.resolves status body lo hi) refl)

  -- Whatever a handler throws, where the exception has a status of 300 or more: the caller of the
  -- client gets a failure with that status, whose body says that it is no success, repeats the
  -- status and names the request's url and correlation id. For an exception that is not an
  -- HttpException the status is 500 and the message is the same text for all.
  pub query_result-catch_exception :
      (e : Exception) (url correlation : String) (now : ℕ)
      → 300 ≤ status_of e
      → let (status, body) = catch_exception js e url correlation now in
        (query_result (settle status body) ≡ failure (status_of e) body)
        × (member "success" body ≡ some (boolean false))
        × (member "statusCode" body ≡ some (number (status_of e)))
        × (member "path" body ≡ some (text url))
        × (member "correlationId" body ≡ some (text correlation))
        × Masks e body
  unfolding catch_exception query_result
  query_result-catch_exception e url correlation now big =
      let body = (catch_exception js e url correlation now).1 in
      let (m, refused) = laws.rejects (status_of e) body big in
      (rw refused (ground (arith, big)), refl, refl, refl, refl, masks_lem js e url correlation now)
