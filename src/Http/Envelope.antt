-- ===== src/Http/Envelope.antt =====
-- TransformInterceptor, GlobalExceptionFilter and CorrelationIdMiddleware.
use Prim.Native.Char.{code}
use Prim.Native.String
use task_scheduling_platform.Base.{
  ℕ, String, Bool, true, false, ◌&&◌, ◌||◌, ◌==◌, Option, none, some, str_eq, nonempty, text_or,
  if◌then◌else◌,
}
use task_scheduling_platform.Platform.Entities.{
  Json, null, text, number, boolean, arr, obj, Items, nil, item, end, field,
}
use task_scheduling_platform.Http.Json.{member, has_member, truthy_or}

-- `text.startsWith(part)` and `text.includes(part)`
unfoldable pub starts_with : String → String → Bool
starts_with String.[] s = true
starts_with (String.◌∷◌ c part) String.[] = false
starts_with (String.◌∷◌ c part) (String.◌∷◌ d s) = code c == code d && starts_with part s

unfoldable pub includes : String → String → Bool
unfolding starts_with
includes part String.[] = starts_with part String.[]
includes part (String.◌∷◌ c s) = starts_with part (String.◌∷◌ c s) || includes part s

-- The correlation id of a request: its header, or a new UUID.
unfoldable pub correlation_id : (header : Option String) (uuid : String) → String
correlation_id header uuid = text_or header uuid

-- The replies that are sent as they are.
unfoldable pub bypasses : String → Bool
unfolding includes
bypasses path =
    str_eq path "/metrics"
    || str_eq path "/api/v1/metrics"
    || includes "/health" path
    || includes "/docs" path

abbrev pub is_wrapped : Option Json → Bool
is_wrapped none = false
is_wrapped (some v) = has_member "success" v && has_member "statusCode" v

-- `data === undefined ? null : data`
abbrev pub or_null : Option Json → Json
or_null none = null
or_null (some v) = v

-- What `new Date().toISOString()` gives, and how a value that is no text is joined to others.
pub record Js : Type 0 where
  pub iso : ℕ → String
  pub show : Json → String

module _ (js : Js) where
  abbrev pub envelope : (status : ℕ) (correlation : String) (now : ℕ) → Option Json → Json
  envelope status correlation now value = obj (
      field "success" (boolean true) (
        field "statusCode" (number status) (
          field "data" (or_null value) (
            field "timestamp" (text (js.iso now)) (field "correlationId" (text correlation) end)))))

  -- The reply to a handler's value, where `none` is undefined.
  unfoldable pub intercept :
      (path : String) (status : ℕ) (correlation : String) (now : ℕ) → Option Json → Option Json
  intercept path status correlation now value =
      if bypasses path
      then value
      else if is_wrapped value
      then value
      else some (envelope status correlation now value)

  abbrev show_item : Json → String
  show_item (text s) = s
  show_item v = js.show v

  -- `items.join(', ')`
  abbrev join_items : Items → String
  join_items nil = ""
  join_items (item v nil) = show_item v
  join_items (item v rest) = String.◌++◌ (show_item v) (String.◌++◌ ", " (join_items rest))

  abbrev pub flat_message : Json → Json
  flat_message (arr items) = text (join_items items)
  flat_message v = v

-- What a handler throws: an HttpException with its status and response, or anything else.
pub data Exception : Type 0 where
  http_exception : (status : ℕ) (response : Json) (message name : String) → Exception
  other : (message name : Option String) → Exception

abbrev pub status_of : Exception → ℕ
status_of (http_exception status _ _ _) = status
status_of (other _ _) = 500

abbrev pub response_of : Exception → Json
response_of (http_exception _ response _ _) = response
response_of (other _ _) = obj (field "message" (text "Internal server error") end)

abbrev pub message_of : Exception → Option String
message_of (http_exception _ _ message _) = some message
message_of (other message _) = message

abbrev pub name_of : Exception → Option String
name_of (http_exception _ _ _ name) = some name
name_of (other _ name) = name

-- `exception.message || exceptionResponse`
abbrev pub message_or_response : Exception → Json
message_or_response e = elim (message_of e) [
  | none ↦ response_of e
  | some m ↦ if nonempty m then text m else response_of e
]

module _ (js : Js) where
  -- The status and the body of the reply to an exception.
  unfoldable pub catch_exception : Exception → (url correlation : String) (now : ℕ) → ℕ × Json
  catch_exception e url correlation now = (
    status_of e,
    obj (
        field "success" (boolean false) (
          field "statusCode" (number (status_of e)) (
            field "message"
              (flat_message js
                (truthy_or (member "message" (response_of e)) (message_or_response e)))
              (field "error"
                (truthy_or (member "error" (response_of e))
                  (text (text_or (name_of e) "InternalServerError")))
                (field "timestamp" (text (js.iso now))
                  (field "path" (text url) (field "correlationId" (text correlation) end))))))),
  )
