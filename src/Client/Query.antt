-- ===== src/Client/Query.antt =====
-- axiosBaseQuery of frontend/src/app/api/apiSlice.ts: the headers of a request, and what is made of
-- the reply. A header name is compared as it is written.
use Prim.Native.String
use task_scheduling_platform.Base.{
  ℕ, String, ◌&&◌, Option, none, some, List, [], ◌∷◌, str_eq, number_or, if◌then◌else◌,
}
use task_scheduling_platform.Platform.Entities.{Json, null, text, obj, end, field}
use task_scheduling_platform.Http.Json.{is_truthy, member, has_member}
use task_scheduling_platform.Client.State.{App, has_text}

abbrev pub Headers : Type 0
Headers = List (String × String)

-- `headers[name] = value` on an object
unfoldable pub assign : String → String → Headers → Headers
assign name value [] = (name, value) ∷ []
assign name value ((k, v) ∷ rest) =
    if str_eq k name then (name, value) ∷ rest else (k, v) ∷ assign name value rest

unfoldable pub header : String → Headers → Option String
header name [] = none
header name ((k, v) ∷ rest) = if str_eq k name then some v else header name rest

abbrev pub assign_text : String → (String → String) → Option String → Headers → Headers
assign_text name format none headers = headers
assign_text name format (some t) headers =
    if has_text (some t) then assign name (format t) headers else headers

-- The entries of the `headers` argument, in order, whichever of its three forms it has.
unfoldable pub assign_all : Headers → Headers → Headers
assign_all [] headers = headers
assign_all ((k, v) ∷ rest) headers = assign_all rest (assign k v headers)

-- A request without a body has null for it.
pub record Args : Type 0 where
  pub url : List String
  pub method : String
  pub body : Json
  pub params : List (String × String)
  pub headers : Headers

unfoldable pub request_headers : App → Headers → Headers
request_headers app given =
    assign_text "x-workspace-id" (λ id. id) app.workspace.active_workspace_id
      (assign_text "Authorization" (λ t. String.◌++◌ "Bearer " t) app.auth.token
        (assign_all given []))

-- What axios gives for a request: the body of a reply, or an error with the status and body of the
-- reply, if there was one, and a message.
pub data Reply : Type 0 where
  resolved : Json → Reply
  rejected : Option (ℕ × Json) → (message : String) → Reply

pub data QueryResult : Type 0 where
  answer : Json → QueryResult
  failure : (status : ℕ) → Json → QueryResult

abbrev pub or_null : Option Json → Json
or_null none = null
or_null (some v) = v

unfoldable pub unwrap : Json → Json
unwrap value =
    if is_truthy value && (has_member "success" value && has_member "data" value)
    then or_null (member "data" value)
    else value

abbrev message_body : String → Json
message_body message = obj (field "message" (text message) end)

unfoldable pub query_result : Reply → QueryResult
unfolding unwrap
query_result (resolved value) = answer (unwrap value)
query_result (rejected none message) = failure 500 (message_body message)
query_result (rejected (some (status, value)) message) =
    failure (number_or (some status) 500) (if is_truthy value then value else message_body message)
