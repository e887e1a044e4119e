-- ===== src/Routes/Accounts.antt =====
-- The routes of auth.controller.ts, users.controller.ts, notification.controller.ts and
-- audit.controller.ts. Paths are below the prefix api/v1 of src/main.ts.
use task_scheduling_platform.Base.{String, none, List, [], ◌∷◌, text_or}
use task_scheduling_platform.Platform.Entities.{Json, text}
use task_scheduling_platform.Http.Json.{truthy_or}
use task_scheduling_platform.Routes.Defs.{
  Segment, word, param, Inputs, path_param, body_field, Call, signup, login, logout, refresh,
  verify_email, request_password_reset, reset_password, get_sessions, revoke_session, find_user,
  update_profile, get_notifications, mark_as_read, mark_all_as_read, get_audit_logs, jwt_guard,
  Route,
}

abbrev open_route : String → List Segment → (Inputs → Call) → Route
open_route method path handler = record {
  method = method;
  path = path;
  guards = [];
  permissions = none;
  handler = handler;
}

abbrev user_route : String → List Segment → (Inputs → Call) → Route
user_route method path handler = record {
  method = method;
  path = path;
  guards = jwt_guard ∷ [];
  permissions = none;
  handler = handler;
}

-- `loginDto.deviceFingerprint || request.headers['user-agent'] || 'unknown'`
abbrev device_of : Inputs → Json
device_of r = truthy_or (body_field "deviceFingerprint" r) (text (text_or r.user_agent "unknown"))

abbrev auth : List Segment → List Segment
auth path = word "auth" ∷ path

unfoldable pub auth_routes : List Route
auth_routes =
    open_route "POST" (auth (word "signup" ∷ []))
      (λ r. signup (body_field "email" r) (body_field "password" r) (body_field "name" r))
    ∷ open_route "POST" (auth (word "login" ∷ []))
        (λ r. login (body_field "email" r) (body_field "password" r) (device_of r) r.ip)
    ∷ user_route "POST" (auth (word "logout" ∷ []))
        (λ r. logout (body_field "refreshToken" r) r.user_id)
    ∷ open_route "POST" (auth (word "refresh" ∷ [])) (λ r. refresh (body_field "refreshToken" r))
    ∷ open_route "POST" (auth (word "verify-email" ∷ []))
        (λ r. verify_email (body_field "email" r) (body_field "code" r))
    ∷ open_route "POST" (auth (word "forgot-password" ∷ []))
        (λ r. request_password_reset (body_field "email" r))
    ∷ open_route "POST" (auth (word "reset-password" ∷ [])) (λ r.
      reset_password (body_field "email" r) (body_field "code" r) (body_field "newPassword" r))
    ∷ user_route "GET" (auth (word "sessions" ∷ [])) (λ r. get_sessions r.user_id)
    ∷ user_route "POST" (auth (word "sessions" ∷ param "sessionId" ∷ word "revoke" ∷ []))
        (λ r. revoke_session (path_param "sessionId" r) r.user_id)
    ∷ []

unfoldable pub users_routes : List Route
users_routes =
    user_route "GET" (word "users" ∷ word "profile" ∷ []) (λ r. find_user r.user_id)
    ∷ user_route "PATCH" (word "users" ∷ word "profile" ∷ []) (λ r. update_profile r.user_id r.body)
    ∷ []

unfoldable pub notification_routes : List Route
notification_routes =
    user_route "GET" (word "notifications" ∷ []) (λ r. get_notifications r.user_id)
    ∷ user_route "POST" (word "notifications" ∷ param "id" ∷ word "read" ∷ [])
        (λ r. mark_as_read (path_param "id" r) r.user_id)
    ∷ user_route "POST" (word "notifications" ∷ word "read-all" ∷ [])
        (λ r. mark_all_as_read r.user_id)
    ∷ []

-- The method itself asks for the administrator's email.
unfoldable pub audit_routes : List Route
audit_routes =
    user_route "GET" (word "admin" ∷ word "audit-logs" ∷ []) (λ r. get_audit_logs r.email r.query)
    ∷ []
