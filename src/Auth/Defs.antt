-- ===== src/Auth/Defs.antt =====
-- Sessions: `login`, `logout`, `refresh`, `revokeSession` and `getSessions`.
use task_scheduling_platform.Base.{
  ℕ, String, Bool, true, false, Option, none, some, List, ◌==◌, ◌&&◌, ◌*◌, not, str_eq, text_or,
  if◌then◌else◌,
}
use task_scheduling_platform.Platform.Entities.{
  User, UserSession, Json, text, number, obj, field, end,
}
use task_scheduling_platform.Platform.Io.{
  World, Io, unauthorized, forbidden, bad_request, pure, throw, reads, commits, writes, catching,
  or_throw, throw_if, ◌>>=◌, ◌>>◌,
}
use task_scheduling_platform.Platform.Drivers.{Platform, Claims}
use task_scheduling_platform.Queue.{audit_log}
use task_scheduling_platform.Users.{find_by_email_with_password}
use task_scheduling_platform.Task.Dto.{opt_field, opt_text}

abbrev pub put_sessions : List UserSession → World → World
put_sessions ss w = record w { sessions = ss }

-- `{ userId, isRevoked: false }`, `{ tokenHash, userId }` and `{ id, userId }`
abbrev pub is_active : ℕ → UserSession → Bool
is_active user_id s = s.user_id == user_id && not s.is_revoked

abbrev pub has_hash : String → ℕ → UserSession → Bool
has_hash hash user_id s = str_eq s.token_hash hash && s.user_id == user_id

abbrev pub is_session_of : (id user_id : ℕ) → UserSession → Bool
is_session_of id user_id s = s.id == id && s.user_id == user_id

abbrev pub revoked : UserSession → UserSession
revoked s = record s { is_revoked = true }

pub record TokenPair : Type 0 where
  pub access_token : String
  pub refresh_token : String

-- The account as `login` answers with it.
pub record Profile : Type 0 where
  pub id : ℕ
  pub email : String
  pub name : String
  pub avatar : Option String
  pub is_verified : Bool

pub record LoginReply : Type 0 where
  pub tokens : TokenPair
  pub user : Profile

abbrev pub profile : User → Profile
profile u = record {
  id = u.id;
  email = u.email;
  name = u.name;
  avatar = u.avatar;
  is_verified = u.is_verified;
}

abbrev pub new_session :
    (user_id : ℕ) (hash : String) (device ip : Option String) (expires_at : ℕ) → UserSession
new_session user_id hash device ip expires_at = record {
  id = 0;
  user_id = user_id;
  token_hash = hash;
  device_fingerprint = device;
  ip_address = ip;
  expires_at = expires_at;
  is_revoked = false;
  created_at = 0;
  updated_at = 0;
}

abbrev pub login_payload : (device ip : Option String) (session_id : ℕ) → Json
login_payload device ip session_id = obj (
    opt_field "deviceFingerprint" (opt_text device)
      (opt_field "ipAddress" (opt_text ip) (field "sessionId" (number session_id) end)))

abbrev pub alert_payload : String → Json
alert_payload hash = obj (
    field "message" (text "Refresh token reuse detected. Revoked all user sessions.")
      (field "tokenHash" (text hash) end))

abbrev pub alert_message : String
alert_message = "Security alert: session compromised. Please login again."

module _ (p : Platform) where
  abbrev pub generate_access_token : Claims → Io String
  generate_access_token claims =
      reads (λ w. p.jwt.sign p.config.access_secret p.config.access_expiration claims w.now)

  abbrev pub generate_refresh_token : Claims → Io String
  generate_refresh_token claims =
      reads (λ w. p.jwt.sign p.config.refresh_secret p.config.refresh_expiration claims w.now)

  abbrev pub save_session : UserSession → Io UserSession
  save_session s = commits (λ w. p.sessions.save s w.sessions) put_sessions

  abbrev pub expires_at : String → ℕ
  expires_at token = p.jwt.expiry token * 1000

  unfoldable pub open_session : User → (device ip : Option String) → Io LoginReply
  open_session user device ip = do
    let claims : Claims = record { user_id = user.id; email = user.email }
    access ← generate_access_token claims
    refresh ← generate_refresh_token claims
    saved ← save_session (new_session user.id (p.sha256 refresh) device ip (expires_at refresh))
    audit_log p "LOGIN" (some user.id) (login_payload device ip saved.id)
    pure (record {
      tokens = record { access_token = access; refresh_token = refresh };
      user = profile user;
    })

  unfoldable pub login : (email plain : String) (device ip : Option String) → Io LoginReply
  login email plain device ip = do
    found ← find_by_email_with_password p email
    user ← or_throw found (unauthorized "Invalid credentials")
    throw_if (not (p.bcrypt_compare plain (text_or user.password "")))
        (unauthorized "Invalid credentials")
    open_session user device ip

  -- `if (session) { session.isRevoked = true; save }`
  unfoldable pub revoke_found : Option UserSession → Io (Unit {0})
  revoke_found none = pure tt
  revoke_found (some s) = do _ ← save_session (revoked s); pure tt

  unfoldable pub logout : (token : String) (user_id : ℕ) → Io (Unit {0})
  logout token user_id = do
    found ← reads (λ w. p.sessions.find_one (has_hash (p.sha256 token) user_id) w.sessions)
    revoke_found found
    audit_log p "LOGOUT" (some user_id) (obj (field "tokenHash" (text (p.sha256 token)) end))

  -- Reuse detection: every session of the user is revoked, and the call fails.
  unfoldable pub revoke_all : Claims → (hash : String) → Io TokenPair
  revoke_all claims hash = do
    writes (λ w. p.sessions.update (λ s. s.user_id == claims.user_id) revoked w.sessions)
        put_sessions
    audit_log p "SECURITY_ALERT" (some claims.user_id) (alert_payload hash)
    throw (forbidden alert_message)

  -- New tokens for a session that is valid.
  unfoldable pub rotate : Claims → UserSession → Io TokenPair
  rotate claims s = do
    access ← generate_access_token claims
    refresh ← generate_refresh_token claims
    _ ← save_session (record s { token_hash = p.sha256 refresh; expires_at = expires_at refresh })
    pure (record { access_token = access; refresh_token = refresh })

  unfoldable pub find_active : ℕ → Io UserSession
  find_active user_id = do
    found ← reads (λ w. p.sessions.find_one (is_active user_id) w.sessions)
    or_throw found (unauthorized "Session not found or revoked")

  unfoldable pub verify_refresh : String → Io Claims
  verify_refresh token =
      catching (reads (λ w. p.jwt.verify p.config.refresh_secret token w.now))
        (λ _. throw (unauthorized "Invalid refresh token signature"))

  unfoldable pub refresh : String → Io TokenPair
  refresh token = do
    claims ← verify_refresh token
    session ← find_active claims.user_id
    (if not (str_eq session.token_hash (p.sha256 token))
        then revoke_all claims (p.sha256 token)
        else rotate claims session)

  unfoldable pub revoke_session : (session_id user_id : ℕ) → Io (Unit {0})
  revoke_session session_id user_id = do
    found ← reads (λ w. p.sessions.find_one (is_session_of session_id user_id) w.sessions)
    session ← or_throw found (bad_request "Session not found")
    _ ← save_session (revoked session)
    audit_log p "SESSION_REVOKED" (some user_id) (obj (field "sessionId" (number session_id) end))

  unfoldable pub get_sessions : ℕ → Io (List UserSession)
  get_sessions user_id =
      reads (λ w. p.sessions.find_sorted (is_active user_id) (λ s. s.updated_at) true w.sessions)
