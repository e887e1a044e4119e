-- ===== src/Auth/Account.antt =====
-- Accounts: `signup`, `verifyEmail`, `requestPasswordReset` and `resetPassword`.
use task_scheduling_platform.Base.{ℕ, String, Bool, Option, none, some, ◌==◌, ltb, text_length}
use task_scheduling_platform.Platform.Entities.{User, Json, text, obj, field, end}
use task_scheduling_platform.Platform.Io.{
  Io, unauthorized, bad_request, send_verification, send_password_reset, pure, writes, or_throw,
  throw_if, ◌>>=◌, ◌>>◌,
}
use task_scheduling_platform.Platform.Drivers.{Platform}
use task_scheduling_platform.Queue.{add_job, audit_log}
use task_scheduling_platform.Users.{
  put_users, draw, hash_password, create_user, find_by_email, update_profile, set_verified,
}

-- What `signup` answers with, its message aside.
pub record SignupReply : Type 0 where
  pub user_id : ℕ
  pub email : String
  pub name : String
  pub is_verified : Bool

abbrev email_payload : String → Json
email_payload email = obj (field "email" (text email) end)

module _ (p : Platform) where
  unfoldable pub signup : (email plain name : String) → Io SignupReply
  signup email plain name = do
    user ← create_user p email plain name
    code ← draw p
    add_job p (record { body = send_verification email name code; options = none })
    audit_log p "SIGNUP" (some user.id) (email_payload email)
    pure (record {
      user_id = user.id;
      email = user.email;
      name = user.name;
      is_verified = user.is_verified;
    })

  unfoldable pub log_verified : String → Option User → Io (Unit {0})
  log_verified email none = pure tt
  log_verified email (some user) = audit_log p "EMAIL_VERIFIED" (some user.id) (email_payload email)

  unfoldable pub verify_email : (email code : String) → Io (Unit {0})
  verify_email email code = do
    throw_if (ltb (text_length code) 8) (bad_request "Invalid email verification code")
    set_verified p email
    found ← find_by_email p email
    log_verified email found

  unfoldable pub send_reset_code : String → Option User → Io (Unit {0})
  send_reset_code email none = pure tt
  send_reset_code email (some user) = do
    code ← draw p
    add_job p (record { body = send_password_reset email code; options = none })

  -- The reply is the same text whether the account exists or not.
  unfoldable pub request_password_reset : String → Io (Unit {0})
  request_password_reset email = do found ← find_by_email p email; send_reset_code email found

  -- The two updates of a password reset: one of nothing, and one of the hash.
  unfoldable pub store_password : (email hash : String) → User → Io (Unit {0})
  store_password email hash user = do
    _ ← update_profile p user.id (record { name = none; avatar = none })
    writes
        (λ w.
          p.users.update (λ u. u.id == user.id) (λ u. record u { password = some hash }) w.users)
        put_users
    audit_log p "PASSWORD_RESET" (some user.id) (email_payload email)

  unfoldable pub reset_password : (email code plain : String) → Io (Unit {0})
  reset_password email code plain = do
    throw_if (ltb (text_length code) 8) (bad_request "Invalid or expired reset code")
    found ← find_by_email p email
    user ← or_throw found (unauthorized "User not found")
    hash ← hash_password p plain
    store_password email hash user
