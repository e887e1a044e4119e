-- ===== src/Auth/Logins.antt =====
-- Opening a session: `login`, and what its refresh token is good for.
use task_scheduling_platform.Base.{
  String, true, Option, none, some, List, ◌≡◌, ◌≢◌, inl, inr, refl, arith, eq_iff, text_or, Elem,
  Bool-cases,
}
use task_scheduling_platform.Platform.Entities.{User, UserSession}
use task_scheduling_platform.Platform.Io.{World, Result-cases, ok}
use task_scheduling_platform.Platform.Drivers.{Platform, Claims}
use task_scheduling_platform.Platform.Laws.{Finds, Saves, Identifies}
use task_scheduling_platform.Queue.Laws.{audit_log_sound}
use task_scheduling_platform.Users.{has_email, find_by_email_with_password}
use task_scheduling_platform.Auth.Defs.{
  LoginReply, put_sessions, expires_at, profile, new_session, login_payload, open_session, login,
}
use task_scheduling_platform.Auth.Rotation.{StoredSession, session_id, Replaces, save-Replaces}

-- What a login that returns has done.
pub record LoggedIn (p : Platform) (email plain : String) (device ip : Option String)
    (reply : LoginReply) (w w' : World) : Type 0 where
  pub user : User
  pub listed : Elem user w.users
  pub same_email : user.email ≡ email
  pub matches : p.bcrypt_compare plain (text_or user.password "") ≡ true
  pub answered : reply.user ≡ profile user
  pub session : UserSession
  pub opened :
      let token = reply.tokens.refresh_token in
      StoredSession (new_session user.id (p.sha256 token) device ip (expires_at p token)) session
  pub fresh : (x : UserSession) → Elem x w.sessions → x.id ≢ session.id
  pub replaces : Replaces session w w'

module _ (p : Platform) where
  open_session-ok :
      (user : User) (device ip : Option String) (reply : LoginReply) (w w' : World)
      → open_session p user device ip w ≡ (ok reply, w')
      → let token = reply.tokens.refresh_token in
        (r : UserSession) × (ss : List UserSession) × (p.sessions.save
            (new_session user.id (p.sha256 token) device ip (expires_at p token))
            w.sessions
          ≡ ok (r, ss))
        × (w'.sessions ≡ ss)
        × (reply.user ≡ profile user)
  unfolding open_session
  open_session-ok user device ip reply w w' h =
      let claims : Claims = record { user_id = user.id; email = user.email } in
      elim (Result-cases
        (p.jwt.sign p.config.access_secret p.config.access_expiration claims w.now)) [
          | inl (access, e) ↦
              elim (Result-cases
                (p.jwt.sign p.config.refresh_secret p.config.refresh_expiration claims w.now)) [
                  | inl (token, f) ↦
                      elim (Result-cases (
                        p.sessions.save
                          (new_session user.id (p.sha256 token) device ip (expires_at p token))
                          w.sessions)) [
                            | inl ((r, ss), g) ↦
                                let (js, k, _) =
                                  audit_log_sound p "LOGIN" (some user.id)
                                    (login_payload device ip r.id) (put_sessions ss w) in
                                (r, ss, ground arith, ground arith, ground arith)
                            | inr (x, g) ↦ absurd (ground arith)
                          ]
                  | inr (x, f) ↦ absurd (ground arith)
                ]
          | inr (x, e) ↦ absurd (ground arith)
        ]

  login-ok :
      (email plain : String) (device ip : Option String) (reply : LoginReply) (w w' : World)
      → login p email plain device ip w ≡ (ok reply, w')
      → (user : User) × (p.users.find_one (has_email email) w.users ≡ ok (some user))
        × (p.bcrypt_compare plain (text_or user.password "") ≡ true)
        × (open_session p user device ip w ≡ (ok reply, w'))
  unfolding login find_by_email_with_password
  login-ok email plain device ip reply w w' h =
      elim (Result-cases (p.users.find_one (has_email email) w.users)) [
        | inl (none, e) ↦ absurd (ground arith)
        | inl (some user, e) ↦
            elim (Bool-cases (p.bcrypt_compare plain (text_or user.password ""))) [
              | inl matches ↦ (user, e, matches, ground arith)
              | inr differs ↦ absurd (ground arith)
            ]
        | inr (x, e) ↦ absurd (ground arith)
      ]

  module _ (users : Finds p.users) (saves : Saves session_id StoredSession p.sessions)
      (ids : Identifies session_id p.sessions) where
    -- A login that returns was given the email and the password of a stored user, and has opened one
    -- new session, active, with the hash and the expiry of the refresh token that it answers with;
    -- every session that was there is as before.
    pub login-LoggedIn :
        (email plain : String) (device ip : Option String) (reply : LoginReply) (w w' : World)
        → login p email plain device ip w ≡ (ok reply, w')
        → LoggedIn p email plain device ip reply w w'
    login-LoggedIn email plain device ip reply w w' h =
        let (user, found, matches, run) = login-ok email plain device ip reply w w' h in
        let (r, ss, stored, same, answered) = open_session-ok user device ip reply w w' run in
        record {
          user = user;
          listed = users.found_elem _ w.users user found;
          same_email = (eq_iff user.email email).0 (users.found_holds _ w.users user found);
          matches = matches;
          answered = answered;
          session = r;
          opened = saves.saved_columns _ r w.sessions ss stored;
          fresh = (ids.fresh_id _ r w.sessions ss stored refl).1;
          replaces = save-Replaces p saves _ r ss w w' stored same;
        }
