-- ===== src/Auth/Tests.antt =====
-- Runs of the auth service, and its theorems at concrete inputs.
use task_scheduling_platform.Base.{
  String, ◌≡◌, ◌≢◌, refl, ap, ◌∙◌, sym, true, none, [], ◌∷◌, inl, inr, arith, Elem, eq_iff,
  text_length,
}
use task_scheduling_platform.Platform.Entities.{User, UserSession}
use task_scheduling_platform.Platform.Io.{World, ok, err, forbidden, pair_eq}
use task_scheduling_platform.Platform.Drivers.{Claims}
use task_scheduling_platform.Platform.Laws.{Finds, Saves, Identifies, Updates}
use task_scheduling_platform.Queue.{audit_log, add_job}
use task_scheduling_platform.Users.{
  draw, hash_password, find_by_email, find_by_email_with_password, save_user, create_user,
  find_user, update_profile, set_verified,
}
use task_scheduling_platform.Users.Emails.{StoredUser, user_id, HasUniqueEmails}
use task_scheduling_platform.Auth.Defs.{
  TokenPair, LoginReply, profile, revoked, alert_message, open_session, login, revoke_found, logout,
  revoke_all, rotate, find_active, verify_refresh, refresh, revoke_session,
}
use task_scheduling_platform.Auth.Account.{
  signup, log_verified, verify_email, send_reset_code, request_password_reset, store_password,
  reset_password,
}
use task_scheduling_platform.Auth.Rotation.{
  StoredSession, session_id, AllSaved, OneHash, IsSpent, Rotated, refresh-Rotated, refresh_replay,
  refresh_reuse,
}
use task_scheduling_platform.Auth.Steps.{Verifies}
use task_scheduling_platform.Auth.Sessions.{logout-IsSpent}
use task_scheduling_platform.Auth.Accounts.{
  signed_up, password_reset, here, after, Reaches-HasUniqueEmails,
}
use task_scheduling_platform.Sample.Table.{
  table-Finds, table-Identifies, table-Saves, table-Updates,
}
use task_scheduling_platform.Sample.World.{sample, home, ann_account, ann_session}

runs : Unit {0}
unfolding audit_log add_job draw hash_password find_by_email find_by_email_with_password save_user
    create_user find_user update_profile set_verified open_session login revoke_found logout
    revoke_all rotate find_active verify_refresh refresh revoke_session signup log_verified
    verify_email send_reset_code request_password_reset store_password reset_password text_length
runs = tt

abbrev session_finds : Finds sample.sessions
session_finds = table-Finds (λ (r : UserSession). r.id) (λ n r. record r { id = n })

abbrev session_ids : Identifies session_id sample.sessions
session_ids =
    table-Identifies (λ (r : UserSession). r.id) (λ n r. record r { id = n }) (λ n r. refl)

abbrev session_saves : Saves session_id StoredSession sample.sessions
session_saves =
    table-Saves (λ (r : UserSession). r.id) (λ n r. record r { id = n }) (λ n r. refl) StoredSession
      (λ e. refl) (λ n e. refl)

abbrev session_updates : Updates sample.sessions
session_updates = table-Updates (λ (r : UserSession). r.id) (λ n r. record r { id = n })

abbrev user_finds : Finds sample.users
user_finds = table-Finds (λ (r : User). r.id) (λ n r. record r { id = n })

abbrev user_ids : Identifies user_id sample.users
user_ids = table-Identifies (λ (r : User). r.id) (λ n r. record r { id = n }) (λ n r. refl)

abbrev user_saves : Saves user_id StoredUser sample.users
user_saves =
    table-Saves (λ (r : User). r.id) (λ n r. record r { id = n }) (λ n r. refl) StoredUser
      (λ e. refl) (λ n e. refl)

abbrev user_updates : Updates sample.users
user_updates = table-Updates (λ (r : User). r.id) (λ n r. record r { id = n })

only : {A : Type 0} (x s : A) → Elem x (s ∷ []) → x ≡ s
only x s (inl e) = e
only x s (inr h) = absurd h

home-AllSaved : AllSaved home
home-AllSaved x k z = let e = ap session_id (only x ann_session k) in ground arith

home-OneHash : OneHash "refresh" home
home-OneHash x y k l e f = ap session_id (only x ann_session k ∙ sym (only y ann_session l))

abbrev ann : Claims
ann = record { user_id = 1; email = "ann@x.io" }

abbrev pair : TokenPair
pair = record { access_token = "access+"; refresh_token = "refresh+" }

abbrev rotated_home : World
rotated_home = (refresh sample "refresh" home).1

refreshes : (refresh sample "refresh" home).0 ≡ ok pair
unfolding runs
refreshes = refl

abbrev old_token : String
old_token = "refresh"

abbrev new_token : String
new_token = "refresh+"

new_hash : new_token ≢ old_token
new_hash e = let h = (eq_iff new_token old_token).1 e in cc

refresh-Rotated_example : Rotated sample "refresh" pair home rotated_home
refresh-Rotated_example =
    refresh-Rotated sample session_finds session_saves session_ids "refresh" pair home rotated_home
      home-AllSaved (pair_eq _ refreshes)

refresh_replay_example : (refresh sample "refresh" rotated_home).0 ≢ ok pair
refresh_replay_example =
    refresh_replay sample session_finds session_saves session_ids "refresh" ann pair pair home
      rotated_home rotated_home home-AllSaved home-OneHash new_hash (pair_eq _ refreshes) refl refl

refresh_reuse_example :
    let run = refresh sample "refresh+" home in
    (run.0 ≡ err (forbidden alert_message))
    × ((x : UserSession) → Elem x run.1.sessions → x.user_id ≡ 1 → x.is_revoked ≡ true)
    × ((x : UserSession) → x.user_id ≢ 1 → Elem x home.sessions → Elem x run.1.sessions)
refresh_reuse_example =
    refresh_reuse sample session_finds session_updates "refresh+" ann ann_session
      (revoked ann_session ∷ []) home refl refl (λ e. new_hash (sym e)) refl

logs_out : (logout sample "refresh" 1 home).0 ≡ ok tt
unfolding runs
logs_out = refl

logout-IsSpent_example :
    let w = (logout sample "refresh" 1 home).1 in
    IsSpent "refresh" 1 w
    × ((claims : Claims) (again : TokenPair)
        → Verifies sample "refresh" claims w
        → claims.user_id ≡ 1
        → (refresh sample "refresh" w).0 ≢ ok again)
logout-IsSpent_example =
    logout-IsSpent sample session_finds session_saves session_ids "refresh" 1 home
      (logout sample "refresh" 1 home).1 home-AllSaved home-OneHash (pair_eq _ logs_out)

abbrev fresh_home : World
fresh_home = record home { sessions = [] }

abbrev reply : LoginReply
reply = record { tokens = pair; user = profile ann_account }

abbrev logged_in : World
logged_in = (login sample "ann@x.io" "secret" none none fresh_home).1

abbrev login_session : UserSession
login_session = record ann_session { token_hash = "refresh+"; created_at = 0; updated_at = 0 }

revokes : (revoke_session sample 1 1 home).0 ≡ ok tt
unfolding runs
revokes = refl

home-HasUniqueEmails : HasUniqueEmails home.users
home-HasUniqueEmails = record {
  saved = λ x k z. let e = ap user_id (only x ann_account k) in ground arith;
  unique = λ x y k l e. ap user_id (only x ann_account k ∙ sym (only y ann_account l));
}

Reaches-HasUniqueEmails_example :
    HasUniqueEmails
      (reset_password sample "bob@x.io" "12345678" "new"
        (signup sample "bob@x.io" "pw" "Bob" home).1).1.users
Reaches-HasUniqueEmails_example =
    Reaches-HasUniqueEmails sample user_updates user_finds user_saves user_ids home
      (reset_password sample "bob@x.io" "12345678" "new"
        (signup sample "bob@x.io" "pw" "Bob" home).1).1
      home-HasUniqueEmails
      (after (after here (signed_up "bob@x.io" "pw" "Bob" home))
        (password_reset "bob@x.io" "12345678" "new" (signup sample "bob@x.io" "pw" "Bob" home).1))
