-- ===== src/Auth/Accounts.antt =====
-- Accounts as a state machine: the operations of the service are its steps, in any order and with
-- any outcome.
use task_scheduling_platform.Base.{
  ℕ, String, none, some, List, ◌≡◌, ◌⊎◌, inl, inr, refl, sym, ap, ◌∙◌, subst, arith, Elem, ◌==◌,
  ◌<◌, ◌≤◌, ltb, ◌+◌, Bool, Bool-cases, text_length,
}
use task_scheduling_platform.Platform.Entities.{User}
use task_scheduling_platform.Platform.Io.{World, Result-cases, ok, err, bad_request}
use task_scheduling_platform.Platform.Drivers.{Platform}
use task_scheduling_platform.Platform.Laws.{Finds, Saves, Identifies, Updates}
use task_scheduling_platform.Queue.{add_job, audit_log}
use task_scheduling_platform.Users.{
  ProfileData, has_email, draw, hash_password, find_by_email, create_user, update_profile,
  set_verified,
}
use task_scheduling_platform.Users.Emails.{
  StoredUser, user_id, HasUniqueEmails, create_user-HasUniqueEmails, update_profile-HasUniqueEmails,
  set_verified-HasUniqueEmails,
}
use task_scheduling_platform.Auth.Account.{
  signup, log_verified, verify_email, send_reset_code, store_password, request_password_reset,
  reset_password,
}

-- One request to the account service, from the state before it to the state after it.
pub data AccountStep (p : Platform) : World → World → Type 0 where
  signed_up :
      (email plain name : String) (w : World) → AccountStep p w (signup p email plain name w).1
  verified : (email code : String) (w : World) → AccountStep p w (verify_email p email code w).1
  asked : (email : String) (w : World) → AccountStep p w (request_password_reset p email w).1
  password_reset :
      (email code plain : String) (w : World)
      → AccountStep p w (reset_password p email code plain w).1
  edited : (id : ℕ) (d : ProfileData) (w : World) → AccountStep p w (update_profile p id d w).1

-- The states that any number of requests lead to.
pub data Reaches (p : Platform) (start : World) : World → Type 0 where
  here : Reaches p start start
  after : {v w : World} → Reaches p start v → AccountStep p v w → Reaches p start w

module _ (p : Platform) where
  signup_users :
      (email plain name : String) (w : World)
      → (signup p email plain name w).1.users ≡ (create_user p email plain name w).1.users
  unfolding signup draw add_job audit_log
  signup_users email plain name w = ground arith

  verify_email_users :
      (email code : String) (w : World)
      → ((verify_email p email code w).1.users ≡ w.users)
        ⊎ ((verify_email p email code w).1.users ≡ (set_verified p email w).1.users)
  unfolding verify_email log_verified find_by_email audit_log
  verify_email_users email code w = elim (Bool-cases (ltb (text_length code) 8)) [
    | inl short ↦ inl (ground arith)
    | inr long ↦ inr (ground arith)
  ]

  request_password_reset_users :
      (email : String) (w : World) → (request_password_reset p email w).1.users ≡ w.users
  unfolding request_password_reset send_reset_code find_by_email draw add_job
  request_password_reset_users email w = ground arith

  reset_password_users :
      (email code plain : String) (w : World)
      → ((reset_password p email code plain w).1.users ≡ w.users)
        ⊎ ((u : User) × (hash : String) × (v : World) × (v.users ≡ w.users)
            × ((reset_password p email code plain w).1.users
                ≡ (store_password p email hash u v).1.users))
  unfolding reset_password find_by_email hash_password draw
  reset_password_users email code plain w = elim (Bool-cases (ltb (text_length code) 8)) [
    | inl short ↦ inl (ground arith)
    | inr long ↦ elim (Result-cases (p.users.find_one (has_email email) w.users)) [
      | inl (none, e) ↦ inl (ground arith)
      | inl (some u, e) ↦ inr (
        u,
        p.bcrypt_hash plain (p.random_hex w.drawn),
        record w { drawn = w.drawn + 1 },
        refl,
        ground arith,
      )
      | inr (x, e) ↦ inl (ground arith)
    ]
  ]

  module _ (updates : Updates p.users) where
    patch-HasUniqueEmails :
        (q : User → Bool) (hash : String) (us us' : List User)
        → HasUniqueEmails us
        → p.users.update q (λ x. record x { password = some hash }) us ≡ ok us'
        → HasUniqueEmails us'
    patch-HasUniqueEmails q hash us us' h patched =
        let origin : (x : User)
            → Elem x us'
            → (y : User) × Elem y us × (x.id ≡ y.id) × (x.email ≡ y.email) =
          λ x k.
            let (y, listed, which) = updates.updated_only q _ us us' patched x k in
            elim which [
              | inl (_, e) ↦ (y, listed, ap (λ z. z.id) e, ap (λ z. z.email) e)
              | inr (_, e) ↦ (y, listed, ap (λ z. z.id) e, ap (λ z. z.email) e)
            ] in
        record {
          saved = λ x k z. let (y, listed, id, mail) = origin x k in h.saved y listed (sym id ∙ z);
          unique = λ x y k l e.
              let (x', x_listed, x_id, x_mail) = origin x k in
              let (y', y_listed, y_id, y_mail) = origin y l in
              x_id ∙ h.unique x' y' x_listed y_listed (sym x_mail ∙ e ∙ y_mail) ∙ sym y_id;
        }

    module _ (finds : Finds p.users) (saves : Saves user_id StoredUser p.users)
        (ids : Identifies user_id p.users) where
      store_password-HasUniqueEmails :
          (email hash : String) (u : User) (v : World)
          → HasUniqueEmails v.users
          → HasUniqueEmails (store_password p email hash u v).1.users
      unfolding store_password audit_log
      store_password-HasUniqueEmails email hash u v h =
          let d : ProfileData = record { name = none; avatar = none } in
          let edit = update_profile p u.id d v in
          let run = store_password p email hash u v in
          let edited = update_profile-HasUniqueEmails p finds saves ids u.id d v h in
          elim (Result-cases edit.0) [
            | inl (_, e) ↦
                elim (Result-cases (
                  p.users.update (λ x. x.id == u.id) (λ x. record x { password = some hash })
                    edit.1.users)) [
                      | inl (us, f) ↦
                          let after : us ≡ run.1.users = ground arith in
                          subst HasUniqueEmails after
                            (patch-HasUniqueEmails _ hash edit.1.users us edited f)
                      | inr (x, f) ↦
                          let after : edit.1.users ≡ run.1.users = ground arith in
                          subst HasUniqueEmails after edited
                    ]
            | inr (x, e) ↦
                let after : edit.1.users ≡ run.1.users = ground arith in
                subst HasUniqueEmails after edited
          ]

      step-HasUniqueEmails :
          (v w : World) → AccountStep p v w → HasUniqueEmails v.users → HasUniqueEmails w.users
      step-HasUniqueEmails _ _ (signed_up email plain name w) h =
          subst HasUniqueEmails (sym (signup_users email plain name w))
            (create_user-HasUniqueEmails p finds saves ids email plain name w h)
      step-HasUniqueEmails _ _ (verified email code w) h = elim (verify_email_users email code w) [
        | inl e ↦ subst HasUniqueEmails (sym e) h
        | inr e ↦
            subst HasUniqueEmails (sym e) (set_verified-HasUniqueEmails p finds saves ids email w h)
      ]
      step-HasUniqueEmails _ _ (asked email w) h =
          subst HasUniqueEmails (sym (request_password_reset_users email w)) h
      step-HasUniqueEmails _ _ (password_reset email code plain w) h =
          elim (reset_password_users email code plain w) [
            | inl e ↦ subst HasUniqueEmails (sym e) h
            | inr (u, hash, v, same, e) ↦
                subst HasUniqueEmails (sym e) (
                  store_password-HasUniqueEmails email hash u v
                    (subst HasUniqueEmails (sym same) h))
          ]
      step-HasUniqueEmails _ _ (edited id d w) h =
          update_profile-HasUniqueEmails p finds saves ids id d w h

      -- Whatever sign-ups, verifications, password resets and edits of profiles a server with unique
      -- emails gets, in any order and with any outcome, no two accounts ever have the same email.
      pub Reaches-HasUniqueEmails :
          (start w : World)
          → HasUniqueEmails start.users
          → Reaches p start w
          → HasUniqueEmails w.users
      Reaches-HasUniqueEmails start _ h here = h
      Reaches-HasUniqueEmails start w h (after {v} reached step) =
          step-HasUniqueEmails v w step (Reaches-HasUniqueEmails start v h reached)

  -- The code of a password reset protects nothing: a code of less than eight code units is refused
  -- without a change, and any two longer ones do the same.
  pub reset_password_codes :
      (email plain : String) (w : World)
      → ((code : String)
          → text_length code < 8
          → reset_password p email code plain w
            ≡ (err (bad_request "Invalid or expired reset code"), w))
        × ((code other : String)
            → 8 ≤ text_length code
            → 8 ≤ text_length other
            → reset_password p email code plain w ≡ reset_password p email other plain w)
  unfolding reset_password
  reset_password_codes email plain w =
      (λ code short. ground arith, λ code other long long'. ground arith)
