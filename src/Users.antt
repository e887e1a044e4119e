-- ===== src/Users.antt =====
-- src/modules/users/users.service.ts: accounts. The password column is read along with the others
-- here, where the code selects it only at a login.
pub mod Emails
use task_scheduling_platform.Base.{
  ℕ, ◌+◌, String, false, true, Option, none, some, List, ◌==◌, str_eq, given, is_some, Bool,
}
use task_scheduling_platform.Platform.Entities.{User}
use task_scheduling_platform.Platform.Io.{
  World, Io, conflict, not_found, pure, reads, asks, commits, modify, or_throw, throw_if, ◌>>=◌,
  ◌>>◌,
}
use task_scheduling_platform.Platform.Drivers.{Platform}

abbrev pub put_users : List User → World → World
put_users us w = record w { users = us }

abbrev pub has_email : String → User → Bool
has_email email u = str_eq u.email email

abbrev pub new_user : (email password_hash name : String) → User
new_user email password_hash name = record {
  id = 0;
  email = email;
  password = some password_hash;
  name = name;
  avatar = none;
  is_verified = false;
  created_at = 0;
  updated_at = 0;
}

-- `updateData` of `updateProfile`
pub record ProfileData : Type 0 where
  pub name : Option String
  pub avatar : Option String

abbrev given_avatar : Option String → Option String → Option String
given_avatar none a = a
given_avatar (some b) a = some b

abbrev pub patch_profile : ProfileData → User → User
patch_profile d u = record u { name = given d.name u.name; avatar = given_avatar d.avatar u.avatar }

module _ (p : Platform) where
  -- A fresh text of the random source.
  unfoldable pub draw : Io String
  draw = do
    text ← asks (λ w. p.random_hex w.drawn)
    modify (λ w. record w { drawn = w.drawn + 1 })
    pure text

  -- `bcrypt.genSalt` and `bcrypt.hash`
  unfoldable pub hash_password : String → Io String
  hash_password plain = do salt ← draw; pure (p.bcrypt_hash plain salt)

  unfoldable pub find_by_email : String → Io (Option User)
  find_by_email email = reads (λ w. p.users.find_one (has_email email) w.users)

  unfoldable pub find_by_email_with_password : String → Io (Option User)
  find_by_email_with_password email = reads (λ w. p.users.find_one (has_email email) w.users)

  unfoldable pub save_user : User → Io User
  save_user u = commits (λ w. p.users.save u w.users) put_users

  unfoldable pub create_user : (email plain name : String) → Io User
  create_user email plain name = do
    existing ← find_by_email email
    throw_if (is_some existing) (conflict "A user with this email address already exists")
    hash ← hash_password plain
    save_user (new_user email hash name)

  unfoldable pub find_user : ℕ → Io User
  find_user id = do
    found ← reads (λ w. p.users.find_one (λ u. u.id == id) w.users)
    or_throw found (not_found "User not found")

  unfoldable pub update_profile : ℕ → ProfileData → Io User
  update_profile id d = do user ← find_user id; save_user (patch_profile d user)

  unfoldable pub set_verified : String → Io (Unit {0})
  set_verified email = do
    found ← find_by_email email
    user ← or_throw found (not_found "User not found")
    _ ← save_user (record user { is_verified = true })
    pure tt
