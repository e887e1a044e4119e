-- ===== src/Users/Emails.antt =====
-- One account at most has an email: every operation on accounts keeps that.
use task_scheduling_platform.Base.{
  ℕ, ◌+◌, String, true, none, some, List, ◌≡◌, ◌≢◌, inl, inr, refl, sym, ap, ◌∙◌, subst, arith,
  eq_iff, Elem, Bool-cases, ◌==◌,
}
use task_scheduling_platform.Platform.Entities.{User}
use task_scheduling_platform.Platform.Io.{World, Result-cases, ok}
use task_scheduling_platform.Platform.Drivers.{Platform}
use task_scheduling_platform.Platform.Laws.{Finds, Saves, Identifies}
use task_scheduling_platform.Users.{
  ProfileData, has_email, new_user, patch_profile, draw, hash_password, find_by_email, find_user,
  save_user, create_user, update_profile, set_verified,
}

abbrev pub StoredUser : User → User → Type 0
StoredUser e r = r ≡ record e { id = r.id; created_at = r.created_at; updated_at = r.updated_at }

abbrev pub user_id : User → ℕ
user_id u = u.id

-- Every account has an id, and two accounts with one email are the same.
pub record HasUniqueEmails (us : List User) : Type 0 where
  pub saved : (x : User) → Elem x us → x.id ≢ 0
  pub unique : (x y : User) → Elem x us → Elem y us → x.email ≡ y.email → x.id ≡ y.id

module _ (p : Platform) (finds : Finds p.users) (saves : Saves user_id StoredUser p.users)
    (ids : Identifies user_id p.users) where
  -- Saving an account whose email is its own, or nobody's.
  save-HasUniqueEmails :
      (e r : User) (us us' : List User)
      → HasUniqueEmails us
      → ((x : User) → Elem x us → x.email ≡ e.email → (e.id ≢ 0) × (x.id ≡ e.id))
      → p.users.save e us ≡ ok (r, us')
      → HasUniqueEmails us'
  save-HasUniqueEmails e r us us' h own stored =
      let mail : r.email ≡ e.email = ap (λ z. z.email) (saves.saved_columns e r us us' stored) in
      let same : (x : User) → Elem x us → x.email ≡ r.email → x.id ≡ r.id =
        λ x k f. let (old, g) = own x k (f ∙ mail) in g ∙ sym (ids.kept_id e r us us' stored old) in
      let numbered : r.id ≢ 0 = λ z. elim (Bool-cases (e.id == 0)) [
        | inl new ↦ (ids.fresh_id e r us us' stored (ground arith)).0 z
        | inr old ↦ let kept = ids.kept_id e r us us' stored (ground arith) in ground arith
      ] in
      record {
        saved = λ x k. elim (saves.saved_only e r us us' stored x k) [
          | inl f ↦ λ z. numbered (sym (ap user_id f) ∙ z)
          | inr (old, _) ↦ h.saved x old
        ];
        unique = λ x y k l f. elim (saves.saved_only e r us us' stored x k) [
          | inl x_new ↦ elim (saves.saved_only e r us us' stored y l) [
            | inl y_new ↦ ap user_id (x_new ∙ sym y_new)
            | inr (y_old, _) ↦
                ap user_id x_new ∙ sym (same y y_old (sym f ∙ ap (λ z. z.email) x_new))
          ]
          | inr (x_old, _) ↦ elim (saves.saved_only e r us us' stored y l) [
            | inl y_new ↦ same x x_old (f ∙ ap (λ z. z.email) y_new) ∙ sym (ap user_id y_new)
            | inr (y_old, _) ↦ h.unique x y x_old y_old f
          ]
        ];
      }

  save_user-HasUniqueEmails :
      (e : User) (w : World)
      → HasUniqueEmails w.users
      → ((x : User) → Elem x w.users → x.email ≡ e.email → (e.id ≢ 0) × (x.id ≡ e.id))
      → HasUniqueEmails (save_user p e w).1.users
  unfolding save_user
  save_user-HasUniqueEmails e w h own = elim (Result-cases (p.users.save e w.users)) [
    | inl ((r, us), stored) ↦
        let after : us ≡ (save_user p e w).1.users = ground arith in
        subst HasUniqueEmails after (save-HasUniqueEmails e r w.users us h own stored)
    | inr (x, failed) ↦
        let after : w.users ≡ (save_user p e w).1.users = ground arith in
        subst HasUniqueEmails after h
  ]

  -- Changing an account that is stored, but not its id or its email.
  pub resave-HasUniqueEmails :
      (u e : User) (w : World)
      → HasUniqueEmails w.users
      → Elem u w.users
      → e.id ≡ u.id
      → e.email ≡ u.email
      → HasUniqueEmails (save_user p e w).1.users
  resave-HasUniqueEmails u e w h k same mail =
      save_user-HasUniqueEmails e w h
        (λ x l f. (λ z. h.saved u k (sym same ∙ z), h.unique x u l k (f ∙ mail) ∙ sym same))

  -- `createUser` keeps the emails unique, whether it returns or throws.
  pub create_user-HasUniqueEmails :
      (email plain name : String) (w : World)
      → HasUniqueEmails w.users
      → HasUniqueEmails (create_user p email plain name w).1.users
  unfolding create_user find_by_email hash_password draw
  create_user-HasUniqueEmails email plain name w h =
      let run = create_user p email plain name w in
      elim (Result-cases (p.users.find_one (has_email email) w.users)) [
        | inl (none, e) ↦
            let user = new_user email (p.bcrypt_hash plain (p.random_hex w.drawn)) name in
            let w₁ = record w { drawn = w.drawn + 1 } in
            let after : (save_user p user w₁).1.users ≡ run.1.users = ground arith in
            subst HasUniqueEmails after (
              save_user-HasUniqueEmails user w₁ h (λ x k f.
                let other = finds.none_found _ w.users x e k in
                absurd (ground (arith, eq_iff x.email email))))
        | inl (some u, e) ↦
            let after : w.users ≡ run.1.users = ground arith in subst HasUniqueEmails after h
        | inr (x, e) ↦
            let after : w.users ≡ run.1.users = ground arith in subst HasUniqueEmails after h
      ]

  pub update_profile-HasUniqueEmails :
      (id : ℕ) (d : ProfileData) (w : World)
      → HasUniqueEmails w.users
      → HasUniqueEmails (update_profile p id d w).1.users
  unfolding update_profile find_user
  update_profile-HasUniqueEmails id d w h =
      let run = update_profile p id d w in
      elim (Result-cases (p.users.find_one (λ u. u.id == id) w.users)) [
        | inl (none, e) ↦
            let after : w.users ≡ run.1.users = ground arith in subst HasUniqueEmails after h
        | inl (some u, e) ↦
            let after : (save_user p (patch_profile d u) w).1.users ≡ run.1.users = ground arith in
            let listed = finds.found_elem _ w.users u e in
            subst HasUniqueEmails after
              (resave-HasUniqueEmails u (patch_profile d u) w h listed refl refl)
        | inr (x, e) ↦
            let after : w.users ≡ run.1.users = ground arith in subst HasUniqueEmails after h
      ]

  pub set_verified-HasUniqueEmails :
      (email : String) (w : World)
      → HasUniqueEmails w.users
      → HasUniqueEmails (set_verified p email w).1.users
  unfolding set_verified find_by_email
  set_verified-HasUniqueEmails email w h =
      let run = set_verified p email w in
      elim (Result-cases (p.users.find_one (has_email email) w.users)) [
        | inl (none, e) ↦
            let after : w.users ≡ run.1.users = ground arith in subst HasUniqueEmails after h
        | inl (some u, e) ↦
            let v = record u { is_verified = true } in
            let after : (save_user p v w).1.users ≡ run.1.users = ground arith in
            let listed = finds.found_elem _ w.users u e in
            subst HasUniqueEmails after (resave-HasUniqueEmails u v w h listed refl refl)
        | inr (x, e) ↦
            let after : w.users ≡ run.1.users = ground arith in subst HasUniqueEmails after h
      ]
