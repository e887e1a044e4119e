-- ===== src/Workspace/Members.antt =====
-- `inviteMember`: a user is a member of a workspace once at most.
use task_scheduling_platform.Base.{
  eq_iff, ℕ, String, none, some, List, ◌≡◌, ◌⊎◌, inl, inr, sym, ap, ◌∙◌, subst, arith, Elem,
}
use task_scheduling_platform.Platform.Entities.{User, Workspace, WorkspaceMember}
use task_scheduling_platform.Platform.Io.{World, Result-cases, ok}
use task_scheduling_platform.Platform.Drivers.{Platform}
use task_scheduling_platform.Platform.Laws.{Finds, Saves}
use task_scheduling_platform.Cache.{get, set}
use task_scheduling_platform.Realtime.{send_member_joined}
use task_scheduling_platform.Notification.Frame.{Framed, framed}
use task_scheduling_platform.Users.{has_email, find_by_email, find_user}
use task_scheduling_platform.Guards.Defs.{is_member}
use task_scheduling_platform.Workspace.Defs.{
  new_member, put_members, load_workspace, find_workspace, announce_member, invite_member,
}
use task_scheduling_platform.Workspace.Creation.{StoredMember}

-- Two memberships of one user in one workspace are the same row.
abbrev pub JoinsOnce : World → Type 0
JoinsOnce w =
    (x y : WorkspaceMember)
    → Elem x w.members
    → Elem y w.members
    → x.workspace_id ≡ y.workspace_id
    → x.user_id ≡ y.user_id
    → x ≡ y

-- The id is that of a stored user with this email.
abbrev pub Names : (email : String) (id : ℕ) → World → Type 0
Names email id w = (user : User) × Elem user w.users × (user.email ≡ email) × (id ≡ user.id)

module _ (p : Platform) where
  find_workspace_members : (id : ℕ) (w : World) → (find_workspace p id w).1.members ≡ w.members
  unfolding find_workspace load_workspace get set
  find_workspace_members id w = ground arith

  find_workspace_users : (id : ℕ) (w : World) → (find_workspace p id w).1.users ≡ w.users
  unfolding find_workspace load_workspace get set
  find_workspace_users id w = ground arith

  find_user-Framed : (id : ℕ) → Framed (find_user p id)
  unfolding find_user
  find_user-Framed id w = ground arith

  announce_member-Framed :
      (workspace_id performer_id : ℕ) (email role : String) (ws : Workspace) (user : User)
      (m : WorkspaceMember)
      → Framed (announce_member p workspace_id performer_id email role ws user m)
  unfolding announce_member send_member_joined
  announce_member-Framed workspace_id performer_id email role ws user m =
      search (framed, find_user-Framed) depth 10

  announce_member_members :
      (workspace_id performer_id : ℕ) (email role : String) (ws : Workspace) (user : User)
      (m : WorkspaceMember) (w : World)
      → (announce_member p workspace_id performer_id email role ws user m w).1.members ≡ w.members
  announce_member_members workspace_id performer_id email role ws user m w =
      let notifies = announce_member-Framed workspace_id performer_id email role ws user m w in
      cc notifies

  -- The memberships after an invitation: as before, or with one new row of the user with the email,
  -- who had none.
  invite_member_members :
      (workspace_id performer_id : ℕ) (email role : String) (w : World)
      → let run = invite_member p workspace_id performer_id email role w in
        (run.1.members ≡ w.members)
        ⊎ ((user : User) × (m : WorkspaceMember) × (ms : List WorkspaceMember) × (p.users.find_one
                (has_email email)
                w.users
              ≡ ok (some user))
            × (p.members.find_one (is_member workspace_id user.id) w.members ≡ ok none)
            × (p.members.save (new_member workspace_id user.id role) w.members ≡ ok (m, ms))
            × (run.1.members ≡ ms))
  unfolding invite_member find_by_email
  invite_member_members workspace_id performer_id email role w =
      let found = find_workspace p workspace_id w in
      let kept = find_workspace_members workspace_id w in
      let same_users = find_workspace_users workspace_id w in
      elim (Result-cases found.0) [
        | inl (ws, e) ↦ elim (Result-cases (p.users.find_one (has_email email) found.1.users)) [
          | inl (none, f) ↦ inl (ground arith)
          | inl (some user, f) ↦
              elim (Result-cases
                (p.members.find_one (is_member workspace_id user.id) found.1.members)) [
                  | inl (none, g) ↦
                      elim (Result-cases
                        (p.members.save (new_member workspace_id user.id role) found.1.members)) [
                          | inl ((m, ms), h) ↦
                              let last =
                                announce_member_members workspace_id performer_id email role ws user
                                  m (put_members ms found.1) in
                              inr (
                                user,
                                m,
                                ms,
                                ground arith,
                                ground arith,
                                ground arith,
                                ground arith,
                              )
                          | inr (x, h) ↦ inl (ground arith)
                        ]
                  | inl (some x, g) ↦ inl (ground arith)
                  | inr (x, g) ↦ inl (ground arith)
                ]
          | inr (x, f) ↦ inl (ground arith)
        ]
        | inr (x, e) ↦ inl (ground arith)
      ]

  module _ {K : Type 0} (member_key : WorkspaceMember → K) (finds : Finds p.members)
      (users : Finds p.users) (saves : Saves member_key StoredMember p.members) where
    -- No user joins a workspace twice: an invitation keeps the memberships unique, whether it returns
    -- or throws, and a membership that it adds is that of a stored user with the invited email, in
    -- the workspace and in the role of the invitation.
    pub invite_member-JoinsOnce :
        (workspace_id performer_id : ℕ) (email role : String) (w : World)
        → JoinsOnce w
        → let run = invite_member p workspace_id performer_id email role w in
          JoinsOnce run.1
          × ((x : WorkspaceMember)
              → Elem x run.1.members
              → Elem x w.members
                ⊎ ((x.workspace_id ≡ workspace_id) × (x.role ≡ role) × Names email x.user_id w))
    invite_member-JoinsOnce workspace_id performer_id email role w once =
        elim (invite_member_members workspace_id performer_id email role w) [
          | inl same ↦ (
            λ x y k l. once x y (subst (Elem x) same k) (subst (Elem y) same l),
            λ x k. inl (subst (Elem x) same k),
          )
          | inr (user, m, ms, named, free, stored, same) ↦
              let column = saves.saved_columns _ m w.members ms stored in
              let holds = users.found_holds _ w.users user named in
              let email_is : user.email ≡ email = ground (arith, eq_iff user.email email) in
              let in_workspace = ap (λ z. z.workspace_id) column in
              let of_user = ap (λ z. z.user_id) column in
              let other : (x : WorkspaceMember)
                  → Elem x w.members
                  → x.workspace_id ≡ m.workspace_id
                  → x.user_id ≡ m.user_id
                  → ⊥ =
                λ x k e f. let absent = finds.none_found _ w.members x free k in ground arith in
              (
                λ x y k l e f.
                    elim (saves.saved_only _ m w.members ms stored x (subst (Elem x) same k)) [
                      | inl x_new ↦
                          elim (saves.saved_only _ m w.members ms stored y
                            (subst (Elem y) same l)) [
                              | inl y_new ↦ x_new ∙ sym y_new
                              | inr (y_old, _) ↦ absurd (
                                  other y y_old (sym e ∙ ap (λ z. z.workspace_id) x_new)
                                    (sym f ∙ ap (λ z. z.user_id) x_new))
                            ]
                      | inr (x_old, _) ↦
                          elim (saves.saved_only _ m w.members ms stored y
                            (subst (Elem y) same l)) [
                              | inl y_new ↦ absurd (
                                  other x x_old (e ∙ ap (λ z. z.workspace_id) y_new)
                                    (f ∙ ap (λ z. z.user_id) y_new))
                              | inr (y_old, _) ↦ once x y x_old y_old e f
                            ]
                    ],
                λ x k. elim (saves.saved_only _ m w.members ms stored x (subst (Elem x) same k)) [
                  | inl new ↦ inr (
                    ap (λ z. z.workspace_id) new ∙ in_workspace,
                    ap (λ z. z.role) new ∙ ap (λ z. z.role) column,
                    (
                      user,
                      users.found_elem _ w.users user named,
                      email_is,
                      ap (λ z. z.user_id) new ∙ of_user,
                    ),
                  )
                  | inr (old, _) ↦ inl old
                ],
              )
        ]
