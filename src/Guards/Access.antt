-- ===== src/Guards/Access.antt =====
-- What the guards have established about a request that they let through.
use task_scheduling_platform.Base.{
  ℕ, String, true, Option, none, some, List, ◌∷◌, ◌≡◌, ◌⊎◌, inl, inr, refl, Elem, arith, ◌∙◌, ap,
  subst, Option-cases, Bool-cases,
}
use task_scheduling_platform.Platform.Entities.{WorkspaceMember}
use task_scheduling_platform.Platform.Io.{World, Result-cases, ok, pair_eq}
use task_scheduling_platform.Platform.Drivers.{Platform, Claims}
use task_scheduling_platform.Platform.Laws.{Finds}
use task_scheduling_platform.Guards.Permissions.{Permission, has_permissions}
use task_scheduling_platform.Guards.Request.{Request, given_workspace_id, given_slug}
use task_scheduling_platform.Guards.Defs.{
  bearer_token, is_member, role_allowed, attach, jwt_auth_guard, resolve_workspace, find_member,
  member_role, check_role, role_guard, permission_member, check_permissions, permission_guard,
}

-- The membership of a user that a request carries is a stored row.
pub record IsMember (w : World) (user : Claims) (workspace_id : ℕ) (m : WorkspaceMember)
    : Type 0 where
  pub listed : Elem m w.members
  pub same_workspace : m.workspace_id ≡ workspace_id
  pub same_user : m.user_id ≡ user.user_id

module _ (p : Platform) where
  pub jwt_auth_guard-ok :
      (req req' : Request) (w w' : World)
      → jwt_auth_guard p req w ≡ (ok req', w')
      → (token : String) × (claims : Claims) × (bearer_token req.authorization ≡ some token)
        × (p.jwt.verify p.config.access_secret token w.now ≡ ok claims)
        × (req' ≡ record req { user = some claims })
        × (w' ≡ w)
  unfolding jwt_auth_guard
  jwt_auth_guard-ok req req' w w' h = elim (Option-cases (bearer_token req.authorization)) [
    | inl missing ↦ absurd (ground arith)
    | inr (token, found) ↦ elim (Result-cases (p.jwt.verify p.config.access_secret token w.now)) [
      | inl (claims, e) ↦ (token, claims, found, e, ground arith, ground arith)
      | inr (x, e) ↦ absurd (ground arith)
    ]
  ]

  resolve_workspace-ok :
      (id : Option ℕ) (slug : Option String) (found : Option ℕ) (w w' : World)
      → resolve_workspace p id slug w ≡ (ok found, w')
      → w' ≡ w
  unfolding resolve_workspace
  resolve_workspace-ok (some id) slug found w w' h = cc
  resolve_workspace-ok none none found w w' h = cc
  resolve_workspace-ok none (some slug) found w w' h = ground arith

  module _ (finds : Finds p.members) where
    pub find_member-ok :
        (workspace_id : ℕ) (user : Claims) (m : WorkspaceMember) (w w' : World)
        → find_member p workspace_id user.user_id w ≡ (ok m, w')
        → IsMember w user workspace_id m × (w' ≡ w)
    unfolding find_member
    find_member-ok workspace_id user m w w' h =
        let search = p.members.find_one (is_member workspace_id user.user_id) w.members in
        let found : search ≡ ok (some m) = ground arith in
        let holds = finds.found_holds _ w.members m found in
        (
          record {
            listed = finds.found_elem _ w.members m found;
            same_workspace = ground arith;
            same_user = ground arith;
          },
          ground arith,
        )

    -- RoleGuard lets a request through in two ways: there is no workspace and the route requires
    -- no role, or the user is a stored member of the workspace in a role that is allowed.
    abbrev pub Admits : Option (List String) → World → Claims → Request → Request → Type 0
    Admits required w user req req' =
        ((required ≡ none) × (req' ≡ req))
        ⊎ ((workspace_id : ℕ) × (m : WorkspaceMember) × IsMember w user workspace_id m
            × (role_allowed required m.role ≡ true)
            × (req' ≡ attach workspace_id m req))

    check_role-ok :
        (required : Option (List String)) (req req' : Request) (user : Claims) (o : Option ℕ)
        (w w' : World)
        → check_role p required req user o w ≡ (ok req', w')
        → Admits required w user req req' × (w' ≡ w)
    unfolding check_role
    check_role-ok none req req' user none w w' h = (inl (refl, cc), cc)
    check_role-ok (some roles) req req' user none w w' h = absurd (ground arith)
    check_role-ok required req req' user (some workspace_id) w w' h =
        elim (Result-cases (find_member p workspace_id user.user_id w).0) [
          | inl (m, e) ↦
              let (is, same) =
                find_member-ok workspace_id user m w (find_member p workspace_id user.user_id w).1
                  (pair_eq _ e) in
              (inr (workspace_id, m, is, ground arith, ground arith), ground arith)
          | inr (x, e) ↦ absurd (ground arith)
        ]

    -- A request that RoleGuard lets through has a user, and either names no workspace on a route that
    -- requires no role, or its user is a stored member of the workspace that it names, in a role that
    -- the route allows; the membership is attached to the request. Nothing is changed.
    pub role_guard-Admits :
        (required : Option (List String)) (req req' : Request) (w w' : World)
        → role_guard p required req w ≡ (ok req', w')
        → (user : Claims) × (req.user ≡ some user) × Admits required w user req req' × (w' ≡ w)
    unfolding role_guard
    role_guard-Admits required req req' w w' h = elim (Option-cases req.user) [
      | inl missing ↦ absurd (ground arith)
      | inr (user, e) ↦
          let place =
            resolve_workspace p (given_workspace_id req.workspace_ids) (given_slug req.slugs) in
          elim (Result-cases (place w).0) [
            | inl (o, f) ↦
                let same = resolve_workspace-ok _ _ o w (place w).1 (pair_eq _ f) in
                let g : check_role p required req user o w ≡ (ok req', w') = ground arith in
                let (admits, kept) = check_role-ok required req req' user o w w' g in
                (user, e, admits, kept)
            | inr (x, f) ↦ absurd (ground arith)
          ]
    ]

    permission_member-ok :
        (req req' : Request) (user : Claims) (o : Option WorkspaceMember) (w w' : World)
        → permission_member p req user o w ≡ (ok req', w')
        → (((m : WorkspaceMember) × (o ≡ some m) × (req' ≡ req))
            ⊎ ((workspace_id : ℕ) × (m : WorkspaceMember) × IsMember w user workspace_id m
                × (req' ≡ attach workspace_id m req)))
          × (w' ≡ w)
    unfolding permission_member
    permission_member-ok req req' user (some m) w w' h = (inl (m, refl, cc), cc)
    permission_member-ok req req' user none w w' h =
        let place =
          resolve_workspace p (given_workspace_id req.workspace_ids) (given_slug req.slugs) in
        elim (Result-cases (place w).0) [
          | inl (none, f) ↦ absurd (ground arith)
          | inl (some workspace_id, f) ↦
              let same = resolve_workspace-ok _ _ (some workspace_id) w (place w).1 (pair_eq _ f) in
              elim (Result-cases (find_member p workspace_id user.user_id w).0) [
                | inl (m, e) ↦
                    let (is, kept) =
                      find_member-ok workspace_id user m w
                        (find_member p workspace_id user.user_id w).1 (pair_eq _ e) in
                    (inr (workspace_id, m, is, ground arith), ground arith)
                | inr (x, e) ↦ absurd (ground arith)
              ]
          | inr (x, f) ↦ absurd (ground arith)
        ]

    check_permissions-ok :
        (required : List Permission) (req req' : Request) (w w' : World)
        → check_permissions p required req w ≡ (ok req', w')
        → (has_permissions (member_role req.workspace_member) required ≡ true) × (req' ≡ req)
    unfolding check_permissions
    check_permissions-ok required req req' w w' h =
        elim (Bool-cases (has_permissions (member_role req.workspace_member) required)) [
          | inl has ↦ (has, ground arith)
          | inr lacks ↦ absurd (ground arith)
        ]

    -- Where RoleGuard has attached a stored membership, or none, PermissionGuard lets a request for
    -- some permissions through only if the user is a stored member in a role that has them all.
    pub permission_guard-ok :
        (perm : Permission) (perms : List Permission) (req req' : Request) (w w' : World)
        → ((user : Claims) (m : WorkspaceMember)
            → req.user ≡ some user
            → req.workspace_member ≡ some m
            → (workspace_id : ℕ) × IsMember w user workspace_id m)
        → permission_guard p (some (perm ∷ perms)) req w ≡ (ok req', w')
        → (user : Claims) × (req.user ≡ some user)
          × (workspace_id : ℕ) × (m : WorkspaceMember) × IsMember w user workspace_id m
          × (has_permissions m.role (perm ∷ perms) ≡ true)
          × (req'.workspace_member ≡ some m)
    unfolding permission_guard
    permission_guard-ok perm perms req req' w w' attached h = elim (Option-cases req.user) [
      | inl missing ↦ absurd (ground arith)
      | inr (user, e) ↦
          let look = permission_member p req user req.workspace_member in
          elim (Result-cases (look w).0) [
            | inl (r, f) ↦
                let c : check_permissions p (perm ∷ perms) r (look w).1 ≡ (ok req', w') =
                  ground arith in
                let (has, same') = check_permissions-ok (perm ∷ perms) r req' (look w).1 w' c in
                elim (permission_member-ok req r user req.workspace_member w (look w).1
                  (pair_eq _ f)).0 [
                    | inl (m, g, same) ↦
                        let (workspace_id, is) = attached user m e g in
                        (
                          user,
                          e,
                          workspace_id,
                          m,
                          is,
                          subst (λ o. has_permissions (member_role o) (perm ∷ perms) ≡ true)
                              (ap (λ (x : Request). x.workspace_member) same ∙ g) has,
                          ap (λ (x : Request). x.workspace_member) (same' ∙ same) ∙ g,
                        )
                    | inr (workspace_id, m, is, same) ↦ (
                      user,
                      e,
                      workspace_id,
                      m,
                      is,
                      subst (λ o. has_permissions (member_role o) (perm ∷ perms) ≡ true)
                          (ap (λ (x : Request). x.workspace_member) same) has,
                      ap (λ (x : Request). x.workspace_member) (same' ∙ same),
                    )
                  ]
            | inr (x, f) ↦ absurd (ground arith)
          ]
    ]
