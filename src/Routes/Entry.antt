-- ===== src/Routes/Entry.antt =====
-- The requests that reach the methods of a workspace are those of its members.
use task_scheduling_platform.Base.{
  ℕ, String, true, false, ◌==◌, Option, none, some, List, [], ◌∷◌, ◌≡◌, inl, inr, Elem, arith,
  subst, sym, Option-cases, Bool-cases,
}
use mathlib.Core.Path.{subst₂}
use task_scheduling_platform.Platform.Entities.{WorkspaceMember}
use task_scheduling_platform.Platform.Io.{World, Result-cases, ok, pair_eq}
use task_scheduling_platform.Platform.Drivers.{Platform, Claims}
use task_scheduling_platform.Platform.Laws.{Finds}
use task_scheduling_platform.Guards.Permissions.{Permission, has_permissions}
use task_scheduling_platform.Guards.Request.{Request, given_workspace_id}
use task_scheduling_platform.Guards.Defs as Checks
use task_scheduling_platform.Guards.Defs.{
  bearer_token, attach, jwt_auth_guard, resolve_workspace, find_member, check_role,
  check_permissions, permission_member,
}
use task_scheduling_platform.Guards.Access.{IsMember, jwt_auth_guard-ok, find_member-ok}
use task_scheduling_platform.Routes.Defs.{Guard, jwt_guard, role_guard, permission_guard, Route}
use task_scheduling_platform.Routes.Table.{routes}
use task_scheduling_platform.Routes.Guarded.{
  pass_guard, pass_guards, pass_route, names_workspace, Guards, Guards-route,
}

module _ (p : Platform) (finds : Finds p.members) where
  role_guard_named :
      (id : ℕ) (req req' : Request) (w w' : World)
      → given_workspace_id req.workspace_ids ≡ some id
      → Checks.role_guard p none req w ≡ (ok req', w')
      → (user : Claims) × (m : WorkspaceMember) × (req.user ≡ some user)
        × IsMember w user id m
        × (req' ≡ attach id m req)
        × (w' ≡ w)
  unfolding Checks.role_guard check_role resolve_workspace
  role_guard_named id req req' w w' named h = elim (Option-cases req.user) [
    | inl missing ↦ absurd (ground arith)
    | inr (user, e) ↦ elim (Result-cases (find_member p id user.user_id w).0) [
      | inl (m, f) ↦
          let (is, same) =
            find_member-ok p finds id user m w (find_member p id user.user_id w).1 (pair_eq _ f) in
          (user, m, e, is, ground arith, ground arith)
      | inr (x, f) ↦ absurd (ground arith)
    ]
  ]

  attached_permission :
      (perm : Permission) (m : WorkspaceMember) (req req' : Request) (w w' : World)
      → req.workspace_member ≡ some m
      → Checks.permission_guard p (some (perm ∷ [])) req w ≡ (ok req', w')
      → (has_permissions m.role (perm ∷ []) ≡ true) × (req' ≡ req) × (w' ≡ w)
  unfolding Checks.permission_guard permission_member check_permissions
  attached_permission perm m req req' w w' attached h = elim (Option-cases req.user) [
    | inl missing ↦ absurd (ground arith)
    | inr (user, e) ↦ elim (Bool-cases (has_permissions m.role (perm ∷ []))) [
      | inl has ↦ (has, ground arith, ground arith)
      | inr lacks ↦ absurd (ground arith)
    ]
  ]

  permission_passes :
      (perm : Permission) (m : WorkspaceMember) (req req' : Request) (w w' : World)
      → req.workspace_member ≡ some m
      → pass_guards p (permission_guard ∷ []) (some (perm ∷ [])) req w ≡ (ok req', w')
      → (has_permissions m.role (perm ∷ []) ≡ true) × (req'.workspace_member ≡ some m)
  unfolding pass_guards pass_guard
  permission_passes perm m req req' w w' attached h =
      elim (Result-cases (Checks.permission_guard p (some (perm ∷ [])) req w).0) [
        | inl (r, e) ↦
            let w₁ = (Checks.permission_guard p (some (perm ∷ [])) req w).1 in
            let (has, same, kept) = attached_permission perm m req r w w₁ attached (pair_eq _ e) in
            (has, ground arith)
        | inr (x, e) ↦ absurd (ground arith)
      ]

-- A role has the permissions that a route asks for, where it asks for any.
abbrev pub Allows : String → Option (List Permission) → Type 0
Allows role none = Unit {0}
Allows role (some perms) = has_permissions role perms ≡ true

-- What is known of a request, for a workspace, when the method of its route runs.
pub record Entered (p : Platform) (route : Route) (id : ℕ) (req req' : Request) (w : World)
    : Type 0 where
  pub token : String
  pub user : Claims
  pub bearer : bearer_token req.authorization ≡ some token
  pub verified : p.jwt.verify p.config.access_secret token w.now ≡ ok user
  pub member : WorkspaceMember
  pub is_member : IsMember w user id member
  pub attached : req'.workspace_member ≡ some member
  pub allowed : Allows member.role route.permissions

module _ (p : Platform) (finds : Finds p.members) where
  -- JwtAuthGuard and RoleGuard let a request through, and it goes on as a member's.
  member_passes :
      (rest : List Guard) (permissions : Option (List Permission)) (id : ℕ) (req req' : Request)
      (w w' : World)
      → given_workspace_id req.workspace_ids ≡ some id
      → pass_guards p (jwt_guard ∷ role_guard ∷ rest) permissions req w ≡ (ok req', w')
      → (token : String) × (user : Claims) × (m : WorkspaceMember) × (r : Request) × (bearer_token
            req.authorization
          ≡ some token)
        × (p.jwt.verify p.config.access_secret token w.now ≡ ok user)
        × IsMember w user id m
        × (r.workspace_member ≡ some m)
        × (pass_guards p rest permissions r w ≡ (ok req', w'))
  unfolding pass_guards pass_guard
  member_passes rest permissions id req req' w w' named h =
      elim (Result-cases (jwt_auth_guard p req w).0) [
        | inl (r, e) ↦
            let w₁ = (jwt_auth_guard p req w).1 in
            let (token, user, bearer, verified, authenticated, same) =
              jwt_auth_guard-ok p req r w w₁ (pair_eq _ e) in
            let named' : given_workspace_id r.workspace_ids ≡ some id = ground arith in
            elim (Result-cases (Checks.role_guard p none r w₁).0) [
              | inl (s, f) ↦
                  let w₂ = (Checks.role_guard p none r w₁).1 in
                  let (user', m, is, member, attached, same') =
                    role_guard_named p finds id r s w₁ w₂ named' (pair_eq _ f) in
                  let claims : user' ≡ user = ground arith in
                  (
                    token,
                    user,
                    m,
                    s,
                    bearer,
                    verified,
                    subst₂ (λ z c. IsMember z c id m) same claims member,
                    ground arith,
                    ground arith,
                  )
              | inr (x, f) ↦ absurd (ground arith)
            ]
        | inr (x, e) ↦ absurd (ground arith)
      ]

  pass_guards-Entered :
      (route : Route) (id : ℕ) (req req' : Request) (w w' : World)
      → Guards route.guards route.permissions
      → given_workspace_id req.workspace_ids ≡ some id
      → pass_guards p route.guards route.permissions req w ≡ (ok req', w')
      → Entered p route id req req' w
  pass_guards-Entered route id req req' w w' (inl (two, nothing)) named h =
      let h' = subst (λ g. pass_guards p g route.permissions req w ≡ (ok req', w')) two h in
      let (token, user, m, r, bearer, verified, member, attached, last) =
        member_passes [] route.permissions id req req' w w' named h' in
      let end : r ≡ req' = unfold pass_guards in ground (arith, last) in
      record {
        token = token;
        user = user;
        bearer = bearer;
        verified = verified;
        member = m;
        is_member = member;
        attached = ground arith;
        allowed = subst (Allows m.role) (sym nothing) tt;
      }
  pass_guards-Entered route id req req' w w' (inr (three, perm, asked)) named h =
      let h' = subst₂ (λ g o. pass_guards p g o req w ≡ (ok req', w')) three asked h in
      let (token, user, m, r, bearer, verified, member, attached, last) =
        member_passes (permission_guard ∷ []) (some (perm ∷ [])) id req req' w w' named h' in
      let (has, end) = permission_passes p finds perm m r req' w w' attached last in
      record {
        token = token;
        user = user;
        bearer = bearer;
        verified = verified;
        member = m;
        is_member = member;
        attached = end;
        allowed = subst (Allows m.role) (sym asked) has;
      }

  -- Every route whose path names a workspace: where the path's workspace id is that of an entity,
  -- the guards let a request through only if it bears a token that verifies and the token's user
  -- is a stored member of that workspace, in a role that has the permissions that the route asks
  -- for. The membership is attached to the request.
  pub pass_route-Entered :
      (route : Route) (id : ℕ) (req req' : Request) (w w' : World)
      → Elem route routes
      → names_workspace route.path ≡ true
      → req.workspace_ids.params ≡ some id
      → (id == 0) ≡ false
      → pass_route p route req w ≡ (ok req', w')
      → Entered p route id req req' w
  unfolding pass_route
  pass_route-Entered route id req req' w w' listed names given real h =
      pass_guards-Entered route id req req' w w' (Guards-route route listed names) (ground arith) h
