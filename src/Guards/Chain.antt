-- ===== src/Guards/Chain.antt =====
-- The three guards in a row, and what the roles may do.
use task_scheduling_platform.Base.{
  ℕ, String, true, Option, none, some, List, [], ◌∷◌, ◌≡◌, ◌⊎◌, ◌↔◌, inl, inr, arith, sym, ◌∙◌, ap,
  subst, eq_iff,
}
use mathlib.Core.Path.{subst₂}
use mathlib.Core.Option.{some-injective}
use task_scheduling_platform.Platform.Entities.{WorkspaceMember}
use task_scheduling_platform.Platform.Io.{World, Result-cases, ok, pair_eq}
use task_scheduling_platform.Platform.Drivers.{Platform, Claims}
use task_scheduling_platform.Platform.Laws.{Finds}
use task_scheduling_platform.Guards.Permissions.{
  Permission, has_permissions, task_delete, project_delete, workspace_update, workspace_delete,
  workspace_invite, workspace_create, project_create, project_update, task_create, task_assign,
  task_update,
}
use task_scheduling_platform.Guards.Request.{Request, Places, given_workspace_id}
use task_scheduling_platform.Guards.Defs.{
  is_member, resolve_workspace, find_member, check_role, bearer_token, attach, jwt_auth_guard,
  role_guard, permission_guard, guard_chain,
}
use task_scheduling_platform.Guards.Access.{
  IsMember, jwt_auth_guard-ok, Admits, role_guard-Admits, permission_guard-ok,
}

-- What a request has shown by the time its handler runs.
pub record Authorized (p : Platform) (perms : List Permission) (req req' : Request) (w : World)
    : Type 0 where
  pub token : String
  pub user : Claims
  pub bearer : bearer_token req.authorization ≡ some token
  pub verified : p.jwt.verify p.config.access_secret token w.now ≡ ok user
  pub workspace_id : ℕ
  pub member : WorkspaceMember
  pub is_member : IsMember w user workspace_id member
  pub allowed : has_permissions member.role perms ≡ true
  pub attached : req'.workspace_member ≡ some member

-- What RoleGuard attaches to a request with nothing attached belongs to the request's user.
Admits-carries :
    (p : Platform) (finds : Finds p.members) (roles : Option (List String)) (r s : Request)
    (w : World) (user user' : Claims)
    → r.user ≡ some user
    → r.user ≡ some user'
    → r.workspace_member ≡ none
    → Admits p finds roles w user' r s
    → (s.user ≡ some user)
      × ((v : Claims) (m : WorkspaceMember)
          → s.user ≡ some v
          → s.workspace_member ≡ some m
          → (workspace_id : ℕ) × IsMember w v workspace_id m)
Admits-carries p finds roles r s w user user' is is' bare (inl (_, same)) =
    (ap (λ (x : Request). x.user) same ∙ is, λ v m k l. absurd (ground arith))
Admits-carries p finds roles r s w user user' is is' bare (inr (workspace_id, m, member, _, same)) =
    let carried : s.user ≡ some user = ap (λ (x : Request). x.user) same ∙ is in
    (
      carried,
      λ v n k l.
          let claims : user' ≡ v = ground arith in
          let row : m ≡ n = ground arith in
          (workspace_id, subst₂ (λ c x. IsMember w c workspace_id x) claims row member),
    )

-- A request that passes the three guards of a route with permissions bears a token that verifies,
-- and its user is a stored member of a workspace in a role that has all those permissions; the
-- membership is attached to the request. The request comes in with nothing attached.
pub guard_chain-Authorized :
    (p : Platform) (finds : Finds p.members) (roles : Option (List String)) (perm : Permission)
    (perms : List Permission) (req req' : Request) (w w' : World)
    → req.workspace_member ≡ none
    → guard_chain p roles (some (perm ∷ perms)) req w ≡ (ok req', w')
    → Authorized p (perm ∷ perms) req req' w
unfolding guard_chain
guard_chain-Authorized p finds roles perm perms req req' w w' bare h =
    elim (Result-cases (jwt_auth_guard p req w).0) [
      | inl (r, e) ↦
          let w₁ = (jwt_auth_guard p req w).1 in
          let (token, user, bearer, verified, authenticated, same) =
            jwt_auth_guard-ok p req r w w₁ (pair_eq _ e) in
          elim (Result-cases (role_guard p roles r w₁).0) [
            | inl (s, f) ↦
                let w₂ = (role_guard p roles r w₁).1 in
                let (user', is, admits, same') =
                  role_guard-Admits p finds roles r s w₁ w₂ (pair_eq _ f) in
                let carried =
                  Admits-carries p finds roles r s w₁ user user'
                    (ap (λ (x : Request). x.user) authenticated) is
                    (ap (λ (x : Request). x.workspace_member) authenticated ∙ bare) admits in
                let g : permission_guard p (some (perm ∷ perms)) s w₂ ≡ (ok req', w') =
                  ground arith in
                let (user₂, is₂, workspace_id, m, member, allowed, attached) =
                  permission_guard-ok p finds perm perms s req' w₂ w'
                    (λ v n k l.
                      subst (λ (z : World). (i : ℕ) × IsMember z v i n) (sym same')
                        (carried.1 v n k l))
                    g in
                let claims : user₂ ≡ user = some-injective _ _ (sym is₂ ∙ carried.0) in
                record {
                  token = token;
                  user = user;
                  bearer = bearer;
                  verified = verified;
                  workspace_id = workspace_id;
                  member = m;
                  is_member =
                      subst₂ (λ z c. IsMember z c workspace_id m) (same' ∙ same) claims member;
                  allowed = allowed;
                  attached = attached;
                }
            | inr (x, f) ↦ absurd (ground arith)
          ]
      | inr (x, e) ↦ absurd (ground arith)
    ]

-- What a member who is no admin may do.
abbrev pub MemberMay : Permission → Type 0
MemberMay workspace_create = ⊥
MemberMay workspace_update = ⊥
MemberMay workspace_delete = ⊥
MemberMay workspace_invite = ⊥
MemberMay project_create = Unit
MemberMay project_update = Unit
MemberMay project_delete = ⊥
MemberMay task_create = Unit
MemberMay task_assign = Unit
MemberMay task_update = Unit
MemberMay task_delete = ⊥

-- An admin has every permission; a member has those to create and update projects and tasks and to
-- assign tasks, and no other; any other role has none.
pub role_permissions_iff :
    (role : String) (perm : Permission)
    → (has_permissions role (perm ∷ []) ≡ true)
      ↔ ((role ≡ "ADMIN") ⊎ ((role ≡ "MEMBER") × MemberMay perm))
role_permissions_iff role workspace_create =
    ground (arith, eq_iff role "ADMIN", eq_iff role "MEMBER")
role_permissions_iff role _ = ground (arith, eq_iff role "ADMIN", eq_iff role "MEMBER")

-- Where a request names a workspace by id, RoleGuard never looks at the slug: a member of that
-- workspace passes whatever slug the route is asked for.
pub role_guard_ignores_slug :
    (p : Platform) (req : Request) (user : Claims) (id : ℕ) (m : WorkspaceMember)
    (slugs : Places String) (w : World)
    → req.user ≡ some user
    → given_workspace_id req.workspace_ids ≡ some id
    → p.members.find_one (is_member id user.user_id) w.members ≡ ok (some m)
    → role_guard p none (record req { slugs = slugs }) w
      ≡ (ok (attach id m (record req { slugs = slugs })), w)
unfolding role_guard resolve_workspace find_member check_role
role_guard_ignores_slug p req user id m slugs w is named found = ground arith
