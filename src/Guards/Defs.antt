-- ===== src/Guards/Defs.antt =====
-- src/common/guards: JwtAuthGuard, RoleGuard and PermissionGuard. `canActivate` returns the request
-- as it leaves it.
use task_scheduling_platform.Base.{
  ℕ, String, Bool, true, Option, none, some, List, [], ◌∷◌, ◌==◌, ◌&&◌, not, str_eq, any, is_empty,
  if◌then◌else◌,
}
use task_scheduling_platform.Platform.Entities.{Workspace, WorkspaceMember}
use task_scheduling_platform.Platform.Io.{
  Io, unauthorized, forbidden, bad_request, pure, throw, reads, catching, or_throw, throw_if, ◌>>=◌,
  ◌>>◌,
}
use task_scheduling_platform.Platform.Drivers.{Platform, Claims}
use task_scheduling_platform.Guards.Permissions.{Permission, has_permissions}
use task_scheduling_platform.Guards.Request.{Request, given_workspace_id, given_slug}

-- `type === 'Bearer' ? token : undefined`, and a token that is empty counts as missing
abbrev pub bearer_token : Option (String × Option String) → Option String
bearer_token none = none
bearer_token (some (type, none)) = none
bearer_token (some (type, some token)) =
    if str_eq type "Bearer" && not (str_eq token "") then some token else none

-- `where: { workspaceId, userId }`
abbrev pub is_member : (workspace_id user_id : ℕ) → WorkspaceMember → Bool
is_member workspace_id user_id m = m.workspace_id == workspace_id && m.user_id == user_id

abbrev pub has_slug : String → Workspace → Bool
has_slug slug w = str_eq w.slug slug

-- `!requiredRoles || requiredRoles.length === 0 || requiredRoles.includes(role)`
abbrev pub role_allowed : Option (List String) → String → Bool
role_allowed none role = true
role_allowed (some roles) role = if is_empty roles then true else any (str_eq role) roles

abbrev workspace_id_of : Option Workspace → Option ℕ
workspace_id_of none = none
workspace_id_of (some ws) = some ws.id

abbrev pub attach : ℕ → WorkspaceMember → Request → Request
attach workspace_id m req = record req {
  workspace_id = some workspace_id;
  workspace_member = some m;
}

-- The role of the membership that the request carries.
abbrev pub member_role : Option WorkspaceMember → String
member_role none = ""
member_role (some m) = m.role

module _ (p : Platform) where
  unfoldable pub jwt_auth_guard : Request → Io Request
  jwt_auth_guard req = do
    token ← or_throw (bearer_token req.authorization) (unauthorized "Access token is missing")
    claims ←
        catching (reads (λ w. p.jwt.verify p.config.access_secret token w.now))
          (λ _. throw (unauthorized "Invalid or expired access token"))
    pure (record req { user = some claims })

  -- The workspace of a slug, where no id is given.
  unfoldable pub resolve_workspace : Option ℕ → Option String → Io (Option ℕ)
  resolve_workspace (some id) slug = pure (some id)
  resolve_workspace none none = pure none
  resolve_workspace none (some slug) = do
    found ← reads (λ w. p.workspaces.find_one (has_slug slug) w.workspaces)
    pure (workspace_id_of found)

  unfoldable pub find_member : (workspace_id user_id : ℕ) → Io WorkspaceMember
  find_member workspace_id user_id = do
    found ← reads (λ w. p.members.find_one (is_member workspace_id user_id) w.members)
    or_throw found (forbidden "You are not a member of this workspace")

  unfoldable pub check_role : Option (List String) → Request → Claims → Option ℕ → Io Request
  check_role none req user none = pure req
  check_role (some roles) req user none =
      throw (bad_request "Workspace context (workspaceId or slug) is required for this route")
  check_role required req user (some workspace_id) = do
    m ← find_member workspace_id user.user_id
    throw_if (not (role_allowed required m.role)) (forbidden "Access denied. Required role(s)")
    pure (attach workspace_id m req)

  -- `required` is the metadata of the route: `none` if no `@Roles` decorates it.
  unfoldable pub role_guard : Option (List String) → Request → Io Request
  role_guard required req = do
    user ← or_throw req.user (forbidden "User context not found in request")
    workspace_id ← resolve_workspace (given_workspace_id req.workspace_ids) (given_slug req.slugs)
    check_role required req user workspace_id

  -- The membership that RoleGuard attached, or else the one looked up here.
  unfoldable pub permission_member : Request → Claims → Option WorkspaceMember → Io Request
  permission_member req user (some m) = pure req
  permission_member req user none = do
    found ← resolve_workspace (given_workspace_id req.workspace_ids) (given_slug req.slugs)
    workspace_id ← or_throw found (bad_request "Workspace context is required for permission check")
    m ← find_member workspace_id user.user_id
    pure (attach workspace_id m req)

  unfoldable pub check_permissions : List Permission → Request → Io Request
  check_permissions required req = do
    throw_if (not (has_permissions (member_role req.workspace_member) required))
        (forbidden "Access denied. Required permission(s)")
    pure req

  -- `none` and an empty list let every request through.
  unfoldable pub permission_guard : Option (List Permission) → Request → Io Request
  permission_guard none req = pure req
  permission_guard (some []) req = pure req
  permission_guard (some (perm ∷ perms)) req = do
    user ← or_throw req.user (forbidden "User context not found in request")
    req' ← permission_member req user req.workspace_member
    check_permissions (perm ∷ perms) req'

  -- The guards of a controller method, in the order of its decorators.
  unfoldable pub guard_chain :
      Option (List String) → Option (List Permission) → Request → Io Request
  guard_chain roles permissions req = do
    authenticated ← jwt_auth_guard req
    admitted ← role_guard roles authenticated
    permission_guard permissions admitted
