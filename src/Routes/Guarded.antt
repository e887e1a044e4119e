-- ===== src/Routes/Guarded.antt =====
-- The guards that stand before the methods of the controllers.
use task_scheduling_platform.Base.{
  Bool, true, false, not, ◌||◌, Option, none, some, List, [], ◌∷◌, ◌≡◌, ◌⊎◌, inl, inr,
  if◌then◌else◌, refl, all, Elem, str_eq, arith,
}
use task_scheduling_platform.Platform.Io.{Io, pure, ◌>>=◌}
use task_scheduling_platform.Platform.Drivers.{Platform}
use task_scheduling_platform.Guards.Permissions.{Permission}
use task_scheduling_platform.Guards.Request.{Request}
use task_scheduling_platform.Guards.Defs as Checks
use task_scheduling_platform.Guards.Defs.{
  bearer_token, attach, jwt_auth_guard, resolve_workspace, find_member, check_role,
  check_permissions, permission_member,
}
use task_scheduling_platform.Routes.Defs.{
  Segment, word, param, Guard, jwt_guard, role_guard, permission_guard, Route,
}
use task_scheduling_platform.Routes.Table.{routes}

module _ (p : Platform) where
  -- No method or controller is decorated with `@Roles`.
  unfoldable pub pass_guard : Guard → Option (List Permission) → Request → Io Request
  pass_guard jwt_guard permissions req = jwt_auth_guard p req
  pass_guard role_guard permissions req = Checks.role_guard p none req
  pass_guard permission_guard permissions req = Checks.permission_guard p permissions req

  unfoldable pub pass_guards : List Guard → Option (List Permission) → Request → Io Request
  pass_guards [] permissions req = pure req
  pass_guards (g ∷ guards) permissions req = do
    passed ← pass_guard g permissions req
    pass_guards guards permissions passed

  -- What a request goes through before the method of a route runs.
  unfoldable pub pass_route : Route → Request → Io Request
  unfolding pass_guards pass_guard
  pass_route route req = pass_guards route.guards route.permissions req

abbrev pub names_workspace : List Segment → Bool
names_workspace [] = false
names_workspace (word _ ∷ path) = names_workspace path
names_workspace (param name ∷ path) =
    if str_eq name "workspaceId" then true else names_workspace path

-- Behind JwtAuthGuard and RoleGuard, and behind PermissionGuard where permissions are asked for.
abbrev pub Guards : List Guard → Option (List Permission) → Type 0
Guards guards permissions =
    ((guards ≡ jwt_guard ∷ role_guard ∷ []) × (permissions ≡ none))
    ⊎ ((guards ≡ jwt_guard ∷ role_guard ∷ permission_guard ∷ [])
        × (perm : Permission) × (permissions ≡ some (perm ∷ [])))

guarded : List Guard → Option (List Permission) → Bool
guarded (jwt_guard ∷ role_guard ∷ []) none = true
guarded (jwt_guard ∷ role_guard ∷ permission_guard ∷ []) (some (perm ∷ [])) = true
guarded _ _ = false

guarded-Guards :
    (guards : List Guard) (permissions : Option (List Permission))
    → guarded guards permissions ≡ true
    → Guards guards permissions
unfolding guarded
guarded-Guards (jwt_guard ∷ role_guard ∷ []) none e = inl (refl, refl)
guarded-Guards (jwt_guard ∷ role_guard ∷ permission_guard ∷ []) (some (perm ∷ [])) e =
    inr (refl, perm, refl)
guarded-Guards _ _ e = absurd (ground arith)

-- A route that names a workspace and lacks its guards would be found here.
watched : Route → Bool
unfolding guarded
watched route = not (names_workspace route.path) || guarded route.guards route.permissions

all-watched : all watched routes ≡ true
unfolding watched routes
all-watched = refl

all-Elem :
    {A : Type 0} (p : A → Bool) (x : A) (xs : List A) → all p xs ≡ true → Elem x xs → p x ≡ true
all-Elem p x [] h e = absurd e
all-Elem p x (y ∷ xs) h (inl same) = rw same (ground arith)
all-Elem p x (y ∷ xs) h (inr e) = ground (arith, all-Elem p x xs)

pub Guards-route :
    (route : Route)
    → Elem route routes
    → names_workspace route.path ≡ true
    → Guards route.guards route.permissions
unfolding watched
Guards-route route listed names =
    guarded-Guards route.guards route.permissions
      (ground (arith, all-Elem watched route routes all-watched listed))
