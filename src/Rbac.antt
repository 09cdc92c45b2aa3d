-- ===== src/Rbac.antt =====
-- packages/auth/src/rbac.ts: the permission checks.
pub mod Laws
pub mod Tests
use dohost.Base.{Bool, true, false, List, [], ◌∷◌, any, all, ◌||◌}
use dohost.Errors.{Result, guard, Error, app, app_error, authorization}
use dohost.Permissions.{PermissionKey, permission_eq}

-- `permissions.includes(p)`
unfoldable pub includes : List PermissionKey → PermissionKey → Bool
unfolding permission_eq
includes [] p = false
includes (k ∷ ks) p = permission_eq k p || includes ks p

-- `hasPermission`, on the actor's permissions.
unfoldable pub has_permission : List PermissionKey → PermissionKey → Bool
unfolding includes
has_permission permissions p = includes permissions p

unfoldable pub has_any_permission : List PermissionKey → List PermissionKey → Bool
unfolding includes
has_any_permission permissions ps = any (includes permissions) ps

unfoldable pub has_all_permissions : List PermissionKey → List PermissionKey → Bool
unfolding includes
has_all_permissions permissions ps = all (includes permissions) ps

abbrev pub permission_denied : Error
permission_denied = app (app_error authorization "authorization.permission_denied")

-- `requirePermission`
unfoldable pub require_permission : List PermissionKey → PermissionKey → Result (Unit {0})
unfolding has_permission
require_permission permissions p = guard (has_permission permissions p) permission_denied
