-- ===== src/Rbac/Tests.antt =====
-- The theorems on permissions at work on single permissions and roles.
use mathlib.Core.List.{Mem}
use dohost.Base.{◌≡◌, ◌↔◌, List, [], ◌∷◌}
use dohost.Errors.{ok, err}
use dohost.Permissions.{PermissionKey, clients_read, orders_write}
use dohost.Rbac.{require_permission, permission_denied}
use dohost.Rbac.Laws.{require_permission_iff}

abbrev held : List PermissionKey
held = clients_read ∷ orders_write ∷ []

require_permission_iff_example :
    ((require_permission held orders_write ≡ ok tt) ↔ Mem orders_write held)
    × ((require_permission held orders_write ≡ err permission_denied) ↔ (¬ Mem orders_write held))
require_permission_iff_example = require_permission_iff held orders_write
