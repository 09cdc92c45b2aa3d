-- ===== src/Rbac/Laws.antt =====
-- The checks of rbac.ts against membership, and what the default roles let their staff do.
use mathlib.Core.List.{Mem, mem-cons, mem-cons_self, mem-cons_of_mem, not-mem-nil}
use mathlib.Core.Logic.Or
use dohost.Base.{
  ◌≡◌, refl, ◌↔◌, Bool, true, false, List, [], ◌∷◌, arith, Bool-cases, inl, inr, not, ◌||◌, Text,
  codes, text_eq, sym, All,
}
use dohost.Errors.{ok, err}
use dohost.Permissions.{
  PermissionKey, permission_eq, key_text, default_role_permissions, StaffRoleKey, super_admin,
  admin, readonly_staff, roles_manage, staff_manage, clients_read,
}
use dohost.Permissions.Laws.{permission_eq_iff}
use dohost.Rbac.{
  includes, has_permission, has_any_permission, has_all_permissions, require_permission,
  permission_denied,
}

pub includes_iff : (ps : List PermissionKey) (p : PermissionKey) → (includes ps p ≡ true) ↔ Mem p ps
unfolding includes
includes_iff [] p = (λ h. cc, λ m. absurd (not-mem-nil m))
includes_iff (k ∷ ks) p = (
  λ h. elim (Bool-cases (permission_eq k p)) [
    | inl same ↦ rw ((permission_eq_iff k p).0 same) mem-cons_self
    | inr other ↦ mem-cons_of_mem k ((includes_iff ks p).0 (ground arith))
  ],
  λ m.
      Or.elim (hlevel) (mem-cons.0 m) (λ e. ground (arith, (permission_eq_iff k p).1 (sym e)))
        (λ rest. ground (arith, (includes_iff ks p).1 rest)),
)

-- `requirePermission` lets an actor pass exactly when the permission is among the actor's; otherwise
-- it throws the authorization error.
pub require_permission_iff :
    (ps : List PermissionKey) (p : PermissionKey)
    → ((require_permission ps p ≡ ok tt) ↔ Mem p ps)
      × ((require_permission ps p ≡ err permission_denied) ↔ (¬ Mem p ps))
unfolding require_permission has_permission
require_permission_iff ps p =
    let (to, from) = includes_iff ps p in
    elim (Bool-cases (includes ps p)) [
      | inl h ↦ rw h ((λ _. to h, λ _. refl), (λ e. cc, λ n. absurd (n (to h))))
      | inr h ↦ rw h ((λ e. cc, λ m. cc (from m)), (λ _ m. cc (from m), λ _. refl))
    ]

-- `hasAllPermissions` holds exactly when every permission asked for is among the actor's, and
-- `hasAnyPermission` fails exactly when none of them is.
pub several_permissions_iff :
    (ps asked : List PermissionKey)
    → ((has_all_permissions ps asked ≡ true) ↔ All (λ p. Mem p ps) asked)
      × ((has_any_permission ps asked ≡ false) ↔ All (λ p. ¬ Mem p ps) asked)
unfolding has_all_permissions has_any_permission
several_permissions_iff ps [] = ((λ _. tt, λ _. refl), (λ _. tt, λ _. refl))
several_permissions_iff ps (p ∷ asked) =
    let ((to_all, from_all), (to_none, from_none)) = several_permissions_iff ps asked in
    let (to, from) = includes_iff ps p in
    elim (Bool-cases (includes ps p)) [
      | inl h ↦
          rw h ((λ e. (to h, to_all e), λ a. from_all a.1), (λ e. cc, λ a. absurd (a.0 (to h))))
      | inr h ↦
          rw h (
            (λ e. cc, λ a. cc (from a.0)),
            (λ e. (λ m. cc (from m), to_none e), λ a. from_none a.1),
          )
    ]

abbrev pub ends_with : Text → Text → Bool
ends_with suffix [] = text_eq suffix []
ends_with suffix (c ∷ t) = text_eq suffix (c ∷ t) || ends_with suffix t

-- A key that only reads: its string ends in ".read", or it is the finance report.
abbrev pub is_reading : PermissionKey → Bool
is_reading k =
    ends_with (codes ".read") (key_text k) || text_eq (key_text k) (codes "reports.finance")

-- The read-only role is granted every reading permission and nothing else.
pub readonly_staff_reads :
    (k : PermissionKey) → has_permission (default_role_permissions readonly_staff) k ≡ is_reading k
unfolding has_permission default_role_permissions
readonly_staff_reads clients_read = refl
readonly_staff_reads _ = refl

-- Super admins are granted every permission, admins every one but the management of roles.
pub admins_grants :
    (k : PermissionKey)
    → (has_permission (default_role_permissions super_admin) k ≡ true)
      × (has_permission (default_role_permissions admin) k ≡ not (permission_eq k roles_manage))
unfolding has_permission default_role_permissions
admins_grants clients_read = (refl, refl)
admins_grants _ = (refl, refl)

abbrev pub is_super_admin : StaffRoleKey → Bool
is_super_admin super_admin = true
is_super_admin _ = false

abbrev pub is_administrator : StaffRoleKey → Bool
is_administrator super_admin = true
is_administrator admin = true
is_administrator _ = false

-- Of the default roles, only super admin may manage roles, and only super admin and admin may manage
-- staff.
pub management_grants :
    (r : StaffRoleKey)
    → (has_permission (default_role_permissions r) roles_manage ≡ is_super_admin r)
      × (has_permission (default_role_permissions r) staff_manage ≡ is_administrator r)
unfolding has_permission default_role_permissions
management_grants super_admin = (refl, refl)
management_grants _ = (refl, refl)
