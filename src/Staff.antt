-- ===== src/Staff.antt =====
-- packages/core/src/staff.ts: the actor of a staff user, with the permissions that its role has now,
-- and what is shared by the operations on staff.
pub mod Admission
pub mod Create
pub mod Disable
pub mod Disabled
pub mod Password
pub mod Login
pub mod Tests
pub mod TwoFactor
use dohost.Base.{
  ℕ, Bool, true, false, Option, none, some, List, [], ◌∷◌, ◌++◌, Text, codes, text_eq, ◌==◌, ◌&&◌,
  if◌then◌else◌,
}
use dohost.Permissions.{PermissionKey}
use dohost.Store.{RowId, Tables, Time}
use dohost.Data.{Db, StaffUser, RolePermission}
use dohost.Actors.{StaffActor}
use dohost.Clients.{is_enabled}

-- `where: { tenantId_email: { tenantId, email } }`
abbrev pub is_staff_of : RowId → Text → StaffUser → Bool
is_staff_of tenant email u = (u.tenant_id == tenant) && text_eq u.email email

-- `${user.name} <${user.email}>`
abbrev pub staff_label : Text → Text → Text
staff_label name email = name ++ (codes " <" ++ (email ++ codes ">"))

module _ (T : Tables) where
  -- The keys of the permissions that the rows link to.
  unfoldable pub linked_keys : Db T → List (RowId × RolePermission) → List PermissionKey
  linked_keys db [] = []
  linked_keys db ((i, link) ∷ links) =
      let rest = linked_keys db links in
      elim (T.find db.permissions link.permission_id) [ none ↦ rest | some p ↦ p.key ∷ rest ]

  -- `user.role.permissions.map((rp) => rp.permission.key)`, by the rows of the join table.
  unfoldable pub role_keys : Db T → RowId → List PermissionKey
  role_keys db role_id =
      linked_keys db
        (T.find_many db.role_permissions (λ link. link.role_id == role_id) (λ a b. false))

  -- The actor of a staff user that may act.
  unfoldable pub staff_actor : Db T → RowId → Option StaffUser → Option StaffActor
  staff_actor db user_id none = none
  staff_actor db user_id (some user) =
      if is_enabled user.status user.deleted_at
      then some (record {
        id = user_id;
        tenant_id = user.tenant_id;
        label = staff_label user.name user.email;
        permissions = role_keys db user.role_id;
      })
      else none

  -- `loadStaffActor`
  unfoldable pub load_staff_actor : RowId → Db T → Option StaffActor
  load_staff_actor user_id db = staff_actor db user_id (T.find db.staff_users user_id)
