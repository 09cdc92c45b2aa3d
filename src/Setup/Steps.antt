-- ===== src/Setup/Steps.antt =====
-- The steps of `bootstrapSuperAdmin`: the tenant, the catalog and the transaction.
use dohost.Base.{
  ◌≡◌, refl, ap, true, false, some, List, [], ◌∷◌, Text, text_eq, text_eq_refl, inl, inr, ◌==◌,
  Bool-cases, Option-cases, ltb,
}
use dohost.Service.{transaction}
use dohost.Errors.{Result, ok}
use dohost.Permissions.{StaffRoleKey, super_admin, all_permissions}
use dohost.Store.{RowId, Tables, Time, IsLawful}
use dohost.Data.{Db, Tenant}
use dohost.Audit.{record_audit_log}
use dohost.Outside.{Outside}
use dohost.Tokens.{is_set}
use dohost.Staff.Create.{role_text, is_role_of}
use dohost.Setup.Roles.{IsSuperAdmins, upsert-found, ensure_roles-IsNoted}
use dohost.Setup.{
  BootstrapInput, is_slug, super_admin_row, RoleIds, role_id_of, upsert, staff_count,
  assert_setup_not_complete, ensure_role, ensure_roles, create_super_admin, ensure_catalog,
  ensure_permissions, role_row,
}

-- A role that is noted stays noted.
role_id_of-kept :
    (key k : StaffRoleKey) (i : RowId) (ids : RoleIds)
    → is_set (role_id_of key ids) ≡ true
    → is_set (role_id_of key ((k, i) ∷ ids)) ≡ true
role_id_of-kept key k i ids h = elim (Bool-cases (text_eq (role_text k) (role_text key))) [
  | inl same ↦ rw same
  | inr other ↦ rw other h
]

abbrev other_roles : List StaffRoleKey
other_roles =
    StaffRoleKey.admin ∷ StaffRoleKey.billing_staff ∷ StaffRoleKey.support_staff
    ∷ StaffRoleKey.sales_staff ∷ StaffRoleKey.technical_staff ∷ StaffRoleKey.finance_staff
    ∷ StaffRoleKey.readonly_staff ∷ []

module _ (T : Tables) where
  -- The tenant of the set-up, found or created.
  abbrev pub setup_tenant : Outside → Db T → RowId
  setup_tenant outside db =
      (upsert T (T.find_first db.tenants (is_slug outside.default_tenant_slug))
        (record { name = outside.app_name; slug = outside.default_tenant_slug }) db.tenants).0

  abbrev pub with_tenant : Outside → Db T → Db T
  with_tenant outside db = record db {
    tenants =
        (upsert T (T.find_first db.tenants (is_slug outside.default_tenant_slug))
          (record { name = outside.app_name; slug = outside.default_tenant_slug }) db.tenants).1;
  }

module _ (T : Tables) (laws : IsLawful T) where
  -- What the loop over the roles leaves alone.
  pub record IsCatalog {A : Type 0} (db : Db T) (r : Result A × Db T) (value : A) : Type 0 where
    pub db' : Db T
    pub returned : r ≡ (ok value, db')
    pub tenants : db'.tenants ≡ db.tenants
    pub staff : db'.staff_users ≡ db.staff_users

  ensure_roles-returns :
      (tenant : RowId) (keys : List StaffRoleKey) (ids : RoleIds) (db : Db T)
      → (ids' : RoleIds) × IsCatalog db (ensure_roles T tenant keys ids db) ids'
        × (is_set (role_id_of super_admin ids) ≡ true → is_set (role_id_of super_admin ids') ≡ true)
  unfolding ensure_roles ensure_role
  ensure_roles-returns tenant [] ids db =
      (ids, record { db' = db; returned = refl; tenants = refl; staff = refl }, λ h. h)
  ensure_roles-returns tenant (key ∷ keys) ids db =
      let id =
        (upsert T (T.find_first db.roles (is_role_of tenant key)) (role_row tenant key)
          db.roles).0 in
      let (ids', c, keeps) =
        ensure_roles-returns tenant keys ((key, id) ∷ ids) (ensure_role T tenant key db).1 in
      (
        ids',
        record { db' = c.db'; returned = c.returned; tenants = c.tenants; staff = c.staff },
        λ h. keeps (role_id_of-kept super_admin key id ids h),
      )

  -- The loop starts with the super admins.
  ensure_roles-super_admin :
      (tenant : RowId) (keys : List StaffRoleKey) (db : Db T)
      → (ids : RoleIds) × IsCatalog db (ensure_roles T tenant (super_admin ∷ keys) [] db) ids
        × (is_set (role_id_of super_admin ids) ≡ true)
  unfolding ensure_roles ensure_role
  ensure_roles-super_admin tenant keys db =
      let id =
        (upsert T (T.find_first db.roles (is_role_of tenant super_admin))
          (role_row tenant super_admin) db.roles).0 in
      let (ids, c, keeps) =
        ensure_roles-returns tenant keys ((super_admin, id) ∷ [])
          (ensure_role T tenant super_admin db).1 in
      (
        ids,
        record { db' = c.db'; returned = c.returned; tenants = c.tenants; staff = c.staff },
        keeps refl,
      )

  -- The catalog is always completed, and leaves the tenants and the staff alone.
  pub ensure_catalog-returns :
      (tenant : RowId) (db : Db T)
      → (role_id : RowId) × (c : IsCatalog db (ensure_catalog T tenant db) role_id) × IsSuperAdmins
          T tenant c.db'.roles role_id
  unfolding ensure_catalog
  ensure_catalog-returns tenant db =
      let (ids, c, noted) =
        ensure_roles-super_admin tenant other_roles
          (record db { permissions = ensure_permissions T all_permissions db.permissions }) in
      elim (Option-cases (role_id_of super_admin ids)) [
        | inl missing ↦ cc (ap is_set missing, noted)
        | inr (i, there) ↦ (
          i,
          record {
            db' = c.db';
            returned = rw (c.returned, there);
            tenants = c.tenants;
            staff = c.staff;
          },
          ensure_roles-IsNoted T laws tenant (super_admin ∷ other_roles) []
              (record db { permissions = ensure_permissions T all_permissions db.permissions }) ids
              c.db' (λ j noted_j. cc noted_j) c.returned i there,
        )
      ]

  -- After the `upsert` the tenant is found.
  pub tenant-found :
      (outside : Outside) (db : Db T)
      → (row : Tenant) × (T.find_first
            (with_tenant T outside db).tenants
            (is_slug outside.default_tenant_slug)
          ≡ some (setup_tenant T outside db, row))
  tenant-found outside db =
      let slug = outside.default_tenant_slug in
      upsert-found T laws db.tenants (is_slug slug)
        (record { name = outside.app_name; slug = slug }) (text_eq_refl slug)

  -- The transaction, where there is no staff.
  pub create-runs :
      (now : Time) (input : BootstrapInput) (email password_hash : Text) (tenant role_id : RowId)
      (d : Db T)
      → ltb 0 (T.count d.staff_users (λ u. u.tenant_id == tenant)) ≡ false
      → let row = super_admin_row tenant email input.name role_id password_hash now in
        (after : Db T) × (transaction
            (create_super_admin T now input email password_hash tenant role_id)
            d
          ≡ (ok (T.create d.staff_users row).0, after))
        × (after.tenants ≡ d.tenants)
        × (after.roles ≡ d.roles)
        × (after.staff_users ≡ (T.create d.staff_users row).1)
  unfolding create_super_admin assert_setup_not_complete staff_count record_audit_log
  create-runs now input email password_hash tenant role_id d count = (
    (create_super_admin T now input email password_hash tenant role_id d).1,
    rw count,
    rw count,
    rw count,
    rw count,
  )
