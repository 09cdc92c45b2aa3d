-- ===== src/Setup.antt =====
-- packages/core/src/setup.ts and packages/core/src/tenant.ts: the first super admin of a tenant, with
-- the catalog of roles and permissions, and the tenant of a deployment.
pub mod Once
pub mod Roles
pub mod Steps
pub mod Tests
use dohost.Base.{
  ℕ, Bool, true, false, not, Option, none, some, List, [], ◌∷◌, Text, codes, text_eq, ◌==◌, ltb,
  length, ◌&&◌, if◌then◌else◌,
}
use dohost.Service.{Action, ◌>>=◌, ◌>>◌, pure, lift, modify, throw_if, transaction}
use dohost.Errors.{Result, ok, err, Error, app, app_error, business_rule, validation, plain}
use dohost.Permissions.{
  PermissionKey, StaffRoleKey, super_admin, key_text, all_permissions, staff_role_keys,
  staff_role_label, default_role_permissions, permission_eq,
}
use dohost.Store.{RowId, Tables, Time}
use dohost.Data.{
  Db, Tenant, Role, Permission, RolePermission, StaffUser, AccountStatus, ActorType, AuditEntity,
  AuditAction, Value,
}
use dohost.Audit.{record_audit_log}
use dohost.Outside.{Outside}
use dohost.Texts.{normalize_email}
use dohost.Staff.Create.{is_role_of, role_text, new_staff_user}

-- `BootstrapSuperAdminInput`
pub record BootstrapInput : Type 0 where
  pub name : Text
  pub email : Text
  pub password : Text
  pub ip : Option Text

-- `BootstrapSuperAdminResult`
pub record BootstrapResult : Type 0 where
  pub tenant_id : RowId
  pub staff_user_id : RowId
  pub email : Text

abbrev pub weak_password : Error
weak_password = app (app_error validation "setup.weak_password")

abbrev pub setup_completed : Error
setup_completed = app (app_error business_rule "setup.already_completed")

-- `key.split(".")[0]`
abbrev pub category_of : Text → Text
category_of [] = []
category_of (c ∷ t) = let rest = category_of t in if c == b'.' then [] else c ∷ rest

abbrev pub is_slug : Text → Tenant → Bool
is_slug slug t = text_eq t.slug slug

abbrev pub is_permission : PermissionKey → Permission → Bool
is_permission key p = text_eq (key_text p.key) (key_text key)

abbrev pub is_link : RowId → RowId → RolePermission → Bool
is_link role_id permission_id l = (l.role_id == role_id) && (l.permission_id == permission_id)

abbrev pub role_row : RowId → StaffRoleKey → Role
role_row tenant key = record {
  tenant_id = tenant;
  key = key;
  name = codes (staff_role_label key);
  is_system = true;
}

-- The row of the super admin that is created.
abbrev pub super_admin_row : RowId → Text → Text → RowId → Text → Time → StaffUser
super_admin_row tenant email name role_id password_hash now = record {
  tenant_id = tenant;
  email = email;
  password_hash = password_hash;
  name = name;
  role_id = role_id;
  status = AccountStatus.active;
  must_change_password = false;
  email_verified_at = some now;
  two_factor_enabled = false;
  two_factor_secret = none;
  recovery_code_hashes = [];
  locked_until = none;
  last_login_at = none;
  last_login_ip = none;
  deleted_at = none;
}

-- `roleIdByKey`, the entry that was set last first.
abbrev pub RoleIds : Type 0
RoleIds = List (StaffRoleKey × RowId)

abbrev pub role_id_of : StaffRoleKey → RoleIds → Option RowId
role_id_of key [] = none
role_id_of key ((k, i) ∷ ids) =
    let rest = role_id_of key ids in if text_eq (role_text k) (role_text key) then some i else rest

-- `if (!superAdminRoleId) throw new Error(...)`
abbrev pub required : Option RowId → Result RowId
required none = err plain
required (some i) = ok i

module _ (T : Tables) where
  -- `upsert` with nothing to update, by the row that is there.
  unfoldable pub upsert : {R : Type 0} → Option (RowId × R) → R → T.Table R → RowId × T.Table R
  upsert none row table = T.create table row
  upsert (some (i, _)) row table = (i, table)

  -- The `tenant.upsert`.
  unfoldable pub ensure_tenant : Outside → Action (Db T) RowId
  ensure_tenant outside db =
      let (tenant_id, tenants) =
        upsert (T.find_first db.tenants (is_slug outside.default_tenant_slug))
          (record { name = outside.app_name; slug = outside.default_tenant_slug }) db.tenants in
      (ok tenant_id, record db { tenants = tenants })

  -- `staffUser.count({ where: { tenantId } })`
  unfoldable pub staff_count : RowId → Db T → ℕ
  staff_count tenant db = T.count db.staff_users (λ u. u.tenant_id == tenant)

  -- `assertSetupNotComplete`
  unfoldable pub assert_setup_not_complete : RowId → Action (Db T) (Unit {0})
  assert_setup_not_complete tenant db = throw_if (ltb 0 (staff_count tenant db)) setup_completed db

  -- The loop over ALL_PERMISSIONS.
  unfoldable pub ensure_permissions : List PermissionKey → T.Table Permission → T.Table Permission
  ensure_permissions [] permissions = permissions
  ensure_permissions (key ∷ keys) permissions =
      ensure_permissions keys
        (upsert (T.find_first permissions (is_permission key))
          (record { key = key; category = category_of (key_text key) }) permissions).1

  -- One grant; a key without a row is passed over.
  unfoldable pub grant :
      RowId → Option (RowId × Permission) → T.Table RolePermission → T.Table RolePermission
  grant role_id none links = links
  grant role_id (some (permission_id, _)) links =
      (upsert (T.find_first links (is_link role_id permission_id))
        (record { role_id = role_id; permission_id = permission_id }) links).1

  -- The inner loop, over the permissions of a role.
  unfoldable pub grant_all :
      RowId
      → T.Table Permission
      → List PermissionKey
      → T.Table RolePermission
      → T.Table RolePermission
  grant_all role_id permissions [] links = links
  grant_all role_id permissions (key ∷ keys) links =
      grant_all role_id permissions keys
        (grant role_id (T.find_first permissions (is_permission key)) links)

  -- One round of the outer loop.
  unfoldable pub ensure_role : RowId → StaffRoleKey → Action (Db T) RowId
  ensure_role tenant key db =
      let (role_id, roles) =
        upsert (T.find_first db.roles (is_role_of tenant key)) (role_row tenant key) db.roles in
      (
        ok role_id,
        record db {
          roles = roles;
          role_permissions =
              grant_all role_id db.permissions (default_role_permissions key) db.role_permissions;
        },
      )

  -- The outer loop, over STAFF_ROLE_KEYS.
  unfoldable pub ensure_roles : RowId → List StaffRoleKey → RoleIds → Action (Db T) RoleIds
  ensure_roles tenant [] ids = pure ids
  ensure_roles tenant (key ∷ keys) ids =
      ensure_role tenant key >>= λ role_id. ensure_roles tenant keys ((key, role_id) ∷ ids)

  -- The body of the transaction.
  unfoldable pub create_super_admin :
      Time → BootstrapInput → Text → Text → RowId → RowId → Action (Db T) RowId
  create_super_admin now input email password_hash tenant role_id = do
    assert_setup_not_complete tenant
    let user = super_admin_row tenant email input.name role_id password_hash now
    user_id ← (λ db. pure (T.create db.staff_users user).0 db)
    modify (λ db. record db { staff_users = (T.create db.staff_users user).1 })
    record_audit_log T (record {
      tenant_id = tenant;
      actor_type = ActorType.system;
      actor_id = none;
      actor_label = some (codes "setup wizard");
      action = AuditAction.staff_user_created;
      entity_type = AuditEntity.staff_user;
      entity_id = user_id;
      ip = input.ip;
      before_state = none;
      after_state = some (
          (codes "email", Value.text email)
          ∷ (codes "name", Value.text input.name)
          ∷ (codes "roleKey", Value.text (codes "super_admin"))
          ∷ []);
      reason = some (codes "First-run production setup (/admin/setup)");
      metadata = none;
    })
    pure user_id

  -- The catalog: the permissions, the roles and their grants, and the id of the role of super admins.
  unfoldable pub ensure_catalog : RowId → Action (Db T) RowId
  ensure_catalog tenant = do
    modify (λ db. record db { permissions = ensure_permissions all_permissions db.permissions })
    ids ← ensure_roles tenant staff_role_keys []
    lift (required (role_id_of super_admin ids))

  -- `bootstrapSuperAdmin`, with the salt that is drawn.
  unfoldable pub bootstrap_super_admin :
      Outside → Time → Text → BootstrapInput → Action (Db T) BootstrapResult
  bootstrap_super_admin outside now salt input = do
    let email = normalize_email input.email
    throw_if (ltb (length input.password) 10) weak_password
    tenant ← ensure_tenant outside
    assert_setup_not_complete tenant
    role_id ← ensure_catalog tenant
    user_id ← transaction (
        create_super_admin now input email (outside.hash_password salt input.password) tenant
          role_id)
    pure (record { tenant_id = tenant; staff_user_id = user_id; email = email })

  -- What `isSetupComplete` returns for the tenant that is there.
  unfoldable pub is_tenant_complete : Option (RowId × Tenant) → Db T → Bool
  is_tenant_complete none db = false
  is_tenant_complete (some (tenant, _)) db = ltb 0 (staff_count tenant db)

  -- `isSetupComplete`
  unfoldable pub is_setup_complete : Outside → Db T → Bool
  is_setup_complete outside db =
      is_tenant_complete (T.find_first db.tenants (is_slug outside.default_tenant_slug)) db

  -- `process.env.DEFAULT_TENANT_SLUG ?? "default"`
  abbrev pub tenant_slug : Option Text → Text
  tenant_slug none = codes "default"
  tenant_slug (some slug) = slug

  abbrev pub tenant_or_plain : Option (RowId × Tenant) → Result (RowId × Tenant)
  tenant_or_plain none = err plain
  tenant_or_plain (some found) = ok found

  -- `getDefaultTenant`
  unfoldable pub get_default_tenant : Outside → Db T → Result (RowId × Tenant)
  get_default_tenant outside db =
      tenant_or_plain (T.find_first db.tenants (is_slug (tenant_slug outside.env_tenant_slug)))
