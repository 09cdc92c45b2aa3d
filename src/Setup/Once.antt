-- ===== src/Setup/Once.antt =====
-- `bootstrapSuperAdmin`: when it returns, and that it does so once.
use dohost.Base.{◌≡◌, true, false, Text, length, ltb}
use dohost.Errors.{err}
use dohost.Store.{RowId, Tables, Time, IsLawful}
use dohost.Data.{Db}
use dohost.Outside.{Outside}
use dohost.Texts.{normalize_email}
use dohost.Setup.{
  BootstrapInput, BootstrapResult, setup_completed, super_admin_row, ensure_tenant, staff_count,
  assert_setup_not_complete, bootstrap_super_admin,
}
use dohost.Setup.Roles.{IsSuperAdmins}
use dohost.Setup.Steps.{setup_tenant, with_tenant}

module _ (T : Tables) (laws : IsLawful T) (outside : Outside) (now : Time) (salt : Text)
    (input : BootstrapInput) (db : Db T) where
  -- With staff the call throws before it writes the catalog.
  bootstrap-refused :
      ltb (length input.password) 10 ≡ false
      → ltb 0 (staff_count T (setup_tenant T outside db) db) ≡ true
      → bootstrap_super_admin T outside now salt input db
        ≡ (err setup_completed, with_tenant T outside db)
  unfolding bootstrap_super_admin ensure_tenant assert_setup_not_complete staff_count
  bootstrap-refused long staffed = rw (long, staffed)

  -- A call that got through: what it returned and left.
  pub record IsSetUp (result : BootstrapResult) (after : Db T) : Type 0 where
    pub tenant : result.tenant_id ≡ setup_tenant T outside db
    pub tenants : after.tenants ≡ (with_tenant T outside db).tenants
    pub email : result.email ≡ normalize_email input.email
    pub role_id : RowId
    pub role : IsSuperAdmins T result.tenant_id after.roles role_id
    pub user :
        result.staff_user_id
        ≡ (T.create db.staff_users (
            super_admin_row result.tenant_id result.email input.name role_id
              (outside.hash_password salt input.password)
              now)).0
    pub staff :
        after.staff_users
        ≡ (T.create db.staff_users (
            super_admin_row result.tenant_id result.email input.name role_id
              (outside.hash_password salt input.password)
              now)).1
