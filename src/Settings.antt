-- ===== src/Settings.antt =====
-- packages/core/src/settings.ts: tenant settings and the company profile.
use dohost.Base.{Bool, Option, none, some, [], ◌∷◌, Text, codes, text_eq, ◌==◌, ◌&&◌}
use dohost.Service.{Action, ◌>>=◌, ◌>>◌, pure, lift, modify, transaction}
use dohost.Permissions.{settings_manage}
use dohost.Rbac.{require_permission}
use dohost.Store.{RowId, Tables}
use dohost.Data.{Db, SystemSetting, ActorType, AuditEntity, AuditAction, Value, Fields}
use dohost.Actors.{StaffActor}
use dohost.Audit.{record_audit_log}

-- COMPANY_PROFILE_SETTING_KEY
abbrev pub company_profile_setting_key : Text
company_profile_setting_key = codes "company_profile"

-- `where: { tenantId_key: { tenantId, key } }`
abbrev pub is_setting : RowId → Text → SystemSetting → Bool
is_setting tenant key s = (s.tenant_id == tenant) && text_eq s.key key

abbrev pub value_of : Option (RowId × SystemSetting) → Option Fields
value_of none = none
value_of (some (i, s)) = some s.value

module _ (T : Tables) where
  -- `getSetting`
  unfoldable pub get_setting : RowId → Text → Db T → Option Fields
  get_setting tenant key db = value_of (T.find_first db.settings (is_setting tenant key))

  -- The `upsert` of `setSetting`: the row's id and the table.
  unfoldable pub upsert_setting :
      Option (RowId × SystemSetting)
      → RowId
      → Text
      → Fields
      → RowId
      → T.Table SystemSetting
      → RowId × T.Table SystemSetting
  upsert_setting none tenant key value by settings =
      T.create settings
        (record { tenant_id = tenant; key = key; value = value; updated_by = some by })
  upsert_setting (some (i, s)) tenant key value by settings =
      (i, T.write settings i (record s { value = value; updated_by = some by }))

  -- `setSetting`
  unfoldable pub set_setting : StaffActor → Text → Fields → Action (Db T) (Unit {0})
  set_setting actor key value = do
    lift (require_permission actor.permissions settings_manage)
    transaction do
      before ← (λ db. pure (T.find_first db.settings (is_setting actor.tenant_id key)) db)
      after ← (λ db. pure (upsert_setting before actor.tenant_id key value actor.id db.settings) db)
      modify (λ db. record db { settings = after.1 })
      record_audit_log T (record {
        tenant_id = actor.tenant_id;
        actor_type = ActorType.staff;
        actor_id = some actor.id;
        actor_label = some actor.label;
        action = AuditAction.system_setting_updated;
        entity_type = AuditEntity.system_setting;
        entity_id = after.0;
        ip = none;
        before_state = value_of before;
        after_state = some value;
        reason = none;
        metadata = some ((codes "key", Value.text key) ∷ []);
      })

  -- `getCompanyProfile`
  unfoldable pub get_company_profile : RowId → Db T → Fields
  get_company_profile tenant db = elim (get_setting tenant company_profile_setting_key db) [
    | none ↦ (codes "name", Value.text (codes "HostPanel")) ∷ []
    | some profile ↦ profile
  ]
