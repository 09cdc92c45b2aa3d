-- ===== src/Staff/Create.antt =====
-- `createStaffUser` of packages/core/src/staff.ts. The token of the invitation and the random password
-- and salt behind the placeholder hash are arguments.
use dohost.Base.{
  ◌+◌, ◌*◌, Bool, true, false, Option, none, some, [], ◌∷◌, ◌++◌, Text, codes, text_eq, ◌==◌, ◌&&◌,
}
use dohost.Service.{Action, ◌>>=◌, ◌>>◌, pure, lift, modify, throw_if, transaction}
use dohost.Errors.{Result, ok, err, Error, app, app_error, business_rule, validation}
use dohost.Permissions.{StaffRoleKey, staff_role_label, staff_manage}
use dohost.Rbac.{require_permission}
use dohost.Store.{RowId, Tables, Time}
use dohost.Data.{
  Db, StaffUser, Role, AccountStatus, ActorType, AuthActor, AuditEntity, AuditAction, Value,
  EmailTemplate,
}
use dohost.Actors.{StaffActor}
use dohost.Audit.{record_audit_log}
use dohost.Outside.{Outside}
use dohost.Emails.{EmailInput, queue_email}
use dohost.Texts.{normalize_email}
use dohost.Tokens.{is_set, create_reset_token}
use dohost.Staff.{is_staff_of}

-- PASSWORD_SET_TOKEN_TTL_MS
abbrev pub password_set_ttl : Time
password_set_ttl = 24 * 60 * 60 * 1000

pub record StaffInput : Type 0 where
  pub email : Text
  pub name : Text
  pub role_key : StaffRoleKey
  pub ip : Option Text

abbrev pub invalid_role : Error
invalid_role = app (app_error validation "staff.invalid_role")

abbrev pub staff_email_taken : Error
staff_email_taken = app (app_error business_rule "staff.email_taken")

-- The strings of STAFF_ROLE_KEYS.
abbrev pub role_text : StaffRoleKey → Text
role_text StaffRoleKey.super_admin = codes "super_admin"
role_text StaffRoleKey.admin = codes "admin"
role_text StaffRoleKey.billing_staff = codes "billing_staff"
role_text StaffRoleKey.support_staff = codes "support_staff"
role_text StaffRoleKey.sales_staff = codes "sales_staff"
role_text StaffRoleKey.technical_staff = codes "technical_staff"
role_text StaffRoleKey.finance_staff = codes "finance_staff"
role_text StaffRoleKey.readonly_staff = codes "readonly_staff"

-- `where: { tenantId_key: { tenantId, key } }`
abbrev pub is_role_of : RowId → StaffRoleKey → Role → Bool
is_role_of tenant key r = (r.tenant_id == tenant) && text_eq (role_text r.key) (role_text key)

-- The role's id, or the error.
abbrev pub check_role : Option (RowId × Role) → Result RowId
check_role none = err invalid_role
check_role (some (i, r)) = ok i

-- The row that is created.
unfoldable pub new_staff_user : RowId → Text → Text → RowId → Text → StaffUser
new_staff_user tenant email name role_id password_hash = record {
  tenant_id = tenant;
  email = email;
  password_hash = password_hash;
  name = name;
  role_id = role_id;
  status = AccountStatus.active;
  must_change_password = true;
  email_verified_at = none;
  two_factor_enabled = false;
  two_factor_secret = none;
  recovery_code_hashes = [];
  locked_until = none;
  last_login_at = none;
  last_login_ip = none;
  deleted_at = none;
}

-- The email with the invitation.
abbrev pub invitation : Outside → Text → StaffInput → Text → RowId → EmailInput
invitation outside email input token user_id = record {
  to = email;
  subject = codes "You've been added to " ++ outside.app_name;
  template = EmailTemplate.staff_invite;
  props =
      (codes "appName", outside.app_name)
      ∷ (codes "recipientName", input.name)
      ∷ (codes "roleName", codes (staff_role_label input.role_key))
      ∷ (codes "setPasswordUrl", outside.app_url ++ (codes "/admin/set-password?token=" ++ token))
      ∷ [];
  related_entity_type = some (codes "STAFF_USER");
  related_entity_id = some user_id;
}

module _ (T : Tables) where
  -- The body of the transaction.
  unfoldable pub insert_staff_user :
      StaffActor → StaffInput → Text → RowId → Text → Action (Db T) RowId
  insert_staff_user actor input email role_id password_hash = do
    let user = new_staff_user actor.tenant_id email input.name role_id password_hash
    user_id ← (λ db. pure (T.create db.staff_users user).0 db)
    modify (λ db. record db { staff_users = (T.create db.staff_users user).1 })
    record_audit_log T (record {
      tenant_id = actor.tenant_id;
      actor_type = ActorType.staff;
      actor_id = some actor.id;
      actor_label = some actor.label;
      action = AuditAction.staff_user_created;
      entity_type = AuditEntity.staff_user;
      entity_id = user_id;
      ip = input.ip;
      before_state = none;
      after_state = some (
          (codes "email", Value.text email)
          ∷ (codes "name", Value.text input.name)
          ∷ (codes "roleKey", Value.text (role_text input.role_key))
          ∷ []);
      reason = none;
      metadata = none;
    })
    pure user_id

  -- What follows the transaction: the token and the email with the link.
  unfoldable pub send_invitation :
      Outside → Time → Text → StaffActor → StaffInput → Text → RowId → Action (Db T) (Unit {0})
  send_invitation outside now token actor input email user_id = do
    create_reset_token T actor.tenant_id AuthActor.staff user_id (outside.hash_token token)
        (now + password_set_ttl)
    queue_email T outside actor.tenant_id (invitation outside email input token user_id)

  -- `createStaffUser`: the id of the user.
  unfoldable pub create_staff_user :
      Outside
      → Time
      → (token placeholder salt : Text) → StaffActor
      → StaffInput
      → Action (Db T) RowId
  create_staff_user outside now token placeholder salt actor input = do
    lift (require_permission actor.permissions staff_manage)
    role ← (λ db. pure (T.find_first db.roles (is_role_of actor.tenant_id input.role_key)) db)
    role_id ← lift (check_role role)
    let email = normalize_email input.email
    existing ← (λ db. pure (T.find_first db.staff_users (is_staff_of actor.tenant_id email)) db)
    throw_if (is_set existing) staff_email_taken
    user_id ←
        transaction
          (insert_staff_user actor input email role_id (outside.hash_password salt placeholder))
    send_invitation outside now token actor input email user_id
    pure user_id
