-- ===== src/Data/Accounts.antt =====
-- packages/db/prisma/schema.prisma: the rows of accounts, of tenants and of emails.
use dohost.Base.{ℕ, Bool, Option, List, Text}
use dohost.Permissions.{PermissionKey, StaffRoleKey}
use dohost.Store.{RowId, Time}

pub data ClientType : Type 0 where
  individual company : ClientType

pub data VerificationStatus : Type 0 where
  unverified verified : VerificationStatus

-- `StaffUserStatus` and `ClientContactStatus`
pub data AccountStatus : Type 0 where
  active disabled : AccountStatus

pub record Tenant : Type 0 where
  pub name : Text
  pub slug : Text

pub record StaffUser : Type 0 where
  pub tenant_id : RowId
  pub email : Text
  pub password_hash : Text
  pub name : Text
  pub role_id : RowId
  pub status : AccountStatus
  pub must_change_password : Bool
  pub email_verified_at : Option Time
  pub two_factor_enabled : Bool
  pub two_factor_secret : Option Text
  pub recovery_code_hashes : List Text
  pub locked_until : Option Time
  pub last_login_at : Option Time
  pub last_login_ip : Option Text
  pub deleted_at : Option Time

-- The code writes no role but those of `STAFF_ROLE_KEYS`.
pub record Role : Type 0 where
  pub tenant_id : RowId
  pub key : StaffRoleKey
  pub name : Text
  pub is_system : Bool

pub record Permission : Type 0 where
  pub key : PermissionKey
  pub category : Text

pub record RolePermission : Type 0 where
  pub role_id : RowId
  pub permission_id : RowId

pub record ClientContact : Type 0 where
  pub tenant_id : RowId
  pub client_id : RowId
  pub email : Text
  pub password_hash : Text
  pub first_name : Text
  pub last_name : Text
  pub is_primary : Bool
  pub perm_billing : Bool
  pub perm_support : Bool
  pub perm_domains : Bool
  pub perm_services : Bool
  pub status : AccountStatus
  pub email_verified_at : Option Time
  pub locked_until : Option Time
  pub last_login_at : Option Time
  pub last_login_ip : Option Text
  pub deleted_at : Option Time

pub record ClientNote : Type 0 where
  pub tenant_id : RowId
  pub client_id : RowId
  pub body : Text
  pub author_staff_user_id : Option RowId
  pub author_label : Text

pub data EmailStatus : Type 0 where
  queued sent failed : EmailStatus

-- The `template` of `EmailJobPayload`
pub data EmailTemplate : Type 0 where
  verify_email reset_password welcome staff_invite security_alert : EmailTemplate

pub record EmailLog : Type 0 where
  pub tenant_id : RowId
  pub to_email : Text
  pub template_key : EmailTemplate
  pub subject : Text
  pub status : EmailStatus
  pub provider_message_id : Option Text
  pub error : Option Text
  pub related_entity_type : Option Text
  pub related_entity_id : Option RowId
  pub attempts : ℕ
  pub sent_at : Option Time
