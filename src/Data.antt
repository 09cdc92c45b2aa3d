-- ===== src/Data.antt =====
-- packages/db/prisma/schema.prisma: the rows that the modelled services read and write, without their
-- ids, which the tables of dohost.Store keep, and the state of the whole database. A time is in
-- milliseconds since the epoch. `Option` is a column that may be null. Columns that no modelled code
-- reads or writes are left out.
use dohost.Base.{ℕ, Bool, Option, List, Text}
use dohost.Base.Int.{ℤ}
use dohost.Money.{Number}
use dohost.Store.{RowId, Tables}
mod Accounts
pub use dohost.Store.{Time}
pub use Accounts.{
  ClientType, VerificationStatus, AccountStatus, Tenant, StaffUser, Role, Permission,
  RolePermission, ClientContact, ClientNote, EmailStatus, EmailTemplate, EmailLog,
}

pub data OrderStatus : Type 0 where
  pending awaiting_payment paid processing active : OrderStatus
  fraud_review cancelled fraud refunded failed : OrderStatus

pub data InvoiceStatus : Type 0 where
  draft issued unpaid partially_paid paid overdue collections cancelled refunded : InvoiceStatus

pub data ClientStatus : Type 0 where
  active pending_verification suspended closed : ClientStatus

pub data BillingCycle : Type 0 where
  one_time monthly quarterly semi_annual annual biennial triennial custom : BillingCycle

-- `AuditActorType`
pub data ActorType : Type 0 where
  staff client_contact system : ActorType

-- `StatusHistoryEntityType`
pub data StatusEntity : Type 0 where
  order invoice client : StatusEntity

-- The status columns of `StatusHistory` are strings; this is what they are written from.
pub data Status : Type 0 where
  of_order : OrderStatus → Status
  of_invoice : InvoiceStatus → Status
  of_client : ClientStatus → Status

-- The values in the JSON columns. A key that is absent and one that is `undefined` are `missing`.
pub data Value : Type 0 where
  text : Text → Value
  number : ℤ → Value
  status : Status → Value
  id : RowId → Value
  time : Time → Value
  flag : Bool → Value
  cycle : BillingCycle → Value
  missing : Value

abbrev pub Fields : Type 0
Fields = List (Text × Value)

pub record StatusHistory : Type 0 where
  pub tenant_id : RowId
  pub entity_type : StatusEntity
  pub entity_id : RowId
  pub from_status : Option Status
  pub to_status : Status
  pub actor_type : ActorType
  pub actor_id : Option RowId
  pub reason : Option Text
  pub metadata : Option Fields

-- AUDIT_ENTITY_TYPES
pub data AuditEntity : Type 0 where
  client client_contact staff_user role product_group product product_price order : AuditEntity
  invoice system_setting staff_session client_session impersonation : AuditEntity

-- AUDIT_ACTIONS
pub data AuditAction : Type 0 where
  client_created client_updated client_status_changed : AuditAction
  client_contact_created client_contact_updated client_contact_removed : AuditAction
  staff_user_created staff_user_updated staff_user_disabled : AuditAction
  role_permissions_changed : AuditAction
  product_group_created product_group_updated product_created product_updated : AuditAction
  product_price_created : AuditAction
  order_created order_status_changed : AuditAction
  invoice_created invoice_status_changed invoice_marked_paid : AuditAction
  system_setting_updated session_revoked : AuditAction
  impersonation_started impersonation_ended : AuditAction

pub record AuditLog : Type 0 where
  pub tenant_id : RowId
  pub actor_type : ActorType
  pub actor_id : Option RowId
  pub actor_label : Option Text
  pub action : AuditAction
  pub entity_type : AuditEntity
  pub entity_id : RowId
  pub ip : Option Text
  pub before_state : Option Fields
  pub after_state : Option Fields
  pub reason : Option Text
  pub metadata : Option Fields

pub record Counter : Type 0 where
  pub tenant_id : RowId
  pub key : Text
  pub value : ℕ

pub record ProductGroup : Type 0 where
  pub tenant_id : RowId
  pub name : Text
  pub slug : Text
  pub description : Option Text
  pub sort_order : ℤ

pub record Product : Type 0 where
  pub tenant_id : RowId
  pub product_group_id : RowId
  pub name : Text
  pub slug : Text
  pub description : Option Text
  pub stock_limit : Option ℤ
  pub sort_order : ℤ

pub record ProductPrice : Type 0 where
  pub tenant_id : RowId
  pub product_id : RowId
  pub client_group_id : Option RowId
  pub currency : Text
  pub billing_cycle : BillingCycle
  pub setup_fee : ℤ
  pub price : ℤ
  pub is_promotional : Bool
  pub effective_from : Time
  pub effective_to : Option Time

pub record Client : Type 0 where
  pub tenant_id : RowId
  pub type : ClientType
  pub client_group_id : Option RowId
  pub company_name : Option Text
  pub first_name : Text
  pub last_name : Text
  pub email : Text
  pub phone : Option Text
  pub address_line1 : Option Text
  pub address_line2 : Option Text
  pub city : Option Text
  pub state : Option Text
  pub postal_code : Option Text
  pub country : Option Text
  pub tax_id : Option Text
  pub currency : Text
  pub language : Text
  pub timezone : Text
  pub status : ClientStatus
  pub verification_status : VerificationStatus
  pub last_login_at : Option Time

-- The tenant and the order are those of the order that holds the item.
pub record OrderItem : Type 0 where
  pub product_id : RowId
  pub product_price_id : RowId
  pub product_name_snapshot : Text
  pub description_snapshot : Option Text
  pub quantity : Number
  pub unit_price_snapshot : ℤ
  pub setup_fee_snapshot : ℤ
  pub tax_snapshot : ℤ
  pub discount_snapshot : ℤ
  pub billing_cycle_snapshot : BillingCycle
  pub domain_snapshot : Option Text
  pub selected_options_snapshot : Option Fields
  pub line_total : ℤ

-- An order with its items, which are written with it and never changed.
pub record Order : Type 0 where
  pub tenant_id : RowId
  pub client_id : RowId
  pub order_number : Text
  pub status : OrderStatus
  pub currency : Text
  pub subtotal : ℤ
  pub discount_total : ℤ
  pub tax_total : ℤ
  pub total : ℤ
  pub idempotency_key : Option Text
  pub ip_address : Option Text
  pub user_agent : Option Text
  pub items : List OrderItem

-- The order item that a line comes from is the one at the same position.
pub record InvoiceItem : Type 0 where
  pub description : Text
  pub quantity : Number
  pub unit_price : ℤ
  pub tax_amount : ℤ
  pub discount_amount : ℤ
  pub line_total : ℤ

pub record Invoice : Type 0 where
  pub tenant_id : RowId
  pub client_id : RowId
  pub order_id : Option RowId
  pub invoice_number : Text
  pub status : InvoiceStatus
  pub currency : Text
  pub subtotal : ℤ
  pub discount_total : ℤ
  pub tax_total : ℤ
  pub total : ℤ
  pub amount_paid : ℤ
  pub amount_due : ℤ
  pub due_date : Time
  pub issued_at : Option Time
  pub paid_at : Option Time
  pub customer_snapshot : Fields
  pub company_snapshot : Fields
  pub items : List InvoiceItem

pub record SystemSetting : Type 0 where
  pub tenant_id : RowId
  pub key : Text
  pub value : Fields
  pub updated_by : Option RowId

-- `AuthActorType`
pub data AuthActor : Type 0 where
  staff client_contact : AuthActor

pub record LoginEvent : Type 0 where
  pub tenant_id : RowId
  pub actor_type : AuthActor
  pub actor_id : Option RowId
  pub email : Text
  pub success : Bool
  pub reason : Option Text
  pub ip : Option Text
  pub user_agent : Option Text
  pub created_at : Time

pub record EmailVerificationToken : Type 0 where
  pub tenant_id : RowId
  pub actor_type : AuthActor
  pub actor_id : RowId
  pub email : Text
  pub token_hash : Text
  pub expires_at : Time
  pub consumed_at : Option Time

pub record PasswordResetToken : Type 0 where
  pub tenant_id : RowId
  pub actor_type : AuthActor
  pub actor_id : RowId
  pub token_hash : Text
  pub expires_at : Time
  pub consumed_at : Option Time

pub record StaffSession : Type 0 where
  pub tenant_id : RowId
  pub user_id : RowId
  pub token_hash : Text
  pub ip : Option Text
  pub user_agent : Option Text
  pub last_seen_at : Time
  pub expires_at : Time
  pub revoked_at : Option Time
  pub revoked_reason : Option Text

pub record ClientSession : Type 0 where
  pub tenant_id : RowId
  pub contact_id : RowId
  pub token_hash : Text
  pub ip : Option Text
  pub user_agent : Option Text
  pub last_seen_at : Time
  pub expires_at : Time
  pub revoked_at : Option Time
  pub revoked_reason : Option Text
  pub impersonated_by_staff_user_id : Option RowId
  pub impersonation_reason : Option Text

-- The state of the database.
pub record Db (T : Tables) : Type 0 where
  pub tenants : T.Table Tenant
  pub permissions : T.Table Permission
  pub roles : T.Table Role
  pub role_permissions : T.Table RolePermission
  pub staff_users : T.Table StaffUser
  pub clients : T.Table Client
  pub client_contacts : T.Table ClientContact
  pub client_notes : T.Table ClientNote
  pub product_groups : T.Table ProductGroup
  pub products : T.Table Product
  pub product_prices : T.Table ProductPrice
  pub orders : T.Table Order
  pub invoices : T.Table Invoice
  pub counters : T.Table Counter
  pub settings : T.Table SystemSetting
  pub login_events : T.Table LoginEvent
  pub verification_tokens : T.Table EmailVerificationToken
  pub reset_tokens : T.Table PasswordResetToken
  pub email_logs : T.Table EmailLog
  pub staff_sessions : T.Table StaffSession
  pub client_sessions : T.Table ClientSession
  pub status_history : T.Table StatusHistory
  pub audit_log : T.Table AuditLog
