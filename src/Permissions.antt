-- ===== src/Permissions.antt =====
-- packages/shared/src/permissions/index.ts: the permission catalog and the default grants by role.
-- A permission key is a constructor with its string; the code compares the strings.
pub mod Laws
use Prim.Native.String.{String}
use dohost.Base.{Bool, true, false, not, List, [], ◌∷◌, if◌then◌else◌, Text, codes, text_eq}

-- PERMISSIONS
pub data PermissionKey : Type 0 where
  clients_read clients_write clients_contacts_manage clients_impersonate products_read :
      PermissionKey
  products_write orders_read orders_write invoices_read invoices_write : PermissionKey
  payments_read payments_refund domains_manage provisioning_manage support_manage : PermissionKey
  staff_manage roles_manage settings_manage reports_finance audit_read : PermissionKey

-- The string of a key.
abbrev pub key_text : PermissionKey → Text
key_text clients_read = codes "clients.read"
key_text clients_write = codes "clients.write"
key_text clients_contacts_manage = codes "clients.contacts.manage"
key_text clients_impersonate = codes "clients.impersonate"
key_text products_read = codes "products.read"
key_text products_write = codes "products.write"
key_text orders_read = codes "orders.read"
key_text orders_write = codes "orders.write"
key_text invoices_read = codes "invoices.read"
key_text invoices_write = codes "invoices.write"
key_text payments_read = codes "payments.read"
key_text payments_refund = codes "payments.refund"
key_text domains_manage = codes "domains.manage"
key_text provisioning_manage = codes "provisioning.manage"
key_text support_manage = codes "support.manage"
key_text staff_manage = codes "staff.manage"
key_text roles_manage = codes "roles.manage"
key_text settings_manage = codes "settings.manage"
key_text reports_finance = codes "reports.finance"
key_text audit_read = codes "audit.read"

-- `===` on keys.
unfoldable pub permission_eq : PermissionKey → PermissionKey → Bool
permission_eq a b = text_eq (key_text a) (key_text b)

-- ALL_PERMISSIONS
abbrev pub all_permissions : List PermissionKey
all_permissions =
    clients_read ∷ clients_write ∷ clients_contacts_manage ∷ clients_impersonate ∷ products_read
    ∷ products_write ∷ orders_read ∷ orders_write ∷ invoices_read ∷ invoices_write ∷ payments_read
    ∷ payments_refund ∷ domains_manage ∷ provisioning_manage ∷ support_manage ∷ staff_manage
    ∷ roles_manage ∷ settings_manage ∷ reports_finance ∷ audit_read ∷ []

-- STAFF_ROLE_KEYS
pub data StaffRoleKey : Type 0 where
  super_admin admin billing_staff support_staff : StaffRoleKey
  sales_staff technical_staff finance_staff readonly_staff : StaffRoleKey

abbrev pub staff_role_keys : List StaffRoleKey
staff_role_keys =
    super_admin ∷ admin ∷ billing_staff ∷ support_staff ∷ sales_staff ∷ technical_staff
    ∷ finance_staff ∷ readonly_staff ∷ []

-- STAFF_ROLE_LABELS
abbrev pub staff_role_label : StaffRoleKey → String
staff_role_label super_admin = "Super Admin"
staff_role_label admin = "Admin"
staff_role_label billing_staff = "Billing Staff"
staff_role_label support_staff = "Support Staff"
staff_role_label sales_staff = "Sales Staff"
staff_role_label technical_staff = "Technical Staff"
staff_role_label finance_staff = "Finance Staff"
staff_role_label readonly_staff = "Read-only Staff"

-- READ_ONLY_PERMISSIONS
abbrev pub read_only_permissions : List PermissionKey
read_only_permissions =
    clients_read ∷ products_read ∷ orders_read ∷ invoices_read ∷ payments_read ∷ reports_finance
    ∷ audit_read ∷ []

-- The filter of `admin`.
unfoldable pub without : PermissionKey → List PermissionKey → List PermissionKey
unfolding permission_eq
without k [] = []
without k (p ∷ ps) = if not (permission_eq p k) then p ∷ without k ps else without k ps

-- DEFAULT_ROLE_PERMISSIONS
unfoldable pub default_role_permissions : StaffRoleKey → List PermissionKey
unfolding without
default_role_permissions super_admin = all_permissions
default_role_permissions admin = without roles_manage all_permissions
default_role_permissions billing_staff =
    clients_read ∷ orders_read ∷ invoices_read ∷ invoices_write ∷ payments_read ∷ payments_refund
    ∷ reports_finance ∷ audit_read ∷ []
default_role_permissions support_staff =
    clients_read ∷ clients_contacts_manage ∷ clients_impersonate ∷ orders_read ∷ support_manage ∷ []
default_role_permissions sales_staff =
    clients_read ∷ clients_write ∷ products_read ∷ orders_read ∷ orders_write ∷ []
default_role_permissions technical_staff =
    clients_read ∷ orders_read ∷ domains_manage ∷ provisioning_manage ∷ support_manage ∷ []
default_role_permissions finance_staff =
    clients_read ∷ orders_read ∷ invoices_read ∷ invoices_write ∷ payments_read ∷ payments_refund
    ∷ reports_finance ∷ audit_read ∷ settings_manage ∷ []
default_role_permissions readonly_staff = read_only_permissions

pub record ClientContactPermissions : Type 0 where
  pub billing : Bool
  pub support : Bool
  pub domains : Bool
  pub services : Bool

-- DEFAULT_PRIMARY_CONTACT_PERMISSIONS
abbrev pub default_primary_contact_permissions : ClientContactPermissions
default_primary_contact_permissions = record {
  billing = true;
  support = true;
  domains = true;
  services = true;
}

-- DEFAULT_SUB_CONTACT_PERMISSIONS
abbrev pub default_sub_contact_permissions : ClientContactPermissions
default_sub_contact_permissions = record {
  billing = false;
  support = true;
  domains = false;
  services = false;
}
