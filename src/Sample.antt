-- ===== src/Sample.antt =====
-- A small shop on which the theorems are tried: one client, one product with a monthly price of 10.00
-- and a setup fee of 5.00 in dollars, and a client who orders three of it.
use dohost.Base.{
  ℕ, zero, suc, ◌++◌, ltb, if◌then◌else◌, ◌+◌, ◌-◌, true, false, none, some, [], ◌∷◌, Text, codes,
  text_eq, map, replicate,
}
use dohost.Errors.{ok}
use dohost.Outside.{Outside}
use dohost.Base.Int.{ℤ, pos}
use dohost.Money.{Money, int}
use dohost.Permissions.{products_write, invoices_write, orders_write, staff_manage, clients_write}
use dohost.Store.Memory.{memory}
use dohost.Data.{
  Db, Client, Product, ProductPrice, Order, OrderItem, Invoice, InvoiceStatus, monthly, OrderStatus,
  ClientStatus, ClientType, VerificationStatus, ClientContact, StaffUser, PasswordResetToken,
  AccountStatus, AuthActor,
}
use dohost.Actors.{Actor, of_client, StaffActor}
use dohost.Orders.Line.{CreateOrderItemInput}
use dohost.Orders.Create.{CreateOrderInput}

abbrev pub usd : Text
usd = codes "USD"

abbrev pub dollars : ℤ → Money
dollars n = record { amount = n; currency = usd }

abbrev pub client_row : Client
client_row = record {
  tenant_id = 0;
  type = ClientType.individual;
  client_group_id = none;
  company_name = none;
  first_name = codes "Ada";
  last_name = codes "Lovelace";
  email = codes "ada@example.com";
  phone = none;
  address_line1 = none;
  address_line2 = none;
  city = none;
  state = none;
  postal_code = none;
  country = none;
  tax_id = none;
  currency = usd;
  language = codes "en";
  timezone = codes "UTC";
  status = ClientStatus.active;
  verification_status = VerificationStatus.verified;
  last_login_at = none;
}

abbrev pub product_row : Product
product_row = record {
  tenant_id = 0;
  product_group_id = 0;
  name = codes "Web";
  slug = codes "web";
  description = none;
  stock_limit = none;
  sort_order = pos 0;
}

abbrev pub price_row : ProductPrice
price_row = record {
  tenant_id = 0;
  product_id = 0;
  client_group_id = none;
  currency = usd;
  billing_cycle = monthly;
  setup_fee = pos 500;
  price = pos 1000;
  is_promotional = false;
  effective_from = 1;
  effective_to = none;
}

abbrev pub shop : Db memory
shop = record {
  tenants = [];
  permissions = [];
  roles = [];
  role_permissions = [];
  staff_users = [];
  clients = client_row ∷ [];
  client_contacts = [];
  client_notes = [];
  product_groups = [];
  products = product_row ∷ [];
  product_prices = price_row ∷ [];
  orders = [];
  invoices = [];
  counters = [];
  settings = [];
  login_events = [];
  verification_tokens = [];
  reset_tokens = [];
  email_logs = [];
  staff_sessions = [];
  client_sessions = [];
  status_history = [];
  audit_log = [];
}

abbrev pub customer : Actor
customer =
    of_client
      (record { id = 7; client_id = 0; tenant_id = 0; label = codes "Ada"; permissions = [] })

abbrev pub clerk : StaffActor
clerk = record {
  id = 3;
  tenant_id = 0;
  label = codes "Clerk";
  permissions = products_write ∷ invoices_write ∷ orders_write ∷ [];
}

abbrev pub three_webs : CreateOrderItemInput
three_webs = record {
  product_id = 0;
  quantity = int (pos 3);
  billing_cycle = monthly;
  domain = none;
  selected_options = none;
}

abbrev pub cart : CreateOrderInput
cart = record {
  client_id = 0;
  currency = usd;
  items = three_webs ∷ [];
  idempotency_key = codes "k1";
  ip_address = none;
  user_agent = none;
}

abbrev pub item_placed : OrderItem
item_placed = record {
  product_id = 0;
  product_price_id = 0;
  product_name_snapshot = codes "Web";
  description_snapshot = none;
  quantity = int (pos 3);
  unit_price_snapshot = pos 1000;
  setup_fee_snapshot = pos 500;
  tax_snapshot = pos 0;
  discount_snapshot = pos 0;
  billing_cycle_snapshot = monthly;
  domain_snapshot = none;
  selected_options_snapshot = none;
  line_total = pos 3500;
}

-- The order that comes of the cart.
abbrev pub order_placed : Order
order_placed = record {
  tenant_id = 0;
  client_id = 0;
  order_number = codes "ORD-000001";
  status = OrderStatus.pending;
  currency = usd;
  subtotal = pos 3500;
  discount_total = pos 0;
  tax_total = pos 0;
  total = pos 3500;
  idempotency_key = some (codes "k1");
  ip_address = none;
  user_agent = none;
  items = item_placed ∷ [];
}

-- An invoice of 35.00 of which 10.00 are paid.
abbrev pub invoice_row : Invoice
invoice_row = record {
  tenant_id = 0;
  client_id = 0;
  order_id = none;
  invoice_number = codes "INV-000001";
  status = InvoiceStatus.partially_paid;
  currency = usd;
  subtotal = pos 3500;
  discount_total = pos 0;
  tax_total = pos 0;
  total = pos 3500;
  amount_paid = pos 1000;
  amount_due = pos 2500;
  due_date = 9;
  issued_at = some 2;
  paid_at = none;
  customer_snapshot = [];
  company_snapshot = [];
  items = [];
}

-- The shop with an order and an invoice.
abbrev pub busy_shop : Db memory
busy_shop = record shop { orders = order_placed ∷ []; invoices = invoice_row ∷ [] }

-- An encoding of texts by bytes: each code as so many ones and a zero.
abbrev pub tally : Text → Text
tally [] = []
tally (c ∷ t) = replicate c 1 ++ (0 ∷ tally t)

abbrev pub count_tally : ℕ → Text → Text
count_tally n [] = []
count_tally n (zero ∷ t) = n ∷ count_tally 0 t
count_tally n (suc _ ∷ t) = count_tally (n + 1) t

-- A byte of a sample's base64.
abbrev pub byte_of : ℕ → ℕ
byte_of c = if ltb c 356 then c - 100 else 0

-- The cryptography and the queue of the samples: simple functions that behave as documented.
abbrev pub outside_world : Outside
outside_world = record {
  app_name = codes "Host";
  app_url = codes "https://host";
  default_tenant_slug = codes "default";
  env_tenant_slug = none;
  id_text = λ i. i ∷ [];
  hash_token = λ t. b'#' ∷ t;
  hash_password = λ salt password. b'h' ∷ password;
  verify_password = λ hash password. ok (text_eq hash (b'h' ∷ password));
  verify_totp = λ now secret token. text_eq secret token;
  totp_qr_code = λ secret account issuer. secret;
  to_base64 = map (λ c. c + 100);
  from_base64 = map byte_of;
  to_utf8 = tally;
  from_utf8 = count_tally 0;
  encryption_key = replicate 32 200;
  encipher = λ key iv bytes. (bytes, replicate 16 0);
  decipher = λ key iv tag bytes. ok bytes;
  enqueue = λ job. ok tt;
}

abbrev pub boss : StaffActor
boss = record {
  id = 5;
  tenant_id = 0;
  label = codes "Boss";
  permissions = staff_manage ∷ clients_write ∷ [];
}

abbrev pub contact_row : ClientContact
contact_row = record {
  tenant_id = 0;
  client_id = 0;
  email = codes "ada@example.com";
  password_hash = codes "hpassword";
  first_name = codes "Ada";
  last_name = codes "Lovelace";
  is_primary = true;
  perm_billing = true;
  perm_support = true;
  perm_domains = true;
  perm_services = true;
  status = AccountStatus.active;
  email_verified_at = some 1;
  locked_until = none;
  last_login_at = none;
  last_login_ip = none;
  deleted_at = none;
}

-- A staff user with a second factor.
abbrev pub staff_row : StaffUser
staff_row = record {
  tenant_id = 0;
  email = codes "bob@example.com";
  password_hash = codes "hpassword";
  name = codes "Bob";
  role_id = 0;
  status = AccountStatus.active;
  must_change_password = false;
  email_verified_at = some 1;
  two_factor_enabled = true;
  two_factor_secret = some (196 ∷ b'.' ∷ 101 ∷ b'.' ∷ map (λ c. c + 100) (tally (codes "7")));
  recovery_code_hashes = [];
  locked_until = none;
  last_login_at = none;
  last_login_ip = none;
  deleted_at = none;
}

-- The link by which the contact sets a password.
abbrev pub link_row : PasswordResetToken
link_row = record {
  tenant_id = 0;
  actor_type = AuthActor.client_contact;
  actor_id = 0;
  token_hash = codes "#link";
  expires_at = 100;
  consumed_at = none;
}

-- The shop with a contact, a member of staff and a link.
abbrev pub manned_shop : Db memory
manned_shop = record shop {
  client_contacts = contact_row ∷ [];
  staff_users = staff_row ∷ [];
  reset_tokens = link_row ∷ [];
}
