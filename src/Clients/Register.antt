-- ===== src/Clients/Register.antt =====
-- `registerClient` of packages/core/src/clients.ts.
use dohost.Base.{
  ◌+◌, ◌*◌, Bool, true, Option, none, some, [], ◌∷◌, ◌++◌, Text, codes, text_eq, ◌==◌, ◌&&◌, ◌||◌,
}
use dohost.Service.{Action, ◌>>=◌, ◌>>◌, pure, modify, throw_if, transaction}
use dohost.Errors.{Error, app, app_error, business_rule}
use dohost.Permissions.{default_primary_contact_permissions}
use dohost.Store.{RowId, Tables, Time}
use dohost.Data.{
  Db, Client, ClientContact, ClientType, VerificationStatus, ClientStatus, AccountStatus, ActorType,
  AuthActor, StatusEntity, of_client, AuditEntity, AuditAction, Value, EmailTemplate,
}
use dohost.Audit.{record_audit_log, record_status_transition}
use dohost.Outside.{Outside}
use dohost.Emails.{EmailInput, queue_email}
use dohost.Texts.{normalize_email}
use dohost.Tokens.{is_set}
use dohost.Clients.{full_label}

-- EMAIL_VERIFICATION_TTL_MS
abbrev pub email_verification_ttl : Time
email_verification_ttl = 24 * 60 * 60 * 1000

pub record RegisterInput : Type 0 where
  pub tenant_id : RowId
  pub type : ClientType
  pub company_name : Option Text
  pub first_name : Text
  pub last_name : Text
  pub email : Text
  pub password : Text
  pub country : Option Text
  pub currency : Option Text
  pub ip : Option Text

abbrev pub email_taken : Error
email_taken = app (app_error business_rule "client.email_taken")

-- `where: { tenantId_email: { tenantId, email } }`
abbrev pub is_client_of : RowId → Text → Client → Bool
is_client_of tenant email c = (c.tenant_id == tenant) && text_eq c.email email

abbrev pub is_contact_of : RowId → Text → ClientContact → Bool
is_contact_of tenant email c = (c.tenant_id == tenant) && text_eq c.email email

abbrev or_usd : Option Text → Text
or_usd none = codes "USD"
or_usd (some c) = c

abbrev type_text : ClientType → Text
type_text ClientType.individual = codes "INDIVIDUAL"
type_text ClientType.company = codes "COMPANY"

-- The rows that are created, for the normalised email address.
unfoldable pub new_client : RegisterInput → Text → Client
new_client input email = record {
  tenant_id = input.tenant_id;
  type = input.type;
  client_group_id = none;
  company_name = input.company_name;
  first_name = input.first_name;
  last_name = input.last_name;
  email = email;
  phone = none;
  address_line1 = none;
  address_line2 = none;
  city = none;
  state = none;
  postal_code = none;
  country = input.country;
  tax_id = none;
  currency = or_usd input.currency;
  language = codes "en";
  timezone = codes "UTC";
  status = ClientStatus.pending_verification;
  verification_status = VerificationStatus.unverified;
  last_login_at = none;
}

unfoldable pub new_contact : RegisterInput → Text → Text → RowId → ClientContact
new_contact input email password_hash client_id = record {
  tenant_id = input.tenant_id;
  client_id = client_id;
  email = email;
  password_hash = password_hash;
  first_name = input.first_name;
  last_name = input.last_name;
  is_primary = true;
  perm_billing = default_primary_contact_permissions.billing;
  perm_support = default_primary_contact_permissions.support;
  perm_domains = default_primary_contact_permissions.domains;
  perm_services = default_primary_contact_permissions.services;
  status = AccountStatus.active;
  email_verified_at = none;
  locked_until = none;
  last_login_at = none;
  last_login_ip = none;
  deleted_at = none;
}

-- The email with the link.
abbrev pub verification_email : Outside → Text → Text → Text → RowId → EmailInput
verification_email outside email first_name token contact_id = record {
  to = email;
  subject = codes "Verify your email for " ++ outside.app_name;
  template = EmailTemplate.verify_email;
  props =
      (codes "appName", outside.app_name)
      ∷ (codes "recipientName", first_name)
      ∷ (codes "verifyUrl", outside.app_url ++ (codes "/verify-email?token=" ++ token))
      ∷ [];
  related_entity_type = some (codes "CLIENT_CONTACT");
  related_entity_id = some contact_id;
}

module _ (T : Tables) where
  -- `existingClient || existingContact`
  unfoldable pub is_email_taken : RowId → Text → Db T → Bool
  is_email_taken tenant email db =
      is_set (T.find_first db.clients (is_client_of tenant email))
      || is_set (T.find_first db.client_contacts (is_contact_of tenant email))

  -- The body of the transaction.
  unfoldable pub create_account : RegisterInput → Text → Text → Action (Db T) (RowId × RowId)
  create_account input email password_hash = do
    client_id ← (λ db. pure (T.create db.clients (new_client input email)).0 db)
    modify (λ db. record db { clients = (T.create db.clients (new_client input email)).1 })
    let contact = new_contact input email password_hash client_id
    contact_id ← (λ db. pure (T.create db.client_contacts contact).0 db)
    modify (λ db. record db { client_contacts = (T.create db.client_contacts contact).1 })
    record_status_transition T (record {
      tenant_id = input.tenant_id;
      entity_type = StatusEntity.client;
      entity_id = client_id;
      from_status = none;
      to_status = of_client ClientStatus.pending_verification;
      actor_type = ActorType.client_contact;
      actor_id = some contact_id;
      reason = some (codes "self_registration");
      metadata = none;
    })
    record_audit_log T (record {
      tenant_id = input.tenant_id;
      actor_type = ActorType.client_contact;
      actor_id = some contact_id;
      actor_label = some (full_label input.first_name input.last_name email);
      action = AuditAction.client_created;
      entity_type = AuditEntity.client;
      entity_id = client_id;
      ip = input.ip;
      before_state = none;
      after_state = some (
          (codes "email", Value.text email)
          ∷ (codes "type", Value.text (type_text input.type))
          ∷ []);
      reason = none;
      metadata = none;
    })
    pure (client_id, contact_id)

  -- `emailVerificationToken.create`
  unfoldable pub create_verification : RowId → RowId → Text → Text → Time → Action (Db T) (Unit {0})
  create_verification tenant contact_id email hash expires_at = modify (λ db. record db {
    verification_tokens =
        (T.create db.verification_tokens (record {
          tenant_id = tenant;
          actor_type = AuthActor.client_contact;
          actor_id = contact_id;
          email = email;
          token_hash = hash;
          expires_at = expires_at;
          consumed_at = none;
        })).1;
  })

  -- What follows the transaction: the token and the email with the link.
  unfoldable pub send_verification :
      Outside → Time → Text → RegisterInput → Text → RowId → Action (Db T) (Unit {0})
  send_verification outside now token input email contact_id = do
    create_verification input.tenant_id contact_id email (outside.hash_token token)
        (now + email_verification_ttl)
    queue_email T outside input.tenant_id
        (verification_email outside email input.first_name token contact_id)

  -- `registerClient`, with the token and the salt that are drawn.
  unfoldable pub register_client :
      Outside → Time → (token salt : Text) → RegisterInput → Action (Db T) (RowId × RowId)
  register_client outside now token salt input = do
    let email = normalize_email input.email
    taken ← (λ db. pure (is_email_taken input.tenant_id email db) db)
    throw_if taken email_taken
    ids ← transaction (create_account input email (outside.hash_password salt input.password))
    send_verification outside now token input email ids.1
    pure ids
