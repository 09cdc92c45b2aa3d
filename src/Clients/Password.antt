-- ===== src/Clients/Password.antt =====
-- `requestClientPasswordReset` and `setClientPassword` of packages/core/src/clients.ts.
use dohost.Base.{◌+◌, ◌*◌, Option, none, some, [], ◌∷◌, ◌++◌, Text, codes, if◌then◌else◌}
use dohost.Service.{Action, ◌>>=◌, ◌>>◌, pure, lift, modify, or_throw, transaction}
use dohost.Store.{RowId, Tables, Time}
use dohost.Data.{Db, ClientContact, AuthActor, EmailTemplate, PasswordResetToken}
use dohost.Outside.{Outside}
use dohost.Emails.{EmailInput, queue_email}
use dohost.Texts.{normalize_email}
use dohost.Tokens.{check_reset, find_reset, create_reset_token, consume_reset}
use dohost.Clients.{is_enabled}
use dohost.Clients.Register.{is_contact_of}

-- PASSWORD_RESET_TOKEN_TTL_MS
abbrev pub password_reset_ttl : Time
password_reset_ttl = 60 * 60 * 1000

-- The email with the link, for clients and, with another path, for staff.
abbrev pub reset_email : Outside → (to name path token entity : Text) → RowId → EmailInput
reset_email outside to name path token entity account_id = record {
  to = to;
  subject = codes "Reset your " ++ (outside.app_name ++ codes " password");
  template = EmailTemplate.reset_password;
  props =
      (codes "appName", outside.app_name)
      ∷ (codes "recipientName", name)
      ∷ (codes "resetUrl", outside.app_url ++ (path ++ token))
      ∷ [];
  related_entity_type = some entity;
  related_entity_id = some account_id;
}

module _ (T : Tables) where
  -- What follows the look-up of the contact: nothing without an active one.
  unfoldable pub send_reset :
      Outside
      → Time
      → Text
      → RowId
      → Text
      → Option (RowId × ClientContact)
      → Action (Db T) (Unit {0})
  send_reset outside now token tenant email none = pure tt
  send_reset outside now token tenant email (some (i, contact)) =
      if is_enabled contact.status contact.deleted_at
      then (create_reset_token T tenant AuthActor.client_contact i (outside.hash_token token)
            (now + password_reset_ttl)
          >> queue_email T outside tenant (
              reset_email outside email contact.first_name (codes "/reset-password?token=") token
                (codes "CLIENT_CONTACT") i))
      else pure tt

  -- `requestClientPasswordReset`, with the token that is drawn.
  unfoldable pub request_client_password_reset :
      Outside → Time → Text → RowId → Text → Action (Db T) (Unit {0})
  request_client_password_reset outside now token tenant email = do
    let normalized = normalize_email email
    contact ← (λ db. pure (T.find_first db.client_contacts (is_contact_of tenant normalized)) db)
    send_reset outside now token tenant normalized contact

  -- The transaction: both updates or none.
  unfoldable pub store_client_password :
      Time → Text → RowId → PasswordResetToken → Action (Db T) (Unit {0})
  store_client_password now password_hash token_id r = do
    contact ← (λ db. or_throw (T.find db.client_contacts r.actor_id) db)
    modify (λ db. record db {
      client_contacts =
          T.write db.client_contacts r.actor_id (record contact { password_hash = password_hash });
    })
    consume_reset T now token_id r

  -- `setClientPassword`, with the salt that is drawn.
  unfoldable pub set_client_password :
      Outside → Time → (salt token new_password : Text) → Action (Db T) (Unit {0})
  set_client_password outside now salt token new_password = do
    found ← (λ db. pure (find_reset T (outside.hash_token token) db) db)
    (token_id, r) ← lift (check_reset AuthActor.client_contact now found)
    transaction (store_client_password now (outside.hash_password salt new_password) token_id r)
