-- ===== src/Clients/Admission.antt =====
-- Who is let in by `authenticateClientContact`, and what a refusal says.
use dohost.Base.{◌≡◌, true, false, none, some}
use dohost.Errors.{Error, ok, err}
use dohost.Store.{RowId, Tables, Time}
use dohost.Data.{Db, Client, ClientContact}
use dohost.Outside.{Outside}
use dohost.Texts.{normalize_email}
use dohost.Clients.{is_enabled}
use dohost.Clients.Register.{is_contact_of}
use dohost.Clients.Login.{
  LoginInput, AuthenticatedContact, is_locked, client_refusal, contact_refusal,
}

-- What is known of a contact that was let in.
pub record IsAdmitted (T : Tables) (outside : Outside) (now : Time) (input : LoginInput) (db : Db T)
    (who : AuthenticatedContact) : Type 0 where
  pub contact : ClientContact
  pub client : Client
  pub found :
      T.find_first db.client_contacts (is_contact_of input.tenant_id (normalize_email input.email))
      ≡ some (who.id, contact)
  pub owner : T.find db.clients contact.client_id ≡ some client
  pub enabled : is_enabled contact.status contact.deleted_at ≡ true
  pub unlocked : is_locked now contact.locked_until ≡ false
  pub in_standing : client_refusal client.status ≡ none
  pub password : outside.verify_password contact.password_hash input.password ≡ ok true

-- A contact with the address in the tenant whose client is not there.
pub record IsOrphan (T : Tables) (input : LoginInput) (db : Db T) : Type 0 where
  pub id : RowId
  pub contact : ClientContact
  pub found :
      T.find_first db.client_contacts (is_contact_of input.tenant_id (normalize_email input.email))
      ≡ some (id, contact)
  pub no_client : T.find db.clients contact.client_id ≡ none

-- A contact who is let in but for the password, and a stored hash that the check throws on.
pub record IsUnreadable (T : Tables) (outside : Outside) (now : Time) (input : LoginInput)
    (db : Db T) (e : Error) : Type 0 where
  pub id : RowId
  pub contact : ClientContact
  pub client : Client
  pub found :
      T.find_first db.client_contacts (is_contact_of input.tenant_id (normalize_email input.email))
      ≡ some (id, contact)
  pub owner : T.find db.clients contact.client_id ≡ some client
  pub passed : contact_refusal now contact client ≡ none
  pub unreadable : outside.verify_password contact.password_hash input.password ≡ err e
