-- ===== src/Clients/Login.antt =====
-- `authenticateClientContact` of packages/core/src/clients.ts.
use dohost.Base.{Bool, true, false, Option, none, some, Text, codes, ltb, if◌then◌else◌}
use dohost.Service.{Action, ◌>>=◌, ◌>>◌, pure, throw, lift, modify, or_throw}
use dohost.Errors.{Error, app, app_error, authentication}
use dohost.Store.{RowId, Tables, Time}
use dohost.Data.{Db, Client, ClientContact, ClientStatus, suspended, closed, AuthActor}
use dohost.Outside.{Outside}
use dohost.LoginGuard.{record_login_attempt, should_lock_out, compute_lockout_expiry}
use dohost.Texts.{normalize_email}
use dohost.Clients.{is_enabled}
use dohost.Clients.Register.{is_contact_of}

pub record LoginInput : Type 0 where
  pub tenant_id : RowId
  pub email : Text
  pub password : Text
  pub ip : Option Text
  pub user_agent : Option Text

-- `AuthenticatedClientContact`
pub record AuthenticatedContact : Type 0 where
  pub id : RowId
  pub client_id : RowId
  pub tenant_id : RowId
  pub email : Text
  pub first_name : Text

abbrev pub invalid_credentials : Error
invalid_credentials = app (app_error authentication "auth.invalid_credentials")

-- `lockedUntil && lockedUntil > new Date()`
abbrev pub is_locked : Time → Option Time → Bool
is_locked now none = false
is_locked now (some until) = ltb now until

-- Why a client of this status may not log in.
abbrev pub client_refusal : ClientStatus → Option Text
client_refusal suspended = some (codes "account_suspended")
client_refusal closed = some (codes "account_closed")
client_refusal _ = none

abbrev pub or_locked : Bool → Option Text → Option Text
or_locked locked (some reason) = some reason
or_locked true none = some (codes "locked")
or_locked false none = none

-- The checks before the password: the reason of the first one that fails.
unfoldable pub contact_refusal : Time → ClientContact → Client → Option Text
contact_refusal now contact client =
    if is_enabled contact.status contact.deleted_at
    then or_locked (is_locked now contact.locked_until) (client_refusal client.status)
    else some (codes "not_found_or_disabled")

module _ (T : Tables) (outside : Outside) (now : Time) (input : LoginInput) (email : Text) where
  -- One row for an attempt, of the contact if there is one.
  unfoldable pub record_attempt : Option RowId → Bool → Option Text → Action (Db T) (Unit {0})
  record_attempt contact_id success reason = record_login_attempt T now (record {
    tenant_id = input.tenant_id;
    actor_type = AuthActor.client_contact;
    actor_id = contact_id;
    email = email;
    success = success;
    reason = reason;
    ip = input.ip;
    user_agent = input.user_agent;
  })

  -- `fail`
  unfoldable pub fail : Option RowId → Text → Action (Db T) AuthenticatedContact
  fail contact_id reason =
      record_attempt contact_id false (some reason) >> throw invalid_credentials

  -- `if (await shouldLockOut(...))` the contact is locked.
  unfoldable pub lock_if_due : RowId → ClientContact → Action (Db T) (Unit {0})
  lock_if_due contact_id contact db =
      if should_lock_out T now
        (record {
          tenant_id = input.tenant_id;
          actor_type = AuthActor.client_contact;
          email = email;
        })
        db
      then modify
          (λ (d : Db T). record d {
            client_contacts =
                T.write d.client_contacts contact_id
                  (record contact { locked_until = some (compute_lockout_expiry now) });
          })
          db
      else pure tt db

  -- A right password: the attempt is recorded, and the contact and the client are stamped.
  unfoldable pub let_in : RowId → ClientContact → Client → Action (Db T) AuthenticatedContact
  let_in contact_id contact client = do
    record_attempt (some contact_id) true none
    modify (λ db. record db {
      client_contacts = T.write db.client_contacts contact_id (record contact {
        last_login_at = some now;
        last_login_ip = input.ip;
        locked_until = none;
      });
      clients = T.write db.clients contact.client_id (record client { last_login_at = some now });
    })
    pure (record {
      id = contact_id;
      client_id = contact.client_id;
      tenant_id = input.tenant_id;
      email = contact.email;
      first_name = contact.first_name;
    })

  -- The password, once the other checks have passed.
  unfoldable pub check_password :
      RowId → ClientContact → Client → Action (Db T) AuthenticatedContact
  check_password contact_id contact client =
      lift (outside.verify_password contact.password_hash input.password) >>= λ password_ok.
      if password_ok
      then let_in contact_id contact client
      else (lock_if_due contact_id contact >> fail (some contact_id) (codes "bad_password"))

  -- A reason to refuse, or the password.
  unfoldable pub admit :
      RowId → ClientContact → Client → Option Text → Action (Db T) AuthenticatedContact
  admit contact_id contact client (some reason) = fail (some contact_id) reason
  admit contact_id contact client none = check_password contact_id contact client

  -- What follows the look-up of the contact and its client.
  unfoldable pub log_in : Option (RowId × ClientContact) → Action (Db T) AuthenticatedContact
  log_in none = fail none (codes "not_found_or_disabled")
  log_in (some (contact_id, contact)) = do
    client ← (λ db. or_throw (T.find db.clients contact.client_id) db)
    admit contact_id contact client (contact_refusal now contact client)

-- `authenticateClientContact`
unfoldable pub authenticate_client_contact :
    (T : Tables) → Outside → Time → LoginInput → Action (Db T) AuthenticatedContact
authenticate_client_contact T outside now input db =
    let email = normalize_email input.email in
    log_in T outside now input email
      (T.find_first db.client_contacts (is_contact_of input.tenant_id email)) db
