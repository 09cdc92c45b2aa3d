-- ===== src/Web/SignIn.antt =====
-- `authorize` of apps/web/src/auth.ts, and the log-in of apps/web/src/lib/actions/auth.ts. What lies
-- between the two, next-auth, is outside: the code of a refused sign-in is an argument of the action.
use Prim.Native.String.{String}
use dohost.Base.{Option, none, some, [], ◌∷◌, Text, codes, text_eq, ◌||◌, if◌then◌else◌}
use dohost.Service.{Action, ◌>>=◌, pure, lift}
use dohost.Errors.{Result, ok, err, app, money_error, record_not_found, plain}
use dohost.Store.{RowId, Tables, Time}
use dohost.Data.{Db, AuthActor, staff, client_contact}
use dohost.Outside.{Outside}
use dohost.Setup.{get_default_tenant}
use dohost.Sessions.{create_staff_session, create_client_session}
use dohost.Clients.Login.{authenticate_client_contact}
use dohost.Staff.Login.{authenticate_staff_user}
use dohost.Web.{Reply, problem, redirect, or_empty, or_undefined, is_blank, starts_with}
use dohost.Web.Session.{SignedInUser}

-- The credentials that are posted.
pub record Credentials : Type 0 where
  pub actor_type : Option Text
  pub email : Option Text
  pub password : Option Text
  pub totp_token : Option Text
  pub ip : Option Text
  pub user_agent : Option Text

-- A user, or a `DomainCredentialsError` with its code.
pub data SignIn : Type 0 where
  signed_in : SignedInUser → SignIn
  refused : String → SignIn

-- `raw?.actorType === "STAFF" ? "STAFF" : "CLIENT_CONTACT"`
abbrev pub actor_type_of : Option Text → AuthActor
actor_type_of none = client_contact
actor_type_of (some t) = if text_eq t (codes "STAFF") then staff else client_contact

-- `catch (error) { if (isAppError(error)) throw new DomainCredentialsError(error.code); throw error; }`
abbrev pub refused_by_code : {S : Type 0} → Result SignedInUser × S → Result SignIn × S
refused_by_code (ok user, s) = (ok (signed_in user), s)
refused_by_code (err (app e), s) = (ok (refused e.code), s)
refused_by_code (err (money_error e), s) = (err (money_error e), s)
refused_by_code (err record_not_found, s) = (err record_not_found, s)
refused_by_code (err plain, s) = (err plain, s)

module _ (T : Tables) (outside : Outside) (now : Time) (session_token : Text)
    (raw : Credentials) where
  -- The part for staff, with the session token that is drawn.
  unfoldable pub sign_in_staff : RowId → Action (Db T) SignedInUser
  sign_in_staff tenant = do
    user ← authenticate_staff_user T outside now (record {
      tenant_id = tenant;
      email = or_empty raw.email;
      password = or_empty raw.password;
      totp_token = or_undefined (or_empty raw.totp_token);
      ip = or_undefined (or_empty raw.ip);
      user_agent = or_undefined (or_empty raw.user_agent);
    })
    token ← create_staff_session T outside.hash_token now session_token (record {
      user_id = user.id;
      tenant_id = tenant;
      ip = or_undefined (or_empty raw.ip);
      user_agent = or_undefined (or_empty raw.user_agent);
    })
    pure (record {
      id = user.id;
      email = user.email;
      name = user.name;
      actor_type = staff;
      session_token = token;
      must_change_password = some user.must_change_password;
    })

  -- The part for client contacts.
  unfoldable pub sign_in_contact : RowId → Action (Db T) SignedInUser
  sign_in_contact tenant = do
    contact ← authenticate_client_contact T outside now (record {
      tenant_id = tenant;
      email = or_empty raw.email;
      password = or_empty raw.password;
      ip = or_undefined (or_empty raw.ip);
      user_agent = or_undefined (or_empty raw.user_agent);
    })
    token ← create_client_session T outside.hash_token now session_token (record {
      contact_id = contact.id;
      tenant_id = tenant;
      ip = or_undefined (or_empty raw.ip);
      user_agent = or_undefined (or_empty raw.user_agent);
      impersonated_by_staff_user_id = none;
      impersonation_reason = none;
    })
    pure (record {
      id = contact.id;
      email = contact.email;
      name = contact.first_name;
      actor_type = client_contact;
      session_token = token;
      must_change_password = none;
    })

  abbrev pub sign_in_as : AuthActor → RowId → Action (Db T) SignedInUser
  sign_in_as staff tenant = sign_in_staff tenant
  sign_in_as client_contact tenant = sign_in_contact tenant

  -- What follows the check of the fields.
  unfoldable pub sign_in_at_tenant : Action (Db T) SignIn
  sign_in_at_tenant db =
      (lift (get_default_tenant T outside db) >>= λ tenant d.
      refused_by_code (sign_in_as (actor_type_of raw.actor_type) tenant.0 d))
        db

  -- `authorize`
  unfoldable pub authorize : Action (Db T) SignIn
  authorize db =
      if is_blank (or_empty raw.email) || is_blank (or_empty raw.password)
      then (ok (refused "auth.invalid_credentials"), db)
      else sign_in_at_tenant db

-- AUTH_ERROR_MESSAGES, with the text for any other code.
abbrev pub auth_error_message : Text → Text
auth_error_message code =
    if text_eq code (codes "auth.invalid_credentials")
    then codes "Incorrect email or password."
    else (if text_eq code (codes "auth.locked")
        then codes "Too many failed attempts. Please try again in 15 minutes."
        else (if text_eq code (codes "auth.totp_required")
            then codes "Enter your 2FA code to continue."
            else codes "Something went wrong. Please try again."))

-- `String(formData.get("next") || fallbackPath)`
abbrev pub next_or : Option Text → Text → Text
next_or none fallback = fallback
next_or (some []) fallback = fallback
next_or (some (c ∷ t)) fallback = c ∷ t

-- `next.startsWith("/") ? next : fallbackPath`
abbrev pub local_or : Text → Text → Text
local_or next fallback = if starts_with (codes "/") next then next else fallback

-- The end of `performLogin`, by the code that `extractErrorCode` reads of the result of `signIn`.
unfoldable pub finish_login : Option Text → Option Text → Text → Reply
finish_login (some (c ∷ code)) next fallback = problem (auth_error_message (c ∷ code))
finish_login _ next fallback = redirect (local_or (next_or next fallback) fallback)
