-- ===== src/Staff/Login.antt =====
-- `authenticateStaffUser` of packages/core/src/staff.ts.
use dohost.Base.{Bool, true, false, Option, none, some, Text, codes, if◌then◌else◌}
use dohost.Service.{Action, ◌>>=◌, ◌>>◌, pure, throw, lift, modify}
use dohost.Errors.{Error, app, app_error, authentication}
use dohost.Store.{RowId, Tables, Time}
use dohost.Data.{Db, StaffUser, AuthActor}
use dohost.Actors.{is_truthy}
use dohost.Outside.{Outside}
use dohost.LoginGuard.{record_login_attempt, should_lock_out, compute_lockout_expiry}
use dohost.Texts.{normalize_email, or_empty}
use dohost.Crypto.{decrypt_secret}
use dohost.Clients.{is_enabled}
use dohost.Clients.Login.{invalid_credentials, is_locked, or_locked}
use dohost.Staff.{is_staff_of}

pub record StaffLoginInput : Type 0 where
  pub tenant_id : RowId
  pub email : Text
  pub password : Text
  pub totp_token : Option Text
  pub ip : Option Text
  pub user_agent : Option Text

-- `AuthenticatedStaff`
pub record AuthenticatedStaff : Type 0 where
  pub id : RowId
  pub tenant_id : RowId
  pub email : Text
  pub name : Text
  pub must_change_password : Bool

abbrev pub totp_required : Error
totp_required = app (app_error authentication "auth.totp_required")

-- The checks before the password: the reason of the first one that fails.
unfoldable pub staff_refusal : Time → StaffUser → Option Text
staff_refusal now user =
    if is_enabled user.status user.deleted_at
    then or_locked (is_locked now user.locked_until) none
    else some (codes "not_found_or_disabled")

module _ (T : Tables) (outside : Outside) (now : Time) (input : StaffLoginInput)
    (email : Text) where
  -- One row for an attempt, of the user if there is one.
  unfoldable pub record_staff_attempt : Option RowId → Bool → Option Text → Action (Db T) (Unit {0})
  record_staff_attempt user_id success reason = record_login_attempt T now (record {
    tenant_id = input.tenant_id;
    actor_type = AuthActor.staff;
    actor_id = user_id;
    email = email;
    success = success;
    reason = reason;
    ip = input.ip;
    user_agent = input.user_agent;
  })

  -- `fail`
  unfoldable pub fail_staff : Option RowId → Text → Action (Db T) AuthenticatedStaff
  fail_staff user_id reason =
      record_staff_attempt user_id false (some reason) >> throw invalid_credentials

  -- `if (await shouldLockOut(...))` the user is locked.
  unfoldable pub lock_staff_if_due : RowId → StaffUser → Action (Db T) (Unit {0})
  lock_staff_if_due user_id user db =
      if should_lock_out T now
        (record { tenant_id = input.tenant_id; actor_type = AuthActor.staff; email = email }) db
      then modify
          (λ (d : Db T). record d {
            staff_users =
                T.write d.staff_users user_id
                  (record user { locked_until = some (compute_lockout_expiry now) });
          })
          db
      else pure tt db

  -- All checks passed: the attempt is recorded, and the user is stamped.
  unfoldable pub let_staff_in : RowId → StaffUser → Action (Db T) AuthenticatedStaff
  let_staff_in user_id user = do
    record_staff_attempt (some user_id) true none
    modify (λ db. record db {
      staff_users =
          T.write db.staff_users user_id (record user {
            last_login_at = some now;
            last_login_ip = input.ip;
            locked_until = none;
          });
    })
    pure (record {
      id = user_id;
      tenant_id = input.tenant_id;
      email = user.email;
      name = user.name;
      must_change_password = user.must_change_password;
    })

  -- The code that was entered, against the secret.
  unfoldable pub judge_totp : RowId → StaffUser → Text → Action (Db T) AuthenticatedStaff
  judge_totp user_id user secret =
      if outside.verify_totp now secret (or_empty input.totp_token)
      then let_staff_in user_id user
      else fail_staff (some user_id) (codes "bad_totp")

  -- The second factor: without a code there is an error and no record of the attempt.
  unfoldable pub check_totp : RowId → StaffUser → Action (Db T) AuthenticatedStaff
  check_totp user_id user =
      if is_truthy input.totp_token
      then (lift (decrypt_secret outside (or_empty user.two_factor_secret))
          >>= judge_totp user_id user)
      else throw totp_required

  -- `if (user.twoFactorEnabled)`
  unfoldable pub check_second_factor : RowId → StaffUser → Action (Db T) AuthenticatedStaff
  check_second_factor user_id user =
      if user.two_factor_enabled then check_totp user_id user else let_staff_in user_id user

  -- The password, once the other checks have passed.
  unfoldable pub check_staff_password : RowId → StaffUser → Action (Db T) AuthenticatedStaff
  check_staff_password user_id user =
      lift (outside.verify_password user.password_hash input.password) >>= λ password_ok.
      if password_ok
      then check_second_factor user_id user
      else (lock_staff_if_due user_id user >> fail_staff (some user_id) (codes "bad_password"))

  -- A reason to refuse, or the password.
  unfoldable pub admit_staff : RowId → StaffUser → Option Text → Action (Db T) AuthenticatedStaff
  admit_staff user_id user (some reason) = fail_staff (some user_id) reason
  admit_staff user_id user none = check_staff_password user_id user

  -- What follows the look-up of the user.
  unfoldable pub log_staff_in : Option (RowId × StaffUser) → Action (Db T) AuthenticatedStaff
  log_staff_in none = fail_staff none (codes "not_found_or_disabled")
  log_staff_in (some (user_id, user)) = admit_staff user_id user (staff_refusal now user)

-- `authenticateStaffUser`
unfoldable pub authenticate_staff_user :
    (T : Tables) → Outside → Time → StaffLoginInput → Action (Db T) AuthenticatedStaff
authenticate_staff_user T outside now input db =
    let email = normalize_email input.email in
    log_staff_in T outside now input email
      (T.find_first db.staff_users (is_staff_of input.tenant_id email)) db
