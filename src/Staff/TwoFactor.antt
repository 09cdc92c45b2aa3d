-- ===== src/Staff/TwoFactor.antt =====
-- The second factor of staff, of packages/core/src/staff.ts. The secret, the recovery codes and the
-- initial vector of the encryption are drawn at random and are arguments.
use dohost.Base.{true, false, not, none, some, List, [], map, Text}
use dohost.Service.{Action, ◌>>=◌, ◌>>◌, pure, lift, modify, or_throw, throw_if}
use dohost.Errors.{Error, app, app_error, validation}
use dohost.Store.{RowId, Tables, Time}
use dohost.Data.{Db, StaffUser}
use dohost.Outside.{Outside}
use dohost.Crypto.{encrypt_secret}

abbrev pub totp_invalid : Error
totp_invalid = app (app_error validation "auth.totp_invalid")

-- The data of the update.
abbrev pub enrolled : StaffUser → Text → List Text → StaffUser
enrolled user secret hashes = record user {
  two_factor_enabled = true;
  two_factor_secret = some secret;
  recovery_code_hashes = hashes;
}

module _ (T : Tables) where
  -- `beginStaff2FAEnrollment`: the secret and the picture of its link; nothing is written.
  unfoldable pub begin_staff_2fa_enrollment : Outside → Text → RowId → Action (Db T) (Text × Text)
  begin_staff_2fa_enrollment outside secret user_id = do
    user ← (λ db. or_throw (T.find db.staff_users user_id) db)
    pure (secret, outside.totp_qr_code secret user.email outside.app_name)

  -- `confirmStaff2FAEnrollment`: the recovery codes, of which only the hashes are stored.
  unfoldable pub confirm_staff_2fa_enrollment :
      Outside → Time → Text → List Text → RowId → (secret token : Text) → Action (Db T) (List Text)
  confirm_staff_2fa_enrollment outside now iv recovery_codes user_id secret token = do
    throw_if (not (outside.verify_totp now secret token)) totp_invalid
    encrypted ← lift (encrypt_secret outside iv secret)
    user ← (λ db. or_throw (T.find db.staff_users user_id) db)
    modify (λ db. record db {
      staff_users =
          T.write db.staff_users user_id
            (enrolled user encrypted (map outside.hash_token recovery_codes));
    })
    pure recovery_codes

  -- `disableStaff2FA`
  unfoldable pub disable_staff_2fa : RowId → Action (Db T) (Unit {0})
  disable_staff_2fa user_id = do
    user ← (λ db. or_throw (T.find db.staff_users user_id) db)
    modify (λ db. record db {
      staff_users = T.write db.staff_users user_id (record user {
        two_factor_enabled = false;
        two_factor_secret = none;
        recovery_code_hashes = [];
      });
    })
