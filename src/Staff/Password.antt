-- ===== src/Staff/Password.antt =====
-- `setStaffPassword` and `requestStaffPasswordReset` of packages/core/src/staff.ts.
use dohost.Base.{◌+◌, false, Option, none, some, Text, codes, if◌then◌else◌}
use dohost.Service.{Action, ◌>>=◌, ◌>>◌, pure, lift, modify, or_throw, transaction}
use dohost.Store.{RowId, Tables, Time}
use dohost.Data.{Db, StaffUser, AuthActor, PasswordResetToken}
use dohost.Outside.{Outside}
use dohost.Emails.{queue_email}
use dohost.Texts.{normalize_email}
use dohost.Tokens.{check_reset, find_reset, create_reset_token, consume_reset}
use dohost.Clients.{is_enabled}
use dohost.Clients.Password.{password_reset_ttl, reset_email}
use dohost.Staff.{is_staff_of}

module _ (T : Tables) where
  -- The transaction: both updates or none.
  unfoldable pub store_staff_password :
      Time → Text → RowId → PasswordResetToken → Action (Db T) (Unit {0})
  store_staff_password now password_hash token_id r = do
    user ← (λ db. or_throw (T.find db.staff_users r.actor_id) db)
    modify (λ db. record db {
      staff_users =
          T.write db.staff_users r.actor_id
            (record user { password_hash = password_hash; must_change_password = false });
    })
    consume_reset T now token_id r

  -- `setStaffPassword`, with the salt that is drawn.
  unfoldable pub set_staff_password :
      Outside → Time → (salt token new_password : Text) → Action (Db T) (Unit {0})
  set_staff_password outside now salt token new_password = do
    found ← (λ db. pure (find_reset T (outside.hash_token token) db) db)
    (token_id, r) ← lift (check_reset AuthActor.staff now found)
    transaction (store_staff_password now (outside.hash_password salt new_password) token_id r)

  -- What follows the look-up of the user: nothing without an active one.
  unfoldable pub send_staff_reset :
      Outside → Time → Text → RowId → Text → Option (RowId × StaffUser) → Action (Db T) (Unit {0})
  send_staff_reset outside now token tenant email none = pure tt
  send_staff_reset outside now token tenant email (some (i, user)) =
      if is_enabled user.status user.deleted_at
      then (create_reset_token T tenant AuthActor.staff i (outside.hash_token token)
            (now + password_reset_ttl)
          >> queue_email T outside tenant (
              reset_email outside email user.name (codes "/admin/reset-password?token=") token
                (codes "STAFF_USER") i))
      else pure tt

  -- `requestStaffPasswordReset`, with the token that is drawn.
  unfoldable pub request_staff_password_reset :
      Outside → Time → Text → RowId → Text → Action (Db T) (Unit {0})
  request_staff_password_reset outside now token tenant email = do
    let normalized = normalize_email email
    user ← (λ db. pure (T.find_first db.staff_users (is_staff_of tenant normalized)) db)
    send_staff_reset outside now token tenant normalized user
