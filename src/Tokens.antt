-- ===== src/Tokens.antt =====
-- The one-time tokens of packages/core/src/clients.ts and packages/core/src/staff.ts: the rows behind
-- the links for verifying an email address and for setting a password. A token is stored by its hash.
pub mod OneTime
use dohost.Base.{ℕ, Bool, true, false, not, Option, none, some, Text, text_eq, ◌&&◌, ltb}
use dohost.Errors.{Result, ok, err, Error, app, app_error, authentication}
use dohost.Service.{Action, modify}
use dohost.Store.{RowId, Tables, Time}
use dohost.Data.{Db, AuthActor, EmailVerificationToken, PasswordResetToken}
use dohost.LoginGuard.{same_actor_type}

abbrev pub is_set {ℓ} : {A : Type ℓ} → Option A → Bool
is_set none = false
is_set (some _) = true

abbrev pub invalid_token : Error
invalid_token = app (app_error authentication "auth.invalid_token")

-- Not `record.actorType !== … || record.consumedAt || record.expiresAt < new Date()`
unfoldable pub is_usable : AuthActor → Time → AuthActor → Option Time → Time → Bool
is_usable wanted now actor_type consumed_at expires_at =
    same_actor_type actor_type wanted && (not (is_set consumed_at) && not (ltb expires_at now))

-- The record of a verification link, or the error.
unfoldable pub check_verification :
    AuthActor
    → Time
    → Option (RowId × EmailVerificationToken)
    → Result (RowId × EmailVerificationToken)
check_verification wanted now none = err invalid_token
check_verification wanted now (some (i, r)) =
    elim (is_usable wanted now r.actor_type r.consumed_at r.expires_at) [
      | true ↦ ok (i, r)
      | false ↦ err invalid_token
    ]

-- The record of a password link, or the error.
unfoldable pub check_reset :
    AuthActor → Time → Option (RowId × PasswordResetToken) → Result (RowId × PasswordResetToken)
check_reset wanted now none = err invalid_token
check_reset wanted now (some (i, r)) =
    elim (is_usable wanted now r.actor_type r.consumed_at r.expires_at) [
      | true ↦ ok (i, r)
      | false ↦ err invalid_token
    ]

module _ (T : Tables) where
  -- `findUnique({ where: { tokenHash } })`
  abbrev pub find_verification : Text → Db T → Option (RowId × EmailVerificationToken)
  find_verification hash db = T.find_first db.verification_tokens (λ r. text_eq r.token_hash hash)

  abbrev pub find_reset : Text → Db T → Option (RowId × PasswordResetToken)
  find_reset hash db = T.find_first db.reset_tokens (λ r. text_eq r.token_hash hash)

  -- `passwordResetToken.create`, for a token with this hash.
  unfoldable pub create_reset_token :
      RowId → AuthActor → RowId → Text → Time → Action (Db T) (Unit {0})
  create_reset_token tenant actor_type account hash expires_at = modify (λ db. record db {
    reset_tokens =
        (T.create db.reset_tokens (record {
          tenant_id = tenant;
          actor_type = actor_type;
          actor_id = account;
          token_hash = hash;
          expires_at = expires_at;
          consumed_at = none;
        })).1;
  })

  -- `passwordResetToken.update({ data: { consumedAt: new Date() } })`
  unfoldable pub consume_reset : Time → RowId → PasswordResetToken → Action (Db T) (Unit {0})
  consume_reset now i r = modify (λ db. record db {
    reset_tokens = T.write db.reset_tokens i (record r { consumed_at = some now });
  })
