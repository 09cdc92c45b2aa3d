-- ===== src/Outside.antt =====
-- What the account services take from outside the repository: the configuration, the cryptographic
-- libraries and the job queue. Tokens and salts that are drawn at random are arguments of the calls.
use dohost.Base.{Bool, Option, List, Text}
use dohost.Errors.{Result}
use dohost.Store.{RowId, Time}
use dohost.Data.{EmailTemplate}

-- `EmailJobPayload`, with the rest of what `queueEmail` hands over; `props` are texts by name.
pub record EmailJob : Type 0 where
  pub email_log_id : RowId
  pub to : Text
  pub subject : Text
  pub template : EmailTemplate
  pub props : List (Text × Text)
  pub related_entity_type : Option Text
  pub related_entity_id : Option RowId

pub record Outside : Type 0 where
  -- `getEnv()`
  pub app_name : Text
  pub app_url : Text
  pub default_tenant_slug : Text
  -- `process.env.DEFAULT_TENANT_SLUG`
  pub env_tenant_slug : Option Text
  -- an id as a string
  pub id_text : RowId → Text
  -- sha256, of `hashToken`
  pub hash_token : Text → Text
  -- Argon2id with a salt, of `hashPassword`, and its check, which throws on a hash it cannot read
  pub hash_password : Text → Text → Text
  pub verify_password : Text → Text → Result Bool
  -- `verifyTotpToken`, at a time
  pub verify_totp : Time → Text → Text → Bool
  -- `totpProvisioningUri` and `totpQrCodeDataUrl`, for a secret, an account and an issuer
  pub totp_qr_code : Text → Text → Text → Text
  -- `Buffer.toString("base64")` and `Buffer.from(text, "base64")`
  pub to_base64 : Text → Text
  pub from_base64 : Text → Text
  -- `ENCRYPTION_KEY`, in base64
  pub encryption_key : Text
  -- `Buffer.from(text, "utf8")`, which the cipher does too, and `Buffer.toString("utf8")`
  pub to_utf8 : Text → Text
  pub from_utf8 : Text → Text
  -- AES-256-GCM on bytes: the data and the tag of some bytes under a key and an initial vector, and the
  -- way back, which throws where the key, the vector or the tag is not as long as it must be or the
  -- tag does not fit
  pub encipher : Text → Text → Text → Text × Text
  pub decipher : Text → Text → Text → Text → Result Text
  -- `queue.add`, which may throw
  pub enqueue : EmailJob → Result (Unit {0})
