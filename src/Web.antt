-- ===== src/Web.antt =====
-- apps/web/src/lib/actions, apps/web/src/lib/session.ts, apps/web/src/auth.ts and apps/web/src/proxy.ts:
-- the server actions of the web application, its sessions and its routing.
pub mod Routing
pub mod LoggedIn
pub mod Redirects
pub mod Tests
pub mod Session
pub mod SignIn
pub mod Accounts
pub mod Shop
pub mod Admin
pub use dohost.Texts.{or_empty}
use dohost.Base.{
  ℕ, Bool, true, false, not, Option, none, some, List, [], ◌∷◌, Text, codes, text_eq, ◌==◌, ◌&&◌,
  if◌then◌else◌,
}
use dohost.Service.{Action}
use dohost.Errors.{Result, ok, err, Error, AppError, app, money_error, record_not_found, plain}

-- What an action gives back: `{ error }`, with a text or with the message of an `AppError`;
-- `{ success }`; or the page that it redirects to.
pub data Reply : Type 0 where
  problem : Text → Reply
  app_problem : AppError → Reply
  success : Text → Reply
  redirect : Text → Reply

-- How an action ends after a call: `catch (error) { if (isAppError(error)) return ...; throw error; }`.
abbrev pub settle_reply : {S A : Type 0} → (A → Reply) → Result A × S → Result Reply × S
settle_reply reply (ok a, s) = (ok (reply a), s)
settle_reply reply (err (app e), s) = (ok (app_problem e), s)
settle_reply reply (err (money_error e), s) = (err (money_error e), s)
settle_reply reply (err record_not_found, s) = (err record_not_found, s)
settle_reply reply (err plain, s) = (err plain, s)

-- `try { await call } catch ...`, then the reply to what the call returned.
abbrev pub trying : {S A : Type 0} → Action S A → (A → Reply) → Action S Reply
trying call reply s = settle_reply reply (call s)

-- `text || undefined`
abbrev pub or_undefined : Text → Option Text
or_undefined [] = none
or_undefined (c ∷ t) = some (c ∷ t)

-- `!text`
abbrev pub is_blank : Text → Bool
is_blank [] = true
is_blank (_ ∷ _) = false

-- `text.startsWith(prefix)`
unfoldable pub starts_with : Text → Text → Bool
starts_with [] t = true
starts_with (c ∷ p) [] = false
starts_with (c ∷ p) (d ∷ t) = (c == d) && starts_with p t
