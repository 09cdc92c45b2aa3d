-- ===== src/LoginGuard.antt =====
-- packages/core/src/login-guard.ts: the record of log-in attempts and the lock-out that they cause.
-- `now` is the time at which the call reads the clock.
pub mod Lockout
pub mod Tests
use dohost.Base.{
  ℕ, ◌+◌, ◌-◌, ◌*◌, Bool, true, false, not, Option, List, [], ◌∷◌, map, Text, text_eq, ◌==◌, leb,
  ◌&&◌, if◌then◌else◌,
}
use dohost.Service.{Action, modify}
use dohost.Store.{RowId, Tables}
use dohost.Data.{Db, Time, AuthActor, staff, client_contact, LoginEvent}

-- MAX_FAILED_ATTEMPTS
abbrev pub max_failed_attempts : ℕ
max_failed_attempts = 5

-- LOCKOUT_WINDOW_MINUTES
abbrev pub lockout_window_minutes : ℕ
lockout_window_minutes = 15

-- LOCKOUT_DURATION_MINUTES
abbrev pub lockout_duration_minutes : ℕ
lockout_duration_minutes = 15

abbrev pub minutes : ℕ → Time
minutes n = n * 60_000

-- `text.toLowerCase()`, for the letters of ASCII; other characters stay.
abbrev pub lower_char : ℕ → ℕ
lower_char c = if leb b'A' c && leb c b'Z' then c + 32 else c

unfoldable pub to_lower_case : Text → Text
to_lower_case t = map lower_char t

abbrev pub same_actor_type : AuthActor → AuthActor → Bool
same_actor_type staff staff = true
same_actor_type client_contact client_contact = true
same_actor_type _ _ = false

-- The input of `recordLoginAttempt`.
pub record LoginAttempt : Type 0 where
  pub tenant_id : RowId
  pub actor_type : AuthActor
  pub actor_id : Option RowId
  pub email : Text
  pub success : Bool
  pub reason : Option Text
  pub ip : Option Text
  pub user_agent : Option Text

-- The input of `shouldLockOut`.
pub record LockoutQuery : Type 0 where
  pub tenant_id : RowId
  pub actor_type : AuthActor
  pub email : Text

-- The row that is created; the database fills in the time.
unfoldable pub login_event : Time → LoginAttempt → LoginEvent
login_event now input = record {
  tenant_id = input.tenant_id;
  actor_type = input.actor_type;
  actor_id = input.actor_id;
  email = to_lower_case input.email;
  success = input.success;
  reason = input.reason;
  ip = input.ip;
  user_agent = input.user_agent;
  created_at = now;
}

-- The start of the window, `Date.now() - LOCKOUT_WINDOW_MINUTES * 60_000`; no event is before time 0.
abbrev pub window_start : Time → Time
window_start now = now - minutes lockout_window_minutes

-- The `where` of the count.
unfoldable pub is_recent_failure : Time → LockoutQuery → LoginEvent → Bool
is_recent_failure since input e =
    (e.tenant_id == input.tenant_id)
    && (same_actor_type e.actor_type input.actor_type
        && (text_eq e.email (to_lower_case input.email)
            && (not e.success && leb since e.created_at)))

module _ (T : Tables) where
  -- `recordLoginAttempt`
  unfoldable pub record_login_attempt : Time → LoginAttempt → Action (Db T) (Unit {0})
  record_login_attempt now input =
      modify
        (λ db. record db { login_events = (T.create db.login_events (login_event now input)).1 })

  -- `recentFailures`
  unfoldable pub recent_failures : Time → LockoutQuery → Db T → ℕ
  recent_failures now input db =
      T.count db.login_events (is_recent_failure (window_start now) input)

  -- `shouldLockOut`
  unfoldable pub should_lock_out : Time → LockoutQuery → Db T → Bool
  should_lock_out now input db = leb max_failed_attempts (recent_failures now input db)

-- `computeLockoutExpiry`
unfoldable pub compute_lockout_expiry : Time → Time
compute_lockout_expiry now = now + minutes lockout_duration_minutes
