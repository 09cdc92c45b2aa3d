-- ===== src/LoginGuard/Lockout.antt =====
-- When the log-in guard locks: the failures of one account in the window.
use dohost.Base.{List, [], ◌∷◌}
use dohost.Store.{Tables}
use dohost.Data.{Db, Time}
use dohost.LoginGuard.{LoginAttempt, LockoutQuery, record_login_attempt}

abbrev pub account_of : LoginAttempt → LockoutQuery
account_of a = record { tenant_id = a.tenant_id; actor_type = a.actor_type; email = a.email }

-- The attempt, made at each of these times, the last one first.
pub record_all : (T : Tables) → LoginAttempt → List Time → Db T → Db T
record_all T attempt [] db = db
record_all T attempt (t ∷ times) db =
    (record_login_attempt T t attempt (record_all T attempt times db)).1
