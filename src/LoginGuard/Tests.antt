-- ===== src/LoginGuard/Tests.antt =====
-- The lock-out at work on an account of the sample shop.
use dohost.Base.{false, none, List, [], ◌∷◌, codes}
use dohost.Data.{Time, staff}
use dohost.LoginGuard.{LoginAttempt}

abbrev wrong_password : LoginAttempt
wrong_password = record {
  tenant_id = 0;
  actor_type = staff;
  actor_id = none;
  email = codes "Clerk@example.com";
  success = false;
  reason = none;
  ip = none;
  user_agent = none;
}

abbrev tries : List Time
tries = 1_900_000 ∷ 1_800_000 ∷ 1_700_000 ∷ 1_600_000 ∷ 1_100_000 ∷ []
