-- ===== src/Sessions/Tests.antt =====
-- The session theorems at work on one session.
use dohost.Base.{some, ltb, if◌then◌else◌, zero, suc, ◌+◌, ◌≡◌, refl, none, [], ◌∷◌, Text, codes}
use dohost.Errors.{ok}
use dohost.Store.Memory.{memory, memory-IsLawful}
use dohost.Data.{Db, StaffSession}
use dohost.Sample.{shop}
use dohost.Sessions.{
  StaffSessionInput, session_ttl, create_staff_session, revoke_staff_session,
  validate_staff_session, load_session_user,
}
use dohost.Sessions.Revoked.{validate-revoke}
use dohost.Sessions.Lookup.{SessionsUnique, has_hash}
use dohost.Sessions.Holders.{hold, release, holders_of}
use dohost.Sessions.Refinement.{sessions_refine, validate-create}

abbrev hashed : Text → Text
hashed t = b'#' ∷ t

abbrev open_session : StaffSession
open_session = record {
  tenant_id = 0;
  user_id = 3;
  token_hash = codes "#secret";
  ip = none;
  user_agent = none;
  last_seen_at = 1;
  expires_at = 100;
  revoked_at = none;
  revoked_reason = none;
}

abbrev open_shop : Db memory
open_shop = record shop { staff_sessions = open_session ∷ [] }

abbrev logged_out : Db memory
logged_out =
    (revoke_staff_session memory hashed 5 (codes "secret") (codes "user_logout") open_shop).1

validate-revoke_example :
    validate_staff_session memory hashed 6 (codes "secret") logged_out ≡ (ok none, logged_out)
validate-revoke_example =
    validate-revoke memory hashed memory-IsLawful 5 6 (codes "secret") (codes "user_logout")
      open_shop

one_session-SessionsUnique : SessionsUnique memory open_shop.staff_sessions
one_session-SessionsUnique h zero zero r s fi fj pi pj = refl
one_session-SessionsUnique h zero (suc j) r s fi fj pi pj = cc fj
one_session-SessionsUnique h (suc i) j r s fi fj pi pj = cc fi

abbrev visit : StaffSessionInput
visit = record { user_id = 4; tenant_id = 0; ip = none; user_agent = none }

no_new_hash : memory.find_first open_shop.staff_sessions (has_hash (hashed (codes "new"))) ≡ none
no_new_hash = refl

sessions_refine_example :
    let holders = holders_of memory open_shop.staff_sessions in
    let created =
      (create_staff_session memory hashed 6 (codes "new") visit open_shop).1.staff_sessions in
    let revoked =
      (revoke_staff_session memory hashed 6
        (codes "secret")
        (codes "logout")
        open_shop).1.staff_sessions in
    let validated = validate_staff_session memory hashed 6 (codes "secret") open_shop in
    (holders_of memory created (codes "#secret") 50
      ≡ hold (codes "#new") 4 (6 + session_ttl) holders (codes "#secret") 50)
    × (holders_of memory revoked (codes "#secret") 50
        ≡ release (codes "#secret") holders (codes "#secret") 50)
    × (validated.0 ≡ ok (load_session_user memory hashed (holders (codes "#secret") 6) validated.1))
    × (holders_of memory validated.1.staff_sessions (codes "#secret") 50
        ≡ holders (codes "#secret") 50)
    × SessionsUnique memory created
    × SessionsUnique memory revoked
    × SessionsUnique memory validated.1.staff_sessions
sessions_refine_example =
    sessions_refine memory memory-IsLawful hashed open_shop one_session-SessionsUnique 6 50
      (codes "new") (codes "secret") (codes "logout") (codes "#secret") visit no_new_hash

validate-create_example :
    let created = (create_staff_session memory hashed 6 (codes "new") visit open_shop).1 in
    let (result, after) = validate_staff_session memory hashed 9 (codes "new") created in
    result
    ≡ ok (load_session_user memory hashed (if ltb (6 + session_ttl) 9 then none else some 4) after)
validate-create_example =
    validate-create memory memory-IsLawful hashed open_shop 6 9 (codes "new") visit
      one_session-SessionsUnique no_new_hash
