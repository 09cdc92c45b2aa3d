-- ===== src/Sessions/Refinement.antt =====
-- The calls on staff sessions as operations on a map.
use dohost.Base.{◌+◌, ◌≡◌, ◌∙◌, ap, none, some, Text, text_eq_refl, ltb, if◌then◌else◌}
use dohost.Errors.{ok}
use dohost.Store.{Tables, Time, IsLawful}
use dohost.Data.{Db}
use dohost.Sessions.{
  session_ttl, StaffSessionInput, create_staff_session, load_session_user, validate_staff_session,
  revoke_staff_session,
}
use dohost.Sessions.Lookup.{has_hash, SessionsUnique}
use dohost.Sessions.Holders.{hold, release, holders_of}
use dohost.Sessions.Calls.{
  create-hold, revoke-release, validate-holder, opened-SessionsUnique, revoke-SessionsUnique,
  validate-SessionsUnique,
}

module _ (T : Tables) (laws : IsLawful T) (hash_token : Text → Text) (db : Db T)
    (only : SessionsUnique T db.staff_sessions) where
  -- The table of staff sessions, whose hashes are unique, implements a map from hashes to users.
  -- `createStaffSession`, with a token whose hash is new, holds the hash for its user until the session
  -- expires; for any token, `revokeStaffSession` releases its hash, and `validateStaffSession` loads the
  -- user who holds its hash, if there is one, and leaves the map as it was. Each of the three leaves
  -- the hashes unique.
  pub sessions_refine :
      (now t : Time) (new token reason h : Text) (input : StaffSessionInput)
      → T.find_first db.staff_sessions (has_hash (hash_token new)) ≡ none
      → let hash = hash_token token in
        let holders = holders_of T db.staff_sessions in
        let created = (create_staff_session T hash_token now new input db).1.staff_sessions in
        let revoked = (revoke_staff_session T hash_token now token reason db).1.staff_sessions in
        let validated = validate_staff_session T hash_token now token db in
        (holders_of T created h t
          ≡ hold (hash_token new) input.user_id (now + session_ttl) holders h t)
        × (holders_of T revoked h t ≡ release hash holders h t)
        × (validated.0 ≡ ok (load_session_user T hash_token (holders hash now) validated.1))
        × (holders_of T validated.1.staff_sessions h t ≡ holders h t)
        × SessionsUnique T created
        × SessionsUnique T revoked
        × SessionsUnique T validated.1.staff_sessions
  sessions_refine now t new token reason h input fresh =
      let (loaded, same) = validate-holder T laws hash_token db only now token in
      (
        create-hold T laws hash_token db only now new input h t fresh,
        revoke-release T laws hash_token db only now token reason h t,
        loaded,
        same h t,
        opened-SessionsUnique T laws hash_token db only now new input fresh,
        revoke-SessionsUnique T laws hash_token db only now token reason,
        validate-SessionsUnique T laws hash_token db only now token,
      )

-- After `createStaffSession` with a token whose hash is new, where the hashes are unique,
-- `validateStaffSession` with that token loads the user of the session until it expires, and nobody
-- from then on.
pub validate-create :
    (T : Tables) (laws : IsLawful T) (hash_token : Text → Text) (db : Db T) (now later : Time)
    (token : Text) (input : StaffSessionInput)
    → SessionsUnique T db.staff_sessions
    → T.find_first db.staff_sessions (has_hash (hash_token token)) ≡ none
    → let created = (create_staff_session T hash_token now token input db).1 in
      let (result, after) = validate_staff_session T hash_token later token created in
      result
      ≡ ok (
          load_session_user T hash_token
            (if ltb (now + session_ttl) later then none else some input.user_id)
            after)
validate-create T laws hash_token db now later token input only fresh =
    let hash = hash_token token in
    let created = (create_staff_session T hash_token now token input db).1 in
    let after = (validate_staff_session T hash_token later token created).1 in
    let holder = create-hold T laws hash_token db only now token input hash later fresh in
    (validate-holder T laws hash_token created
      (opened-SessionsUnique T laws hash_token db only now token input fresh) later token).0
    ∙ ap (λ u. ok (load_session_user T hash_token u after)) (holder ∙ rw (text_eq_refl hash))
