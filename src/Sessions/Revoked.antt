-- ===== src/Sessions/Revoked.antt =====
-- What a revoked session is worth.
use mathlib.Core.Option
use mathlib.Core.Option.{some-injective}
use dohost.Base.{
  ◌≡◌, refl, ◌∙◌, ap, sym, true, false, not, none, some, Text, text_eq, inl, inr, ◌&&◌, Bool-cases,
  Option-cases, if◌then◌else◌,
}
use dohost.Errors.{ok}
use dohost.Store.{RowId, Tables, IsLawful}
use dohost.Data.{Db, Time, StaffSession}
use dohost.Sessions.{
  is_some, is_live, revoke_staff_session, touch_staff_session, find_staff_session,
  validate_staff_session, load_session_user,
}

-- The row that `revokeStaffSession` leaves of a row.
abbrev pub revoked : Time → Text → Text → StaffSession → StaffSession
revoked now hash reason s =
    if text_eq s.token_hash hash && not (is_some s.revoked_at)
    then record s { revoked_at = some now; revoked_reason = some reason }
    else s

pub revoked-dead :
    (now later : Time) (hash reason : Text) (s : StaffSession)
    → text_eq (revoked now hash reason s).token_hash hash ≡ true
    → is_live (revoked now hash reason s).revoked_at (revoked now hash reason s).expires_at later
      ≡ false
revoked-dead now later hash reason s h = elim (Bool-cases (text_eq s.token_hash hash)) [
  | inr other ↦ cc (other, h)
  | inl same ↦ elim (Option-cases s.revoked_at) [
    | inl live ↦ rw (same, live)
    | inr (t, gone) ↦ rw (same, gone)
  ]
]

touch-dead :
    (T : Tables) (hash_token : Text → Text) (now : Time) (i : RowId) (s : StaffSession) (db : Db T)
    → is_live s.revoked_at s.expires_at now ≡ false
    → touch_staff_session T hash_token now (some (i, s)) db ≡ (ok none, db)
unfolding touch_staff_session
touch-dead T hash_token now i s db dead = rw dead

touch-none :
    (T : Tables) (hash_token : Text → Text) (now : Time) (db : Db T)
    → touch_staff_session T hash_token now none db ≡ (ok none, db)
unfolding touch_staff_session
touch-none T hash_token now db = refl

-- A look-up after a call of `revokeStaffSession` with the same token finds nobody.
find-revoke :
    (T : Tables) (hash_token : Text → Text) (laws : IsLawful T) (now later : Time)
    (token reason : Text) (db : Db T)
    → let after = (revoke_staff_session T hash_token now token reason db).1 in
      find_staff_session T hash_token later token after ≡ (ok none, after)
unfolding find_staff_session revoke_staff_session
find-revoke T hash_token laws now later token reason db =
    let hash = hash_token token in
    let after = (revoke_staff_session T hash_token now token reason db).1 in
    let test = λ (s : StaffSession). text_eq s.token_hash hash in
    elim (Option-cases (T.find_first after.staff_sessions test)) [
      | inl missing ↦
          ap (λ r. touch_staff_session T hash_token later r after) missing
          ∙ touch-none T hash_token later after
      | inr ((i, s), e) ↦
          let (there, fits) = laws.find_first-some after.staff_sessions test i s e in
          let changed : T.find after.staff_sessions i
              ≡ Option.map (revoked now hash reason) (T.find db.staff_sessions i) =
            laws.find-update_many db.staff_sessions _ _ i in
          ap (λ r. touch_staff_session T hash_token later r after) e
          ∙ touch-dead T hash_token later i s after
              (elim (Option-cases (T.find db.staff_sessions i)) [
                | inl gone ↦ cc (there, changed, gone)
                | inr (r, was) ↦
                    let is_s : revoked now hash reason r ≡ s =
                      some-injective _ _ (sym (changed ∙ rw was) ∙ there) in
                    rw (← is_s) (
                      revoked-dead now later hash reason r
                        (ap (λ x. text_eq x.token_hash hash) is_s ∙ fits))
              ])
    ]

-- After a call of `revokeStaffSession` with a token, a later call of `validateStaffSession` with that
-- token loads nobody and changes nothing.
pub validate-revoke :
    (T : Tables) (hash_token : Text → Text) (laws : IsLawful T) (now later : Time)
    (token reason : Text) (db : Db T)
    → let after = (revoke_staff_session T hash_token now token reason db).1 in
      validate_staff_session T hash_token later token after ≡ (ok none, after)
unfolding validate_staff_session load_session_user
validate-revoke T hash_token laws now later token reason db =
    rw (find-revoke T hash_token laws now later token reason db)
