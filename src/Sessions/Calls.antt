-- ===== src/Sessions/Calls.antt =====
-- The calls on staff sessions, one by one, on the map that the table stands for.
use mathlib.Core.Option
use mathlib.Core.Option.{some-injective}
use dohost.Base.{
  ◌+◌, ◌≡◌, refl, ◌∙◌, ap, sym, true, false, none, some, Text, text_eq, text_eq_iff, inl, inr, ◌==◌,
  ==_iff, Bool-cases, Option-cases, if◌then◌else◌,
}
use dohost.Errors.{ok}
use dohost.Store.{RowId, Tables, Time, IsLawful}
use dohost.Store.Queries.{find_first-create}
use dohost.Data.{Db, StaffSession}
use dohost.Sessions.{
  session_ttl, StaffSessionInput, is_live, create_staff_session, touch_staff_session,
  find_staff_session, load_session_user, validate_staff_session, revoke_staff_session,
}
use dohost.Sessions.Revoked.{revoked}
use dohost.Sessions.Lookup.{
  has_hash, SessionsUnique, find-create_other, find-change, create-SessionsUnique,
  change-SessionsUnique,
}
use dohost.Sessions.Holders.{
  hold, release, holder_of, holders_of, opened, text_eq-swap, holder_of-live, both_none,
  revoked-hash, revoked-holder, seen, seen-hash, seen-other, seen-holder,
}

module _ (T : Tables) (laws : IsLawful T) (hash_token : Text → Text) (db : Db T)
    (only : SessionsUnique T db.staff_sessions) where
  pub create-hold :
      (now : Time) (token : Text) (input : StaffSessionInput) (h : Text) (t : Time)
      → T.find_first db.staff_sessions (has_hash (hash_token token)) ≡ none
      → holders_of T (create_staff_session T hash_token now token input db).1.staff_sessions h t
        ≡ hold
            (hash_token token)
            input.user_id
            (now + session_ttl)
            (holders_of T db.staff_sessions)
            h
            t
  unfolding create_staff_session
  create-hold now token input h t fresh = elim (Bool-cases (text_eq h (hash_token token))) [
    | inl same ↦
        let hash = hash_token token in
        let one : h ≡ hash = (text_eq_iff h hash).0 same in
        ap (holder_of t) (
          find_first-create T laws db.staff_sessions (has_hash h) (opened hash now input)
            (text_eq-swap h hash true same)
            (ap (λ x. T.find_first db.staff_sessions (has_hash x)) one ∙ fresh))
        ∙ (holder_of-live t (now + session_ttl)
              (T.create db.staff_sessions (opened hash now input)).0 input.user_id
              (opened hash now input) refl refl refl
            ∙ rw same)
    | inr other ↦
        let hash = hash_token token in
        ap (holder_of t) (
          find-create_other T laws db.staff_sessions only (opened hash now input) h
            (text_eq-swap h hash false other))
        ∙ rw other
  ]

  pub revoke-release :
      (now : Time) (token reason h : Text) (t : Time)
      → holders_of T (revoke_staff_session T hash_token now token reason db).1.staff_sessions h t
        ≡ release (hash_token token) (holders_of T db.staff_sessions) h t
  unfolding revoke_staff_session
  revoke-release now token reason h t =
      let hash = hash_token token in
      let sessions = db.staff_sessions in
      ap (holder_of t) (
        find-change T laws sessions
          (revoke_staff_session T hash_token now token reason db).1.staff_sessions
          (λ i. revoked now hash reason) (λ i. laws.find-update_many sessions _ _ i)
          (λ i. revoked-hash now hash reason) only h)
      ∙ elim (Option-cases (T.find_first sessions (has_hash h))) [
        | inl missing ↦
            ap
              (λ o.
                holder_of t
                  (Option.map (λ (x : RowId × StaffSession). (x.0, revoked now hash reason x.1)) o))
              missing
            ∙ (sym (both_none (text_eq h hash))
                ∙ ap (λ o. if text_eq h hash then none else holder_of t o) (sym missing))
        | inr ((i, s), e) ↦
            let (found, fits) = laws.find_first-some sessions (has_hash h) i s e in
            ap
              (λ o.
                holder_of t
                  (Option.map (λ (x : RowId × StaffSession). (x.0, revoked now hash reason x.1)) o))
              e
            ∙ (revoked-holder now t hash reason h i s fits
                ∙ ap (λ o. if text_eq h hash then none else holder_of t o) (sym e))
      ]

  seen-row :
      (now : Time) (i : RowId) (s : StaffSession)
      → T.find db.staff_sessions i ≡ some s
      → (j : RowId)
      → T.find (T.write db.staff_sessions i (record s { last_seen_at = now })) j
        ≡ Option.map (seen now i j) (T.find db.staff_sessions j)
  seen-row now i s found j =
      laws.find-write db.staff_sessions i j (record s { last_seen_at = now }) s found
      ∙ elim (Bool-cases (j == i)) [
        | inl hit ↦
            let there : T.find db.staff_sessions j ≡ some s =
              ap (T.find db.staff_sessions) ((==_iff j i).0 hit) ∙ found in
            rw (there, hit)
        | inr miss ↦
            ap
              (λ b.
                if b then some (record s { last_seen_at = now }) else T.find db.staff_sessions j)
              miss
            ∙ seen-other now i j miss (T.find db.staff_sessions j)
      ]

  -- The row that a look-up touches.
  touch-holders :
      (now : Time) (i : RowId) (s : StaffSession) (h : Text) (t : Time)
      → T.find db.staff_sessions i ≡ some s
      → holders_of T (T.write db.staff_sessions i (record s { last_seen_at = now })) h t
        ≡ holders_of T db.staff_sessions h t
  touch-holders now i s h t found =
      let sessions = db.staff_sessions in
      ap (holder_of t) (
        find-change T laws sessions (T.write sessions i (record s { last_seen_at = now }))
          (seen now i) (seen-row now i s found) (seen-hash now i) only h)
      ∙ seen-holder now i t (T.find_first sessions (has_hash h))

  -- Each call leaves the hashes unique.
  pub opened-SessionsUnique :
      (now : Time) (token : Text) (input : StaffSessionInput)
      → T.find_first db.staff_sessions (has_hash (hash_token token)) ≡ none
      → SessionsUnique T (create_staff_session T hash_token now token input db).1.staff_sessions
  unfolding create_staff_session
  opened-SessionsUnique now token input fresh =
      create-SessionsUnique T laws db.staff_sessions only (opened (hash_token token) now input)
        fresh

  pub revoke-SessionsUnique :
      (now : Time) (token reason : Text)
      → SessionsUnique T (revoke_staff_session T hash_token now token reason db).1.staff_sessions
  unfolding revoke_staff_session
  revoke-SessionsUnique now token reason =
      change-SessionsUnique T laws db.staff_sessions
        (revoke_staff_session T hash_token now token reason db).1.staff_sessions
        (λ i. revoked now (hash_token token) reason)
        (λ i. laws.find-update_many db.staff_sessions _ _ i)
        (λ i. revoked-hash now (hash_token token) reason) only

  pub validate-SessionsUnique :
      (now : Time) (token : Text)
      → SessionsUnique T (validate_staff_session T hash_token now token db).1.staff_sessions
  unfolding validate_staff_session find_staff_session touch_staff_session
  validate-SessionsUnique now token =
      let hash = hash_token token in
      elim (Option-cases (T.find_first db.staff_sessions (has_hash hash))) [
        | inl missing ↦ rw missing only
        | inr ((i, s), e) ↦
            let (found, fits) = laws.find_first-some db.staff_sessions (has_hash hash) i s e in
            elim (Bool-cases (is_live s.revoked_at s.expires_at now)) [
              | inr dead ↦ rw (e, dead) only
              | inl live ↦
                  rw (e, live)
                    (change-SessionsUnique T laws db.staff_sessions
                      (T.write db.staff_sessions i (record s { last_seen_at = now })) (seen now i)
                      (seen-row now i s found) (seen-hash now i) only)
            ]
      ]

  pub validate-holder :
      (now : Time) (token : Text)
      → let (result, after) = validate_staff_session T hash_token now token db in
        (result
          ≡ ok (
              load_session_user T hash_token
                (holders_of T db.staff_sessions (hash_token token) now)
                after))
        × ((h : Text) (t : Time)
            → holders_of T after.staff_sessions h t ≡ holders_of T db.staff_sessions h t)
  unfolding validate_staff_session find_staff_session touch_staff_session load_session_user
  validate-holder now token =
      let hash = hash_token token in
      elim (Option-cases (T.find_first db.staff_sessions (has_hash hash))) [
        | inl missing ↦ rw missing (refl, λ h t. refl)
        | inr ((i, s), e) ↦
            let (found, fits) = laws.find_first-some db.staff_sessions (has_hash hash) i s e in
            elim (Bool-cases (is_live s.revoked_at s.expires_at now)) [
              | inr dead ↦ rw (e, dead) (refl, λ h t. refl)
              | inl live ↦ rw (e, live) (refl, λ h t. touch-holders now i s h t found)
            ]
      ]
