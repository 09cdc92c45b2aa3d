-- ===== src/Staff/Disabled.antt =====
-- What is left of a staff user who was disabled.
use mathlib.Core.Option
use mathlib.Core.Option.{some-injective}
use dohost.Base.{
  ◌≡◌, ◌∙◌, ap, sym, true, none, some, inl, inr, ◌==◌, ==_refl, Bool-cases, Option-cases,
  if◌then◌else◌,
}
use dohost.Service.{transaction_ok, checked-ok}
use dohost.Errors.{ok}
use dohost.Permissions.{staff_manage}
use dohost.Rbac.{require_permission}
use dohost.Store.{RowId, Tables, Time, IsLawful}
use dohost.Data.{Db, StaffUser, StaffSession, AccountStatus}
use dohost.Actors.{StaffActor}
use dohost.Audit.{record_audit_log}
use dohost.Tokens.{is_set}
use dohost.Staff.{load_staff_actor, staff_actor}
use dohost.Staff.Disable.{is_open_session_of, end_session, disable_user, disable_staff_user}

-- The row that is left of a session, if it is of the user.
end_session-IsRevoked :
    (user_id : RowId) (now : Time) (r s : StaffSession)
    → (if is_open_session_of user_id r then end_session now r else r) ≡ s
    → s.user_id ≡ user_id
    → is_set s.revoked_at ≡ true
end_session-IsRevoked user_id now r s h of_user = elim (Bool-cases (r.user_id == user_id)) [
  | inr other ↦
      let same : r ≡ s = rw other at h in
      cc (other, ap (λ x. x.user_id) same, of_user, ==_refl user_id)
  | inl of_it ↦ elim (Bool-cases (is_set r.revoked_at)) [
    | inl gone ↦
        let same : r ≡ s = rw (of_it, gone) at h in ap (λ x. is_set x.revoked_at) (sym same) ∙ gone
    | inr live ↦
        let same : end_session now r ≡ s = rw (of_it, live) at h in
        ap (λ x. is_set x.revoked_at) (sym same)
  ]
]

module _ (T : Tables) where
  load_disabled :
      (user_id : RowId) (user : StaffUser) (d : Db T)
      → T.find d.staff_users user_id ≡ some (record user { status = AccountStatus.disabled })
      → load_staff_actor T user_id d ≡ none
  unfolding load_staff_actor staff_actor
  load_disabled user_id user d h = rw h

module _ (T : Tables) (laws : IsLawful T) (now : Time) (actor : StaffActor) (user_id : RowId)
    (db after : Db T) where
  -- The user and the sessions that the call leaves.
  pub disable_staff_user-writes :
      disable_staff_user T now actor user_id db ≡ (ok tt, after)
      → (require_permission actor.permissions staff_manage ≡ ok tt)
        × ((user : StaffUser) × (T.find db.staff_users user_id ≡ some user)
            × (after.staff_users
                ≡ T.write db.staff_users user_id (record user { status = AccountStatus.disabled })))
        × (after.staff_sessions
            ≡ T.update_many db.staff_sessions (is_open_session_of user_id) (end_session now))
  unfolding disable_staff_user disable_user record_audit_log
  disable_staff_user-writes h =
      let (done, allowed, run) =
        checked-ok (require_permission actor.permissions staff_manage) _ db h in
      let written = transaction_ok (disable_user T now actor user_id) db run in
      elim (Option-cases (T.find db.staff_users user_id)) [
        | inl missing ↦ cc (rw missing at written)
        | inr (user, found) ↦
            let same = sym (ap (λ x. x.1) (rw found at written)) in
            (
              allowed,
              (user, found, ap (λ (d : Db T). d.staff_users) same),
              ap (λ (d : Db T). d.staff_sessions) same,
            )
      ]

  -- After `disableStaffUser`, which needs the permission to manage staff, the user is loaded as no
  -- actor, and each of the user's sessions is revoked.
  pub disable_staff_user-locks_out :
      disable_staff_user T now actor user_id db ≡ (ok tt, after)
      → (require_permission actor.permissions staff_manage ≡ ok tt)
        × (load_staff_actor T user_id after ≡ none)
        × ((i : RowId) (s : StaffSession)
            → T.find after.staff_sessions i ≡ some s
            → s.user_id ≡ user_id
            → is_set s.revoked_at ≡ true)
  disable_staff_user-locks_out h =
      let (allowed, (user, found, users), sessions) = disable_staff_user-writes h in
      (
        allowed,
        load_disabled T user_id user after (
            ap (λ t. T.find t user_id) users
            ∙ (laws.find-write db.staff_users user_id user_id _ user found ∙ rw (==_refl user_id))),
        λ i s at of_user.
            let row : T.find after.staff_sessions i
                ≡ Option.map (λ r. if is_open_session_of user_id r then end_session now r else r)
                    (T.find db.staff_sessions i) =
              ap (λ t. T.find t i) sessions ∙ laws.find-update_many db.staff_sessions _ _ i in
            elim (Option-cases (T.find db.staff_sessions i)) [
              | inl missing ↦ cc (row, at, missing)
              | inr (r, was) ↦
                  end_session-IsRevoked user_id now r s
                    (some-injective _ _ (sym (row ∙ rw was) ∙ at)) of_user
            ],
      )
