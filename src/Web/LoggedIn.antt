-- ===== src/Web/LoggedIn.antt =====
-- A member of staff who signs in, and the session that the sign-in opens.
use dohost.Base.{
  ◌+◌, ◌≡◌, ◌∙◌, ap, sym, false, none, some, Text, inl, inr, ltb, Bool-cases, Option-cases,
  if◌then◌else◌, arith,
}
use dohost.Service.{outcome-cases}
use dohost.Errors.{ok, Result-cases, verdict-cases}
use dohost.Store.{RowId, Tables, Time, IsLawful}
use dohost.Data.{Db, StaffSession, StaffUser, AuthActor}
use dohost.Actors.{is_truthy}
use dohost.Outside.{Outside}
use dohost.LoginGuard.{record_login_attempt, should_lock_out}
use dohost.Texts.{normalize_email, or_empty}
use dohost.Crypto.{decrypt_secret}
use dohost.Staff.{is_staff_of, load_staff_actor}
use dohost.Staff.Login.{
  StaffLoginInput, staff_refusal, record_staff_attempt, fail_staff, lock_staff_if_due, let_staff_in,
  judge_totp, check_totp, check_second_factor, check_staff_password, admit_staff, log_staff_in,
  authenticate_staff_user,
}
use dohost.Sessions.{
  session_ttl, StaffSessionInput, create_staff_session, validate_staff_session, load_session_user,
}
use dohost.Sessions.Lookup.{has_hash, SessionsUnique}
use dohost.Sessions.Refinement.{validate-create}
use dohost.Web.{or_undefined}
use dohost.Web.Session.{SignedInUser}
use dohost.Web.SignIn.{Credentials, sign_in_staff}

module _ (T : Tables) (outside : Outside) (now : Time) (input : StaffLoginInput)
    (email : Text) where
  -- The steps of a log-in leave the sessions alone.
  totp-sessions :
      (id : RowId) (user : StaffUser) (db : Db T)
      → (check_totp T outside now input email id user db).1.staff_sessions ≡ db.staff_sessions
  unfolding check_totp judge_totp let_staff_in fail_staff record_staff_attempt record_login_attempt
  totp-sessions id user db = elim (Bool-cases (is_truthy input.totp_token)) [
    | inr absent ↦ rw absent
    | inl entered ↦ elim (Result-cases (decrypt_secret outside (or_empty user.two_factor_secret))) [
      | inr (e, broken) ↦ rw (entered, broken)
      | inl (secret, read) ↦
          elim (Bool-cases (outside.verify_totp now secret (or_empty input.totp_token))) [
            | inl right ↦ rw (entered, read, right)
            | inr wrong ↦ rw (entered, read, wrong)
          ]
    ]
  ]

  second_factor-sessions :
      (id : RowId) (user : StaffUser) (db : Db T)
      → (check_second_factor T outside now input email id user db).1.staff_sessions
        ≡ db.staff_sessions
  unfolding check_second_factor let_staff_in record_staff_attempt record_login_attempt
  second_factor-sessions id user db = elim (Bool-cases user.two_factor_enabled) [
    | inl on ↦
        ap
          (λ b.
            ((if b
                then check_totp T outside now input email id user
                else let_staff_in T outside now input email id user)
              db).1.staff_sessions)
          on
        ∙ totp-sessions id user db
    | inr off ↦ rw off
  ]

  password-sessions :
      (id : RowId) (user : StaffUser) (db : Db T)
      → (check_staff_password T outside now input email id user db).1.staff_sessions
        ≡ db.staff_sessions
  unfolding check_staff_password lock_staff_if_due fail_staff record_staff_attempt
      record_login_attempt
  password-sessions id user db =
      elim (verdict-cases (outside.verify_password user.password_hash input.password)) [
        | inl right ↦ rw right (second_factor-sessions id user db)
        | inr (inr (e, unreadable)) ↦ rw unreadable
        | inr (inl wrong) ↦
            elim (Bool-cases (
              should_lock_out T now
                (record {
                  tenant_id = input.tenant_id;
                  actor_type = AuthActor.staff;
                  email = email;
                })
                db)) [ inl due ↦ rw (wrong, due) | inr not_due ↦ rw (wrong, not_due) ]
      ]

authenticate-sessions :
    (T : Tables) (outside : Outside) (now : Time) (input : StaffLoginInput) (db : Db T)
    → (authenticate_staff_user T outside now input db).1.staff_sessions ≡ db.staff_sessions
unfolding authenticate_staff_user log_staff_in admit_staff fail_staff record_staff_attempt
    record_login_attempt
authenticate-sessions T outside now input db =
    let email = normalize_email input.email in
    elim (Option-cases (T.find_first db.staff_users (is_staff_of input.tenant_id email))) [
      | inl missing ↦ rw missing
      | inr ((id, user), found) ↦ elim (Option-cases (staff_refusal now user)) [
        | inr (reason, why) ↦ rw (found, why)
        | inl passed ↦ rw (found, passed) (password-sessions T outside now input email id user db)
      ]
    ]

SessionsUnique-eq :
    (T : Tables) {s t : T.Table StaffSession} → s ≡ t → SessionsUnique T s → SessionsUnique T t
SessionsUnique-eq T {s} {t} same only h i j r q at at' fits fits' =
    only h i j r q (ap (λ x. T.find x i) same ∙ at) (ap (λ x. T.find x j) same ∙ at') fits fits'

-- The id of a user that was signed in.
signed-id :
    {signed : SignedInUser} (user : SignedInUser) → ok signed ≡ ok user → signed.id ≡ user.id
signed-id user h = ground (arith, h)

-- A sign-in of staff that returns a user, with a session token whose hash is new, opens a session:
-- until that expires, `validateStaffSession` with the token loads the actor of that user. The hashes
-- of the sessions before the sign-in are unique.
pub sign_in_staff-validates :
    (T : Tables) (laws : IsLawful T) (outside : Outside) (now later : Time) (token : Text)
    (raw : Credentials) (tenant : RowId) (db after : Db T) (user : SignedInUser)
    → SessionsUnique T db.staff_sessions
    → T.find_first db.staff_sessions (has_hash (outside.hash_token token)) ≡ none
    → ltb (now + session_ttl) later ≡ false
    → sign_in_staff T outside now token raw tenant db ≡ (ok user, after)
    → let validated = validate_staff_session T outside.hash_token later token after in
      validated.0 ≡ ok (load_staff_actor T user.id validated.1)
unfolding sign_in_staff create_staff_session load_session_user
sign_in_staff-validates T laws outside now later token raw tenant db after user only fresh in_time
      h =
    let input : StaffLoginInput = record {
      tenant_id = tenant;
      email = or_empty raw.email;
      password = or_empty raw.password;
      totp_token = or_undefined (or_empty raw.totp_token);
      ip = or_undefined (or_empty raw.ip);
      user_agent = or_undefined (or_empty raw.user_agent);
    } in
    let same = authenticate-sessions T outside now input db in
    elim (outcome-cases (authenticate_staff_user T outside now input db)) [
      | inr (e, d, failed) ↦ cc (rw failed at h)
      | inl (who, d, passed) ↦
          let visit : StaffSessionInput = record {
            user_id = who.id;
            tenant_id = tenant;
            ip = or_undefined (or_empty raw.ip);
            user_agent = or_undefined (or_empty raw.user_agent);
          } in
          let kept : d.staff_sessions ≡ db.staff_sessions =
            sym (ap (λ r. r.1.staff_sessions) passed) ∙ same in
          let h2 = rw passed at h in
          let created = (create_staff_session T outside.hash_token now token visit d).1 in
          let validated = λ (s : Db T). validate_staff_session T outside.hash_token later token s in
          let is_state : created ≡ after = ap (λ x. x.1) h2 in
          let is_id : who.id ≡ user.id = signed-id user (ap (λ x. x.0) h2) in
          let only' = SessionsUnique-eq T (sym kept) only in
          let loaded =
            validate-create T laws outside.hash_token d now later token visit only'
              (ap (λ t. T.find_first t (has_hash (outside.hash_token token))) kept ∙ fresh) in
          ap (λ s. (validated s).0) (sym is_state)
          ∙ loaded
          ∙ ap
              (λ b. ok (
                load_session_user T outside.hash_token (if b then none else some who.id)
                  (validated created).1))
              in_time
          ∙ (λ i. ok (load_staff_actor T (is_id i) (validated (is_state i)).1))
    ]
