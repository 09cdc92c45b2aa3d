-- ===== src/Staff/Admission.antt =====
-- Who is let in by `authenticateStaffUser`, and what a refusal says.
use dohost.Base.{
  ◌≡◌, refl, ◌∙◌, ap, sym, true, false, Option, none, some, Text, codes, inl, inr, Bool-cases,
  Option-cases, if◌then◌else◌, arith,
}
use dohost.Service.{◌>>◌}
use dohost.Errors.{Result, ok, err, Result-cases, verdict-cases}
use dohost.Store.{RowId, Tables, Time}
use dohost.Data.{Db, StaffUser, AuthActor}
use dohost.Actors.{is_truthy}
use dohost.Outside.{Outside}
use dohost.LoginGuard.{record_login_attempt, should_lock_out}
use dohost.Texts.{normalize_email, or_empty}
use dohost.Crypto.{decrypt_secret}
use dohost.Clients.{is_enabled}
use dohost.Clients.Login.{invalid_credentials, is_locked}
use dohost.Staff.{is_staff_of}
use dohost.Staff.Login.{
  StaffLoginInput, AuthenticatedStaff, staff_refusal, record_staff_attempt, fail_staff,
  let_staff_in, judge_totp, check_totp, check_second_factor, check_staff_password, admit_staff,
  log_staff_in, authenticate_staff_user, lock_staff_if_due,
}

-- The second factor of a user, where it is needed, has been shown.
abbrev pub HasSecondFactor : Outside → Time → StaffUser → StaffLoginInput → Type 0
HasSecondFactor outside now user input =
    user.two_factor_enabled ≡ true
    → (secret : Text) × (decrypt_secret outside (or_empty user.two_factor_secret) ≡ ok secret)
      × (outside.verify_totp now secret (or_empty input.totp_token) ≡ true)

-- What is known of a user that was let in.
pub record IsAdmitted (T : Tables) (outside : Outside) (now : Time) (input : StaffLoginInput)
    (db : Db T) (who : AuthenticatedStaff) : Type 0 where
  pub user : StaffUser
  pub found :
      T.find_first db.staff_users (is_staff_of input.tenant_id (normalize_email input.email))
      ≡ some (who.id, user)
  pub enabled : is_enabled user.status user.deleted_at ≡ true
  pub unlocked : is_locked now user.locked_until ≡ false
  pub password : outside.verify_password user.password_hash input.password ≡ ok true
  pub second_factor : HasSecondFactor outside now user input

refusal-none :
    (now : Time) (user : StaffUser)
    → staff_refusal now user ≡ none
    → (is_enabled user.status user.deleted_at ≡ true) × (is_locked now user.locked_until ≡ false)
unfolding staff_refusal
refusal-none now user h = elim (Bool-cases (is_enabled user.status user.deleted_at)) [
  | inr disabled ↦ cc (rw disabled at h)
  | inl enabled ↦ elim (Bool-cases (is_locked now user.locked_until)) [
    | inl locked ↦ cc (rw (enabled, locked) at h)
    | inr unlocked ↦ (enabled, unlocked)
  ]
]

module _ (T : Tables) (outside : Outside) (now : Time) (input : StaffLoginInput)
    (email : Text) where
  fail-throws :
      (id : Option RowId) (reason : Text) (db : Db T)
      → (fail_staff T outside now input email id reason db).0 ≡ err invalid_credentials
  unfolding fail_staff record_staff_attempt record_login_attempt
  fail-throws id reason db = refl

  let_in-id :
      (id : RowId) (user : StaffUser) (db : Db T)
      → (let_staff_in T outside now input email id user db).0
        ≡ ok (record {
          id = id;
          tenant_id = input.tenant_id;
          email = user.email;
          name = user.name;
          must_change_password = user.must_change_password;
        })
  unfolding let_staff_in record_staff_attempt record_login_attempt
  let_in-id id user db = refl

  who-id :
      (id : RowId) (user : StaffUser) (who : AuthenticatedStaff)
      → ◌≡◌ {A = Result AuthenticatedStaff}
          (ok (record {
            id = id;
            tenant_id = input.tenant_id;
            email = user.email;
            name = user.name;
            must_change_password = user.must_change_password;
          }))
          (ok who)
      → who.id ≡ id
  who-id id user who h = ground (arith, h)

  judged-shown :
      (id : RowId) (user : StaffUser) (secret : Text) (db : Db T) (who : AuthenticatedStaff)
      → decrypt_secret outside (or_empty user.two_factor_secret) ≡ ok secret
      → (judge_totp T outside now input email id user secret db).0 ≡ ok who
      → (who.id ≡ id) × HasSecondFactor outside now user input
  unfolding judge_totp
  judged-shown id user secret db who read h =
      elim (Bool-cases (outside.verify_totp now secret (or_empty input.totp_token))) [
        | inr wrong ↦ cc (rw wrong at h, fail-throws (some id) (codes "bad_totp") db)
        | inl right ↦ (
          who-id id user who (sym (let_in-id id user db) ∙ (rw right at h)),
          λ on. (secret, read, right),
        )
      ]

  totp-shown :
      (id : RowId) (user : StaffUser) (db : Db T) (who : AuthenticatedStaff)
      → (check_totp T outside now input email id user db).0 ≡ ok who
      → (who.id ≡ id) × HasSecondFactor outside now user input
  unfolding check_totp
  totp-shown id user db who h = elim (Bool-cases (is_truthy input.totp_token)) [
    | inr absent ↦ cc (rw absent at h)
    | inl entered ↦ elim (Result-cases (decrypt_secret outside (or_empty user.two_factor_secret))) [
      | inr (e, broken) ↦ cc (rw (entered, broken) at h)
      | inl (secret, read) ↦ judged-shown id user secret db who read (rw (entered, read) at h)
    ]
  ]

  with_factor :
      (id : RowId) (user : StaffUser) (db : Db T)
      → user.two_factor_enabled ≡ true
      → check_second_factor T outside now input email id user db
        ≡ check_totp T outside now input email id user db
  unfolding check_second_factor
  with_factor id user db on =
      ap
        (λ b.
          (if b
              then check_totp T outside now input email id user
              else let_staff_in T outside now input email id user)
            db)
        on

  without_factor :
      (id : RowId) (user : StaffUser) (db : Db T)
      → user.two_factor_enabled ≡ false
      → check_second_factor T outside now input email id user db
        ≡ let_staff_in T outside now input email id user db
  unfolding check_second_factor
  without_factor id user db off =
      ap
        (λ b.
          (if b
              then check_totp T outside now input email id user
              else let_staff_in T outside now input email id user)
            db)
        off

  -- What a log-in that got past the password has shown.
  second_factor-shown :
      (id : RowId) (user : StaffUser) (db : Db T) (who : AuthenticatedStaff)
      → (check_second_factor T outside now input email id user db).0 ≡ ok who
      → (who.id ≡ id) × HasSecondFactor outside now user input
  second_factor-shown id user db who h = elim (Bool-cases user.two_factor_enabled) [
    | inr off ↦
        let admitted =
          sym (let_in-id id user db) ∙ (ap (λ x. x.0) (sym (without_factor id user db off)) ∙ h) in
        (who-id id user who admitted, λ on. cc (on, off))
    | inl on ↦ totp-shown id user db who (ap (λ x. x.0) (sym (with_factor id user db on)) ∙ h)
  ]

  -- A wrong password, whether it locks the user or not.
  wrong-throws :
      (id : RowId) (user : StaffUser) (db : Db T)
      → ((lock_staff_if_due T outside now input email id user
            >> fail_staff T outside now input email (some id) (codes "bad_password"))
          db).0
        ≡ err invalid_credentials
  unfolding lock_staff_if_due
  wrong-throws id user db =
      elim (Bool-cases (
        should_lock_out T now
          (record { tenant_id = input.tenant_id; actor_type = AuthActor.staff; email = email })
          db)) [
            | inl due ↦ rw due (fail-throws (some id) (codes "bad_password") _)
            | inr not_due ↦ rw not_due (fail-throws (some id) (codes "bad_password") db)
          ]

  password-shown :
      (id : RowId) (user : StaffUser) (db : Db T) (who : AuthenticatedStaff)
      → (check_staff_password T outside now input email id user db).0 ≡ ok who
      → (outside.verify_password user.password_hash input.password ≡ ok true)
        × (who.id ≡ id)
        × HasSecondFactor outside now user input
  unfolding check_staff_password
  password-shown id user db who h =
      elim (verdict-cases (outside.verify_password user.password_hash input.password)) [
        | inl right ↦
            let (same, factor) = second_factor-shown id user db who (rw right at h) in
            (right, same, factor)
        | inr (inl wrong) ↦ cc (rw wrong at h, wrong-throws id user db)
        | inr (inr (e, unreadable)) ↦ cc (rw unreadable at h)
      ]

module _ (T : Tables) (outside : Outside) (now : Time) (input : StaffLoginInput) (db : Db T) where
  -- A call of `authenticateStaffUser` returns only for a user with the normalised address in the
  -- tenant, who is active and not deleted or locked, whose password verifies and who, where the second
  -- factor is on, has entered a code that verifies against the decrypted secret.
  pub authenticate_staff_user-IsAdmitted :
      (who : AuthenticatedStaff)
      → (authenticate_staff_user T outside now input db).0 ≡ ok who
      → IsAdmitted T outside now input db who
  unfolding authenticate_staff_user log_staff_in admit_staff
  authenticate_staff_user-IsAdmitted who h =
      let email = normalize_email input.email in
      elim (Option-cases (T.find_first db.staff_users (is_staff_of input.tenant_id email))) [
        | inl missing ↦ cc (
          rw missing at h,
          fail-throws T outside now input email none (codes "not_found_or_disabled") db,
        )
        | inr ((id, user), found) ↦ elim (Option-cases (staff_refusal now user)) [
          | inr (reason, why) ↦
              cc (rw (found, why) at h, fail-throws T outside now input email (some id) reason db)
          | inl passed ↦
              let (password, same, factor) =
                password-shown T outside now input email id user db who (rw (found, passed) at h) in
              let (enabled, unlocked) = refusal-none now user passed in
              record {
                user = user;
                found = found ∙ ap (λ i. some (i, user)) (sym same);
                enabled = enabled;
                unlocked = unlocked;
                password = password;
                second_factor = factor;
              }
        ]
      ]
