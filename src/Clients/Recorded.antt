-- ===== src/Clients/Recorded.antt =====
-- `authenticateClientContact`: the record of the attempt, and what the password decides.
use dohost.Base.{
  ◌≡◌, refl, ap, Bool, true, false, Option, none, some, Text, codes, inl, inr, ◌⊎◌, Bool-cases,
}
use dohost.Service.{◌>>◌}
use dohost.Errors.{Error, verdict-cases, Result, ok, err}
use dohost.Store.{RowId, Tables, Time}
use dohost.Data.{Db, Client, ClientContact, AuthActor}
use dohost.Outside.{Outside}
use dohost.LoginGuard.{LoginAttempt, login_event, record_login_attempt, should_lock_out}
use dohost.Clients.Login.{
  LoginInput, AuthenticatedContact, invalid_credentials, record_attempt, fail, lock_if_due, let_in,
  check_password,
}

abbrev pub is_ok : {A : Type 0} → Result A → Bool
is_ok (ok a) = true
is_ok (err e) = false

-- One attempt was entered, with the outcome of the call; nothing else is in the log.
pub record IsRecorded (T : Tables) (now : Time) (input : LoginInput) (email : Text) (db : Db T)
    (outcome : Result AuthenticatedContact) (after : Db T) : Type 0 where
  pub attempt : LoginAttempt
  pub entered : after.login_events ≡ (T.create db.login_events (login_event now attempt)).1
  pub by_outcome : attempt.success ≡ is_ok outcome
  pub for_email : attempt.email ≡ email
  pub in_tenant : attempt.tenant_id ≡ input.tenant_id

module _ (T : Tables) (outside : Outside) (now : Time) (input : LoginInput) (email : Text) where
  pub fail-throws :
      (id : Option RowId) (reason : Text) (db : Db T)
      → (fail T outside now input email id reason db).0 ≡ err invalid_credentials
  unfolding fail record_attempt record_login_attempt
  fail-throws id reason db = refl

  -- A failure that is entered at a state whose log is that of `db`.
  pub fail-IsRecorded :
      (id : Option RowId) (reason : Text) (db d : Db T)
      → d.login_events ≡ db.login_events
      → let r = fail T outside now input email id reason d in
        IsRecorded T now input email db r.0 r.1
  unfolding fail record_attempt record_login_attempt
  fail-IsRecorded id reason db d same =
      let attempt : LoginAttempt = record {
        tenant_id = input.tenant_id;
        actor_type = AuthActor.client_contact;
        actor_id = id;
        email = email;
        success = false;
        reason = some reason;
        ip = input.ip;
        user_agent = input.user_agent;
      } in
      record {
        attempt = attempt;
        entered = ap (λ t. (T.create t (login_event now attempt)).1) same;
        by_outcome = refl;
        for_email = refl;
        in_tenant = refl;
      }

  let_in-IsRecorded :
      (id : RowId) (contact : ClientContact) (client : Client) (db : Db T)
      → let r = let_in T outside now input email id contact client db in
        IsRecorded T now input email db r.0 r.1
  unfolding let_in record_attempt record_login_attempt
  let_in-IsRecorded id contact client db = record {
    attempt = record {
      tenant_id = input.tenant_id;
      actor_type = AuthActor.client_contact;
      actor_id = some id;
      email = email;
      success = true;
      reason = none;
      ip = input.ip;
      user_agent = input.user_agent;
    };
    entered = refl;
    by_outcome = refl;
    for_email = refl;
    in_tenant = refl;
  }

  pub let_in-ok :
      (id : RowId) (contact : ClientContact) (client : Client) (db : Db T)
      → (who : AuthenticatedContact) × ((let_in T outside now input email id contact client db).0
          ≡ ok who)
        × (who.id ≡ id)
  unfolding let_in record_attempt record_login_attempt
  let_in-ok id contact client db = (_, refl, refl)

  -- A wrong password, whether it locks the contact or not.
  wrong-throws :
      (id : RowId) (contact : ClientContact) (db : Db T)
      → let r =
          (lock_if_due T outside now input email id contact
              >> fail T outside now input email (some id) (codes "bad_password"))
            db in
        (r.0 ≡ err invalid_credentials) × IsRecorded T now input email db r.0 r.1
  unfolding lock_if_due
  wrong-throws id contact db =
      let reason = codes "bad_password" in
      elim (Bool-cases (
        should_lock_out T now
          (record {
            tenant_id = input.tenant_id;
            actor_type = AuthActor.client_contact;
            email = email;
          })
          db)) [
            | inl due ↦
                rw due (fail-throws (some id) reason _, fail-IsRecorded (some id) reason db _ refl)
            | inr not_due ↦
                rw not_due
                  (fail-throws (some id) reason db, fail-IsRecorded (some id) reason db db refl)
          ]

  -- The password decides, and the attempt is recorded either way, unless the hash cannot be read.
  pub password-decides :
      (id : RowId) (contact : ClientContact) (client : Client) (db : Db T)
      → let r = check_password T outside now input email id contact client db in
        ((e : Error) × (outside.verify_password contact.password_hash input.password ≡ err e)
          × (r ≡ (err e, db)))
        ⊎ (IsRecorded T now input email db r.0 r.1
            × ((r.0 ≡ err invalid_credentials)
                ⊎ ((r.0 ≡ (let_in T outside now input email id contact client db).0)
                    × (outside.verify_password contact.password_hash input.password ≡ ok true))))
  unfolding check_password
  password-decides id contact client db =
      elim (verdict-cases (outside.verify_password contact.password_hash input.password)) [
        | inl right ↦ rw right (inr (let_in-IsRecorded id contact client db, inr (refl, refl)))
        | inr (inl wrong) ↦
            let (throws, entered) = wrong-throws id contact db in
            rw wrong (inr (entered, inl throws))
        | inr (inr (e, unreadable)) ↦ rw unreadable (inl (e, refl, refl))
      ]
