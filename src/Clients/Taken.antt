-- ===== src/Clients/Taken.antt =====
-- `registerClient` against the addresses that are in use.
use dohost.Base.{
  ◌≡◌, refl, ◌∙◌, ap, true, false, none, Text, text_eq_refl, inl, inr, ==_refl, Bool-cases,
  Option-cases,
}
use dohost.Service.{continue, pure}
use dohost.Errors.{Result, ok, err}
use dohost.Store.{RowId, Tables, Time, IsLawful}
use dohost.Store.Queries.{find_first-create}
use dohost.Data.{Db}
use dohost.Audit.{record_audit_log, record_status_transition}
use dohost.Outside.{Outside}
use dohost.Emails.{queue_email}
use dohost.Texts.{normalize_email}
use dohost.Tokens.{is_set}
use dohost.Clients.Register.{
  RegisterInput, email_taken, is_client_of, new_client, is_email_taken, create_account,
  create_verification, send_verification, register_client,
}

state_of_pure : {S A B : Type 0} (x : Result A × S) (b : B) → (continue x (λ a. pure b)).1 ≡ x.1
state_of_pure (ok a, s) b = refl
state_of_pure (err e, s) b = refl

new_client-fits :
    (input : RegisterInput) (email : Text)
    → is_client_of input.tenant_id email (new_client input email) ≡ true
unfolding new_client
new_client-fits input email = rw (==_refl input.tenant_id, text_eq_refl email)

module _ (T : Tables) where
  IsTaken-client :
      (tenant : RowId) (email : Text) (db : Db T)
      → is_set (T.find_first db.clients (is_client_of tenant email)) ≡ true
      → is_email_taken T tenant email db ≡ true
  unfolding is_email_taken
  IsTaken-client tenant email db h = rw h

  free_client :
      (tenant : RowId) (email : Text) (db : Db T)
      → is_email_taken T tenant email db ≡ false
      → T.find_first db.clients (is_client_of tenant email) ≡ none
  unfolding is_email_taken
  free_client tenant email db h =
      elim (Option-cases (T.find_first db.clients (is_client_of tenant email))) [
        | inl missing ↦ missing
        | inr (e, found) ↦ cc (rw found at h)
      ]

module _ (T : Tables) (laws : IsLawful T) (outside : Outside) (now : Time) (token salt : Text)
    (input : RegisterInput) (db : Db T) where
  register_client-taken :
      is_email_taken T input.tenant_id (normalize_email input.email) db ≡ true
      → register_client T outside now token salt input db ≡ (err email_taken, db)
  unfolding register_client
  register_client-taken taken = rw taken

  -- The clients that a registration leaves, whatever becomes of the email.
  register_client-clients :
      is_email_taken T input.tenant_id (normalize_email input.email) db ≡ false
      → (register_client T outside now token salt input db).1.clients
        ≡ (T.create db.clients (new_client input (normalize_email input.email))).1
  unfolding register_client create_account send_verification create_verification queue_email
      record_audit_log record_status_transition
  register_client-clients free = rw free (ap (λ (d : Db T). d.clients) (state_of_pure _ _))

-- After a call of `registerClient`, whether it returned, was refused or failed at the queue, a second
-- call with the same address but for case and white space throws that the address is taken and
-- changes nothing.
pub register_client_twice :
    (T : Tables) (laws : IsLawful T) (outside : Outside) (now later : Time)
    (token salt token' salt' : Text) (input again : RegisterInput) (db : Db T)
    → again.tenant_id ≡ input.tenant_id
    → normalize_email again.email ≡ normalize_email input.email
    → let after = (register_client T outside now token salt input db).1 in
      register_client T outside later token' salt' again after ≡ (err email_taken, after)
register_client_twice T laws outside now later token salt token' salt' input again db tenant email =
    let after = (register_client T outside now token salt input db).1 in
    let address = normalize_email input.email in
    let taken : is_email_taken T input.tenant_id address after ≡ true =
      elim (Bool-cases (is_email_taken T input.tenant_id address db)) [
        | inl before ↦
            ap (is_email_taken T input.tenant_id address)
              (ap (λ r. r.1) (register_client-taken T laws outside now token salt input db before))
            ∙ before
        | inr free ↦ IsTaken-client T input.tenant_id address after (
            ap (λ t. is_set (T.find_first t (is_client_of input.tenant_id address)))
              (register_client-clients T laws outside now token salt input db free)
            ∙ ap is_set (
                find_first-create T laws db.clients (is_client_of input.tenant_id address)
                  (new_client input address) (new_client-fits input address)
                  (free_client T input.tenant_id address db free)))
      ] in
    register_client-taken T laws outside later token' salt' again after
      ((λ i. is_email_taken T (tenant i) (email i) after) ∙ taken)
