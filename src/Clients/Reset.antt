-- ===== src/Clients/Reset.antt =====
-- `setClientPassword` and `setStaffPassword`: what a link for setting a password does, and that it does
-- it once.
use dohost.Base.{◌≡◌, ◌∙◌, ap, sym, true, false, some, Text, inl, inr, Option-cases, ltb}
use dohost.Service.{transaction_ok, checked-ok}
use dohost.Errors.{ok, err}
use dohost.Store.{RowId, Tables, Time, IsLawful}
use dohost.Data.{Db, AuthActor, ClientContact, PasswordResetToken}
use dohost.LoginGuard.{same_actor_type}
use dohost.Outside.{Outside}
use dohost.Tokens.{is_set, invalid_token, check_reset, find_reset, consume_reset}
use dohost.Tokens.OneTime.{HashesUnique, check_reset-ok, consume_reset-refuses}
use dohost.Clients.Password.{store_client_password, set_client_password}
use dohost.Staff.Password.{set_staff_password}

module _ (T : Tables) (outside : Outside) where
  -- A link that does not pass the check changes nothing.
  refused-client :
      (now : Time) (salt token password : Text) (db : Db T)
      → check_reset AuthActor.client_contact now (find_reset T (outside.hash_token token) db)
        ≡ err invalid_token
      → set_client_password T outside now salt token password db ≡ (err invalid_token, db)
  unfolding set_client_password
  refused-client now salt token password db h = rw h

  refused-staff :
      (now : Time) (salt token password : Text) (db : Db T)
      → check_reset AuthActor.staff now (find_reset T (outside.hash_token token) db)
        ≡ err invalid_token
      → set_staff_password T outside now salt token password db ≡ (err invalid_token, db)
  unfolding set_staff_password
  refused-staff now salt token password db h = rw h

-- A password that was set by a link: the link, the account and what was written.
pub record IsReset (T : Tables) (outside : Outside) (now : Time) (salt token password : Text)
    (db after : Db T) : Type 0 where
  pub token_id : RowId
  pub link : PasswordResetToken
  pub old : ClientContact
  pub found : find_reset T (outside.hash_token token) db ≡ some (token_id, link)
  pub for_contact : same_actor_type link.actor_type AuthActor.client_contact ≡ true
  pub unused : is_set link.consumed_at ≡ false
  pub in_time : ltb link.expires_at now ≡ false
  pub owner : T.find db.client_contacts link.actor_id ≡ some old
  pub written : after ≡ record db {
    client_contacts =
        T.write db.client_contacts link.actor_id
          (record old { password_hash = outside.hash_password salt password });
    reset_tokens = T.write db.reset_tokens token_id (record link { consumed_at = some now });
  }

module _ (T : Tables) (outside : Outside) (now : Time) (salt token password : Text)
    (db after : Db T) where
  -- A call of `setClientPassword` that returns has found a link for a contact that was not used and
  -- had not expired; it has written the hash of the new password to the contact of the link, and the
  -- use of the link, and nothing else.
  pub set_client_password-IsReset :
      set_client_password T outside now salt token password db ≡ (ok tt, after)
      → IsReset T outside now salt token password db after
  unfolding set_client_password store_client_password consume_reset
  set_client_password-IsReset h =
      let found = find_reset T (outside.hash_token token) db in
      let ((i, r), passed, run) =
        checked-ok (check_reset AuthActor.client_contact now found) _ db h in
      let (there, kind, unused, in_time) =
        check_reset-ok AuthActor.client_contact now found (i, r) passed in
      let written =
        transaction_ok (store_client_password T now (outside.hash_password salt password) i r) db
          run in
      elim (Option-cases (T.find db.client_contacts r.actor_id)) [
        | inl missing ↦ cc (rw missing at written)
        | inr (contact, owner) ↦ record {
          token_id = i;
          link = r;
          old = contact;
          found = there;
          for_contact = kind;
          unused = unused;
          in_time = in_time;
          owner = owner;
          written = sym (ap (λ x. x.1) (rw owner at written));
        }
      ]

  -- A link that has set the password of a contact sets no other password, of a contact or of staff,
  -- at any later time: the next call throws and changes nothing. The hashes of the links are unique.
  pub set_client_password_once :
      (laws : IsLawful T) (later : Time) (salt' password' : Text)
      → HashesUnique T db
      → set_client_password T outside now salt token password db ≡ (ok tt, after)
      → (set_client_password T outside later salt' token password' after
          ≡ (err invalid_token, after))
        × (set_staff_password T outside later salt' token password' after
            ≡ (err invalid_token, after))
  unfolding consume_reset
  set_client_password_once laws later salt' password' unique h =
      let done = set_client_password-IsReset h in
      let hash = outside.hash_token token in
      let stored = record db {
        client_contacts =
            T.write db.client_contacts done.link.actor_id
              (record done.old { password_hash = outside.hash_password salt password });
      } in
      let refuses = λ (wanted : AuthActor).
        ap (λ d. check_reset wanted later (find_reset T hash d)) done.written
        ∙ consume_reset-refuses T laws now later wanted hash done.token_id done.link stored unique
            done.found in
      (
        refused-client T outside later salt' token password' after
            (refuses AuthActor.client_contact),
        refused-staff T outside later salt' token password' after (refuses AuthActor.staff),
      )
