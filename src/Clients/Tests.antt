-- ===== src/Clients/Tests.antt =====
-- The theorems on clients at work on the sample shop.
use dohost.Base.{zero, suc, ◌≡◌, ◌≢◌, refl, true, none, some, [], ◌∷◌, codes}
use dohost.Errors.{ok, err, record_not_found}
use dohost.Store.Memory.{memory, memory-IsLawful}
use dohost.Data.{
  Db, Client, ClientStatus, active, suspended, closed, pending_verification, ClientType,
}
use dohost.Permissions.{permission_eq}
use dohost.Rbac.{require_permission, has_permission, includes}
use dohost.Audit.{record_audit_log, record_status_transition}
use dohost.LoginGuard.{to_lower_case}
use dohost.Texts.{normalize_email, trim, trim_start}
use dohost.Tokens.{invalid_token, is_usable, check_reset, consume_reset}
use dohost.Tokens.OneTime.{HashesUnique}
use dohost.Sample.{outside_world, shop, manned_shop, customer, boss}
use dohost.Clients.{
  is_valid_client_transition, client_transitions, transition_client_status, move_client,
  change_client_status,
}
use dohost.Clients.Machine.{client_transitions_ends}
use dohost.Clients.Register.{RegisterInput, email_taken, register_client}
use dohost.Clients.Taken.{register_client_twice}
use dohost.Clients.Password.{store_client_password, set_client_password}
use dohost.Clients.Reset.{IsReset, set_client_password-IsReset, set_client_password_once}
use dohost.Staff.Password.{set_staff_password}
use dohost.Clients.Changes.{
  IsMoved, change_client_status-IsMoved, change_client_status_err, SameAccount, MayEdit,
  update_client_profile-SameAccount,
}
use dohost.Clients.Profile.{Patch, ProfileField, apply_patch, write_profile, update_client_profile}
use dohost.Clients.Login.{LoginInput}

may_suspend : is_valid_client_transition active suspended ≡ true
unfolding is_valid_client_transition client_transitions
may_suspend = refl

client_transitions_ends_example :
    (ClientStatus.active ≢ closed)
    × (ClientStatus.suspended ≢ active)
    × (ClientStatus.suspended ≢ pending_verification)
    × (ClientStatus.suspended ≡ suspended → ClientStatus.active ≡ active)
client_transitions_ends_example = client_transitions_ends active suspended may_suspend

abbrev sign_up : RegisterInput
sign_up = record {
  tenant_id = 0;
  type = ClientType.individual;
  company_name = none;
  first_name = codes "Eve";
  last_name = codes "Moneypenny";
  email = codes "eve@example.com";
  password = codes "password12";
  country = none;
  currency = none;
  ip = none;
}

-- The same address in capitals and with a space.
abbrev sign_up_again : RegisterInput
sign_up_again = record sign_up { email = codes " Eve@Example.com" }

same_address : normalize_email sign_up_again.email ≡ normalize_email sign_up.email
unfolding normalize_email trim trim_start to_lower_case
same_address = refl

abbrev signed_up : Db memory
signed_up = (register_client memory outside_world 5 (codes "t") (codes "s") sign_up shop).1

register_client_twice_example :
    register_client memory outside_world 6 (codes "u") (codes "s") sign_up_again signed_up
    ≡ (err email_taken, signed_up)
register_client_twice_example =
    register_client_twice memory memory-IsLawful outside_world 5 6 (codes "t") (codes "s")
      (codes "u") (codes "s") sign_up sign_up_again shop refl same_address

abbrev reset_shop : Db memory
reset_shop =
    (set_client_password memory outside_world 5 (codes "s") (codes "link") (codes "new password")
      manned_shop).1

did_reset :
    set_client_password memory outside_world 5
      (codes "s")
      (codes "link")
      (codes "new password")
      manned_shop
    ≡ (ok tt, reset_shop)
unfolding set_client_password store_client_password check_reset is_usable consume_reset
did_reset = refl

set_client_password-IsReset_example :
    IsReset memory outside_world 5
      (codes "s")
      (codes "link")
      (codes "new password")
      manned_shop
      reset_shop
set_client_password-IsReset_example =
    set_client_password-IsReset memory outside_world 5 (codes "s") (codes "link")
      (codes "new password") manned_shop reset_shop did_reset

one_link-HashesUnique : HashesUnique memory manned_shop
one_link-HashesUnique zero zero r s fi fj same = refl
one_link-HashesUnique zero (suc j) r s fi fj same = cc fj
one_link-HashesUnique (suc i) j r s fi fj same = cc fi

set_client_password_once_example :
    (set_client_password memory outside_world 6
        (codes "s")
        (codes "link")
        (codes "other")
        reset_shop
      ≡ (err invalid_token, reset_shop))
    × (set_staff_password memory outside_world 6
          (codes "s")
          (codes "link")
          (codes "other")
          reset_shop
        ≡ (err invalid_token, reset_shop))
set_client_password_once_example =
    set_client_password_once memory outside_world 5 (codes "s") (codes "link")
      (codes "new password") manned_shop reset_shop memory-IsLawful 6 (codes "s") (codes "other")
      one_link-HashesUnique did_reset

abbrev suspended_shop : Db memory
suspended_shop = (change_client_status memory boss 0 suspended (codes "late") shop).1

did_suspend :
    change_client_status memory boss 0 suspended (codes "late") shop ≡ (ok tt, suspended_shop)
unfolding change_client_status move_client transition_client_status is_valid_client_transition
    client_transitions require_permission has_permission includes permission_eq record_audit_log
    record_status_transition
did_suspend = refl

change_client_status-IsMoved_example :
    IsMoved memory boss 0 suspended (codes "late") shop suspended_shop
change_client_status-IsMoved_example =
    change_client_status-IsMoved memory boss 0 suspended (codes "late") shop suspended_shop
      did_suspend

no_client :
    (change_client_status memory boss 7 suspended (codes "late") shop).0 ≡ err record_not_found
unfolding change_client_status move_client transition_client_status require_permission
    has_permission includes permission_eq
no_client = refl

change_client_status_err_example :
    (change_client_status memory boss 7 suspended (codes "late") shop).1 ≡ shop
change_client_status_err_example =
    change_client_status_err memory boss 7 suspended (codes "late") shop no_client

abbrev new_phone : Patch
new_phone = (ProfileField.phone, some (codes "555")) ∷ (ProfileField.city, none) ∷ []

abbrev phoned_shop : Db memory
phoned_shop = (update_client_profile memory customer 0 new_phone shop).1

did_update : update_client_profile memory customer 0 new_phone shop ≡ (ok tt, phoned_shop)
unfolding update_client_profile write_profile apply_patch record_audit_log
did_update = refl

update_client_profile-SameAccount_example :
    MayEdit customer 0
    × ((old : Client) × (new : Client) × (memory.find shop.clients 0 ≡ some old)
        × (phoned_shop.clients ≡ memory.write shop.clients 0 new)
        × SameAccount old new)
update_client_profile-SameAccount_example =
    update_client_profile-SameAccount memory customer 0 new_phone shop phoned_shop did_update

abbrev ada_logs_in : LoginInput
ada_logs_in = record {
  tenant_id = 0;
  email = codes "Ada@example.com";
  password = codes "password";
  ip = none;
  user_agent = none;
}
