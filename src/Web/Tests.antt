-- ===== src/Web/Tests.antt =====
-- The routing at work on two visitors.
use dohost.Base.{◌≡◌, refl, true, false, none, some, Text, codes}
use dohost.Data.{AuthActor}
use dohost.Errors.{ok}
use dohost.Store.Memory.{memory, memory-IsLawful}
use dohost.Data.{Db}
use dohost.LoginGuard.{to_lower_case, record_login_attempt}
use dohost.Texts.{normalize_email, trim, trim_start}
use dohost.Crypto.{get_key, decrypt_secret, decrypt_parts, split_dots}
use dohost.Sample.{outside_world, manned_shop}
use dohost.Staff.{load_staff_actor}
use dohost.Staff.Login.{
  staff_refusal, record_staff_attempt, let_staff_in, judge_totp, check_totp, check_second_factor,
  check_staff_password, admit_staff, log_staff_in, authenticate_staff_user,
}
use dohost.Sessions.{create_staff_session, validate_staff_session}
use dohost.Sessions.Lookup.{SessionsUnique}
use dohost.Web.Session.{SignedInUser}
use dohost.Web.SignIn.{Credentials, sign_in_staff}
use dohost.Web.LoggedIn.{sign_in_staff-validates}
use dohost.Web.{starts_with}
use dohost.Web.Routing.{pass, is_admin_path, proxy, admin_response}
use dohost.Web.Redirects.{target_of, proxy-settles}

abbrev invoices_page : Text
invoices_page = codes "/admin/invoices"

is_admin_page : is_admin_path invoices_page ≡ true
unfolding starts_with
is_admin_page = refl

sent_away :
    target_of (proxy invoices_page (some AuthActor.client_contact)) ≡ some (codes "/admin/login")
unfolding proxy admin_response starts_with
sent_away = refl

proxy-settles_example : proxy (codes "/admin/login") (some AuthActor.client_contact) ≡ pass
proxy-settles_example =
    proxy-settles invoices_page (codes "/admin/login") (some AuthActor.client_contact) sent_away

abbrev bob_signs_in : Credentials
bob_signs_in = record {
  actor_type = some (codes "STAFF");
  email = some (codes "bob@example.com");
  password = some (codes "password");
  totp_token = some (codes "7");
  ip = none;
  user_agent = none;
}

abbrev bob : SignedInUser
bob = record {
  id = 0;
  email = codes "bob@example.com";
  name = codes "Bob";
  actor_type = AuthActor.staff;
  session_token = codes "tok";
  must_change_password = some false;
}

abbrev after_sign_in : Db memory
after_sign_in = (sign_in_staff memory outside_world 9 (codes "tok") bob_signs_in 0 manned_shop).1

bob_signed_in :
    sign_in_staff memory outside_world 9 (codes "tok") bob_signs_in 0 manned_shop
    ≡ (ok bob, after_sign_in)
unfolding sign_in_staff create_staff_session authenticate_staff_user log_staff_in admit_staff
    staff_refusal check_staff_password check_second_factor check_totp judge_totp let_staff_in
    record_staff_attempt record_login_attempt normalize_email trim trim_start to_lower_case
    decrypt_secret decrypt_parts split_dots get_key
bob_signed_in = refl

no_sessions-SessionsUnique : SessionsUnique memory manned_shop.staff_sessions
no_sessions-SessionsUnique h i j r s fi fj pi pj = cc fi

sign_in_staff-validates_example :
    let validated =
      validate_staff_session memory outside_world.hash_token 50 (codes "tok") after_sign_in in
    validated.0 ≡ ok (load_staff_actor memory 0 validated.1)
sign_in_staff-validates_example =
    sign_in_staff-validates memory memory-IsLawful outside_world 9 50 (codes "tok") bob_signs_in 0
      manned_shop after_sign_in bob no_sessions-SessionsUnique refl refl bob_signed_in
