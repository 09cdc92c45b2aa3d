-- ===== src/Staff/Tests.antt =====
-- The theorems on staff at work on the sample shop.
use dohost.Base.{◌≡◌, refl, true, false, none, some, codes}
use dohost.Errors.{ok}
use dohost.Store.{RowId}
use dohost.Store.Memory.{memory, memory-IsLawful}
use dohost.Data.{Db, StaffSession}
use dohost.Permissions.{permission_eq, staff_manage}
use dohost.Rbac.{require_permission, has_permission, includes}
use dohost.Audit.{record_audit_log}
use dohost.LoginGuard.{to_lower_case, record_login_attempt}
use dohost.Texts.{normalize_email, trim, trim_start}
use dohost.Crypto.{get_key, decrypt_secret, decrypt_parts, split_dots}
use dohost.Tokens.{is_set}
use dohost.Sample.{outside_world, manned_shop, boss}
use dohost.Staff.{load_staff_actor}
use dohost.Staff.Disable.{disable_user, disable_staff_user}
use dohost.Staff.Disabled.{disable_staff_user-locks_out}
use dohost.Staff.Login.{
  StaffLoginInput, AuthenticatedStaff, staff_refusal, record_staff_attempt, let_staff_in,
  judge_totp, check_totp, check_second_factor, check_staff_password, admit_staff, log_staff_in,
  authenticate_staff_user,
}
use dohost.Staff.Admission.{IsAdmitted, authenticate_staff_user-IsAdmitted}

abbrev without_bob : Db memory
without_bob = (disable_staff_user memory 7 boss 0 manned_shop).1

did_disable : disable_staff_user memory 7 boss 0 manned_shop ≡ (ok tt, without_bob)
unfolding disable_staff_user disable_user require_permission has_permission includes permission_eq
    record_audit_log
did_disable = refl

disable_staff_user-locks_out_example :
    (require_permission boss.permissions staff_manage ≡ ok tt)
    × (load_staff_actor memory 0 without_bob ≡ none)
    × ((i : RowId) (s : StaffSession)
        → memory.find without_bob.staff_sessions i ≡ some s
        → s.user_id ≡ 0
        → is_set s.revoked_at ≡ true)
disable_staff_user-locks_out_example =
    disable_staff_user-locks_out memory memory-IsLawful 7 boss 0 manned_shop without_bob did_disable

abbrev bob_logs_in : StaffLoginInput
bob_logs_in = record {
  tenant_id = 0;
  email = codes "bob@example.com";
  password = codes "password";
  totp_token = some (codes "7");
  ip = none;
  user_agent = none;
}

abbrev bob : AuthenticatedStaff
bob = record {
  id = 0;
  tenant_id = 0;
  email = codes "bob@example.com";
  name = codes "Bob";
  must_change_password = false;
}

is_let_in : (authenticate_staff_user memory outside_world 9 bob_logs_in manned_shop).0 ≡ ok bob
unfolding authenticate_staff_user log_staff_in admit_staff staff_refusal check_staff_password
    check_second_factor check_totp judge_totp let_staff_in record_staff_attempt record_login_attempt
    normalize_email trim trim_start to_lower_case decrypt_secret decrypt_parts split_dots get_key
is_let_in = refl

authenticate_staff_user-IsAdmitted_example :
    IsAdmitted memory outside_world 9 bob_logs_in manned_shop bob
authenticate_staff_user-IsAdmitted_example =
    authenticate_staff_user-IsAdmitted memory outside_world 9 bob_logs_in manned_shop bob is_let_in
