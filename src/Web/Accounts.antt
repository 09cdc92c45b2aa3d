-- ===== src/Web/Accounts.antt =====
-- The actions of apps/web/src/lib/actions/auth.ts on accounts and those of
-- apps/web/src/lib/actions/setup.ts and apps/web/src/lib/actions/profile.ts. The schema of the
-- registration form is checked by zod and is not modelled; the action is given the parsed data.
use dohost.Base.{
  not, Option, none, some, [], ◌∷◌, Text, codes, text_eq, length, ltb, ◌||◌, if◌then◌else◌,
}
use dohost.Service.{Action, ◌>>=◌, ◌>>◌, pure, lift}
use dohost.Store.{RowId, Tables, Time}
use dohost.Data.{Db}
use dohost.Actors.{ClientPortalActor, of_client}
use dohost.Outside.{Outside}
use dohost.Texts.{trim}
use dohost.Setup.{get_default_tenant, bootstrap_super_admin}
use dohost.Clients.Register.{RegisterInput, register_client}
use dohost.Clients.Verify.{verify_client_email}
use dohost.Clients.Password.{request_client_password_reset, set_client_password}
use dohost.Clients.Profile.{
  Patch, update_client_profile, first_name, last_name, company_name, phone, address_line1, city,
  state, postal_code, country,
}
use dohost.Staff.Password.{request_staff_password_reset, set_staff_password}
use dohost.Web.{Reply, problem, success, redirect, trying, or_empty, or_undefined, is_blank}

abbrev pub short_password : Reply
short_password = problem (codes "Password must be at least 10 characters.")

abbrev pub enter_email : Reply
enter_email = problem (codes "Enter your email address.")

-- `String(formData.get(name) ?? "").trim()`
abbrev pub trimmed : Option Text → Text
trimmed t = trim (or_empty t)

-- `String(formData.get(name) ?? "").trim() || undefined`
abbrev pub optional_trimmed : Option Text → Option Text
optional_trimmed t = or_undefined (trimmed t)

-- The form of the first set-up.
pub record SetupForm : Type 0 where
  pub name : Option Text
  pub email : Option Text
  pub password : Option Text
  pub confirm_password : Option Text

-- The form of a profile.
pub record ProfileForm : Type 0 where
  pub first_name : Option Text
  pub last_name : Option Text
  pub company_name : Option Text
  pub phone : Option Text
  pub address_line1 : Option Text
  pub city : Option Text
  pub state : Option Text
  pub postal_code : Option Text
  pub country : Option Text

-- The patch that a profile form stands for.
abbrev pub patch_of : ProfileForm → Patch
patch_of form =
    (first_name, some (trimmed form.first_name))
    ∷ (last_name, some (trimmed form.last_name))
    ∷ (company_name, optional_trimmed form.company_name)
    ∷ (phone, optional_trimmed form.phone)
    ∷ (address_line1, optional_trimmed form.address_line1)
    ∷ (city, optional_trimmed form.city)
    ∷ (state, optional_trimmed form.state)
    ∷ (postal_code, optional_trimmed form.postal_code)
    ∷ (country, optional_trimmed form.country)
    ∷ []

module _ (T : Tables) (outside : Outside) (now : Time) where
  -- `registerAction`, of the data that the schema has passed; the tenant of the input is the default.
  unfoldable pub register_action :
      (token salt : Text) → (RowId → RegisterInput) → Action (Db T) Reply
  register_action token salt input =
      trying
        (λ db.
          (lift (get_default_tenant T outside db) >>= λ tenant.
          register_client T outside now token salt (input tenant.0))
            db)
        (λ ids. success (
          codes
            "Account created! Check your email for a link to verify your address before signing in."))

  -- `verifyEmailAction`, whose `{}` is the success without a text
  unfoldable pub verify_email_action : Text → Action (Db T) Reply
  verify_email_action token = trying (verify_client_email T outside now token) (λ done. success [])

  -- `requestClientPasswordResetAction`
  unfoldable pub request_client_password_reset_action : Text → Option Text → Action (Db T) Reply
  request_client_password_reset_action token email db =
      if is_blank (or_empty email)
      then pure enter_email db
      else (lift (get_default_tenant T outside db) >>= λ tenant.
            request_client_password_reset T outside now token tenant.0 (or_empty email)
            >> pure
                (success (codes "If that email has an account, we've sent a password reset link.")))
          db

  -- `staffRequestPasswordResetAction`
  unfoldable pub staff_request_password_reset_action : Text → Option Text → Action (Db T) Reply
  staff_request_password_reset_action token email db =
      if is_blank (or_empty email)
      then pure enter_email db
      else (lift (get_default_tenant T outside db) >>= λ tenant.
            request_staff_password_reset T outside now token tenant.0 (or_empty email)
            >> pure (
                success
                  (codes "If that email has a staff account, we've sent a password reset link.")))
          db

  -- `resetClientPasswordAction`
  unfoldable pub reset_client_password_action :
      Text → Option Text → Option Text → Action (Db T) Reply
  reset_client_password_action salt token password =
      if ltb (length (or_empty password)) 10
      then pure short_password
      else trying (set_client_password T outside now salt (or_empty token) (or_empty password))
          (λ done. success (codes "Password updated. You can now sign in."))

  -- `staffSetPasswordAction`
  unfoldable pub staff_set_password_action : Text → Option Text → Option Text → Action (Db T) Reply
  staff_set_password_action salt token password =
      if ltb (length (or_empty password)) 10
      then pure short_password
      else trying (set_staff_password T outside now salt (or_empty token) (or_empty password))
          (λ done. success (codes "Password set. You can now sign in."))

  -- `bootstrapSuperAdminAction`
  unfoldable pub bootstrap_super_admin_action : Text → Option Text → SetupForm → Action (Db T) Reply
  bootstrap_super_admin_action salt ip form =
      if is_blank (trimmed form.name)
        || (is_blank (trimmed form.email) || is_blank (or_empty form.password))
      then pure (problem (codes "All fields are required."))
      else (if not (text_eq (or_empty form.password) (or_empty form.confirm_password))
          then pure (problem (codes "Passwords don't match."))
          else trying
              (bootstrap_super_admin T outside now salt (record {
                name = trimmed form.name;
                email = trimmed form.email;
                password = or_empty form.password;
                ip = ip;
              }))
              (λ done. redirect (codes "/admin/login")))

  -- What `updateProfileAction` does for the actor of the session.
  unfoldable pub update_profile_action :
      Option ClientPortalActor → ProfileForm → Action (Db T) Reply
  update_profile_action none form = pure (redirect (codes "/login"))
  update_profile_action (some actor) form =
      if is_blank (trimmed form.first_name) || is_blank (trimmed form.last_name)
      then pure (problem (codes "First and last name are required."))
      else trying (update_client_profile T (of_client actor) actor.client_id (patch_of form))
          (λ done. success (codes "Profile updated."))
