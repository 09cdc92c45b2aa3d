-- ===== src/Web/Admin.antt =====
-- apps/web/src/lib/actions/admin.ts: the forms of the administration, for the actor of the session.
-- Ids, roles and statuses of a form are given as such, `none` for one that is absent or empty.
use dohost.Base.{Option, none, some, [], ◌∷◌, ◌++◌, Text, codes, ◌||◌, if◌then◌else◌}
use dohost.Service.{Action, pure}
use dohost.Store.{RowId, Tables, Time}
use dohost.Permissions.{StaffRoleKey}
use dohost.Data.{Db, ClientStatus, Value, Fields}
use dohost.Actors.{StaffActor}
use dohost.Outside.{Outside}
use dohost.Settings.{company_profile_setting_key, set_setting}
use dohost.Clients.{add_client_note, change_client_status}
use dohost.Staff.Create.{create_staff_user}
use dohost.Web.{Reply, problem, success, redirect, trying, is_blank}
use dohost.Web.Accounts.{trimmed, optional_trimmed}

abbrev pub status_text : ClientStatus → Text
status_text ClientStatus.active = codes "ACTIVE"
status_text ClientStatus.pending_verification = codes "PENDING_VERIFICATION"
status_text ClientStatus.suspended = codes "SUSPENDED"
status_text ClientStatus.closed = codes "CLOSED"

pub record CompanyForm : Type 0 where
  pub name : Option Text
  pub address_line1 : Option Text
  pub city : Option Text
  pub state : Option Text
  pub postal_code : Option Text
  pub country : Option Text
  pub tax_id : Option Text
  pub support_email : Option Text

abbrev optional_field : Option Text → Value
optional_field none = Value.missing
optional_field (some t) = Value.text t

-- The profile that is stored.
abbrev pub company_profile_of : CompanyForm → Fields
company_profile_of form =
    (codes "name", Value.text (trimmed form.name))
    ∷ (codes "addressLine1", optional_field (optional_trimmed form.address_line1))
    ∷ (codes "city", optional_field (optional_trimmed form.city))
    ∷ (codes "state", optional_field (optional_trimmed form.state))
    ∷ (codes "postalCode", optional_field (optional_trimmed form.postal_code))
    ∷ (codes "country", optional_field (optional_trimmed form.country))
    ∷ (codes "taxId", optional_field (optional_trimmed form.tax_id))
    ∷ (codes "supportEmail", optional_field (optional_trimmed form.support_email))
    ∷ []

-- `requireStaffActor`: without an actor, a redirect.
abbrev pub as_staff :
    {S : Type 0} → Option StaffActor → (StaffActor → Action S Reply) → Action S Reply
as_staff none body = pure (redirect (codes "/admin/login"))
as_staff (some actor) body = body actor

module _ (T : Tables) where
  -- `addClientNoteAction`
  unfoldable pub add_client_note_action :
      Option StaffActor → RowId → Option Text → Action (Db T) Reply
  add_client_note_action session client_id body = as_staff session λ actor.
      if is_blank (trimmed body)
      then pure (problem (codes "Note cannot be empty."))
      else trying (add_client_note T actor client_id (trimmed body))
          (λ done. success (codes "Note added."))

  -- `changeClientStatusAction`
  unfoldable pub change_client_status_action :
      Option StaffActor → RowId → ClientStatus → Option Text → Action (Db T) Reply
  change_client_status_action session client_id status reason = as_staff session λ actor.
      if is_blank (trimmed reason)
      then pure (problem (codes "A reason is required for status changes."))
      else trying (change_client_status T actor client_id status (trimmed reason))
          (λ done. success (codes "Client status changed to " ++ (status_text status ++ codes ".")))

  -- What `createStaffUserAction` does with the role of the form.
  unfoldable pub invite :
      Outside
      → Time
      → (token placeholder salt : Text) → StaffActor
      → Text
      → Text
      → Option StaffRoleKey
      → Action (Db T) Reply
  invite outside now token placeholder salt actor email name none =
      pure (problem (codes "All fields are required."))
  invite outside now token placeholder salt actor email name (some role_key) =
      if is_blank email || is_blank name
      then pure (problem (codes "All fields are required."))
      else trying
          (create_staff_user T outside now token placeholder salt actor
            (record { email = email; name = name; role_key = role_key; ip = none }))
          (λ user. success (codes "Invited " ++ (email ++ codes ".")))

  -- `createStaffUserAction`
  unfoldable pub create_staff_user_action :
      Outside
      → Time
      → (token placeholder salt : Text) → Option StaffActor
      → (email name : Option Text) → Option StaffRoleKey
      → Action (Db T) Reply
  create_staff_user_action outside now token placeholder salt session email name role_key =
      as_staff session λ actor.
        invite outside now token placeholder salt actor (trimmed email) (trimmed name) role_key

  -- `updateCompanyProfileAction`
  unfoldable pub update_company_profile_action :
      Option StaffActor → CompanyForm → Action (Db T) Reply
  update_company_profile_action session form = as_staff session λ actor.
      if is_blank (trimmed form.name)
      then pure (problem (codes "Company name is required."))
      else trying (set_setting T actor company_profile_setting_key (company_profile_of form))
          (λ done. success (codes "Settings saved."))
