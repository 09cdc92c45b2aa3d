-- ===== src/Clients/Changes.antt =====
-- `changeClientStatus` and `updateClientProfile`: what they change, and what a refused call leaves.
use dohost.Base.{
  ◌≡◌, refl, ◌∙◌, ap, sym, true, none, some, [], ◌∷◌, Text, inl, inr, ◌==◌, ==_iff, Bool-cases,
  Option-cases,
}
use dohost.Service.{transaction_ok, transaction_err, checked-ok, checked_err}
use dohost.Errors.{ok, err, Error}
use dohost.Permissions.{clients_write}
use dohost.Rbac.{require_permission}
use dohost.Store.{RowId, Tables}
use dohost.Data.{Db, Client, ClientStatus, StatusEntity, ActorType, of_client}
use dohost.Actors.{StaffActor, Actor}
use dohost.Audit.{record_audit_log, record_status_transition}
use dohost.Clients.{
  is_valid_client_transition, transition_client_status, move_client, change_client_status,
}
use dohost.Clients.Profile.{
  ProfileField, Patch, set_field, apply_patch, check_profile_actor, write_profile,
  update_client_profile,
}

module _ (T : Tables) (actor : StaffActor) (client_id : RowId) (to_status : ClientStatus)
    (reason : Text) (db : Db T) where
  -- A change of status that went through: the client as it was, and the two tables that tell of it.
  pub record IsMoved (after : Db T) : Type 0 where
    pub old : Client
    pub allowed : require_permission actor.permissions clients_write ≡ ok tt
    pub found : T.find db.clients client_id ≡ some old
    pub valid : is_valid_client_transition old.status to_status ≡ true
    pub clients : after.clients ≡ T.write db.clients client_id (record old { status = to_status })
    pub history :
        after.status_history
        ≡ (T.create db.status_history (record {
          tenant_id = old.tenant_id;
          entity_type = StatusEntity.client;
          entity_id = client_id;
          from_status = some (of_client old.status);
          to_status = of_client to_status;
          actor_type = ActorType.staff;
          actor_id = some actor.id;
          reason = some reason;
          metadata = none;
        })).1
    pub contacts : after.client_contacts ≡ db.client_contacts

  -- A call of `changeClientStatus` that returns was allowed to write clients and made a valid
  -- transition: it wrote the status of that client alone, and one row of history with both statuses.
  pub change_client_status-IsMoved :
      (after : Db T)
      → change_client_status T actor client_id to_status reason db ≡ (ok tt, after)
      → IsMoved after
  unfolding change_client_status move_client transition_client_status record_audit_log
      record_status_transition
  change_client_status-IsMoved after h =
      let (done, allowed, run) =
        checked-ok (require_permission actor.permissions clients_write) _ db h in
      let written = transaction_ok (move_client T actor client_id to_status reason) db run in
      elim (Option-cases (T.find db.clients client_id)) [
        | inl missing ↦ cc (rw missing at written)
        | inr (old, found) ↦ elim (Bool-cases (is_valid_client_transition old.status to_status)) [
          | inr invalid ↦ cc (rw (found, invalid) at written)
          | inl valid ↦
              let same = sym (ap (λ x. x.1) (rw (found, valid) at written)) in
              record {
                old = old;
                allowed = allowed;
                found = found;
                valid = valid;
                clients = ap (λ (d : Db T). d.clients) same;
                history = ap (λ (d : Db T). d.status_history) same;
                contacts = ap (λ (d : Db T). d.client_contacts) same;
              }
        ]
      ]

  -- A call of `changeClientStatus` that throws, for the permission, a missing client or
  -- the transition, changes nothing.
  pub change_client_status_err :
      {e : Error}
      → (change_client_status T actor client_id to_status reason db).0 ≡ err e
      → (change_client_status T actor client_id to_status reason db).1 ≡ db
  unfolding change_client_status
  change_client_status_err h =
      checked_err (require_permission actor.permissions clients_write) _ db
        (λ done. transaction_err (move_client T actor client_id to_status reason) db) h

-- The columns that no patch reaches.
abbrev pub SameAccount : Client → Client → Type 0
SameAccount c c' =
    (c'.tenant_id ≡ c.tenant_id)
    × (c'.email ≡ c.email)
    × (c'.status ≡ c.status)
    × (c'.verification_status ≡ c.verification_status)
    × (c'.currency ≡ c.currency)
    × (c'.client_group_id ≡ c.client_group_id)
    × (c'.tax_id ≡ c.tax_id)

SameAccount-trans : (a b c : Client) → SameAccount a b → SameAccount b c → SameAccount a c
SameAccount-trans a b c p q =
    (q.0 ∙ p.0, q.1 ∙ p.1, q.2 ∙ p.2, q.3 ∙ p.3, q.4 ∙ p.4, q.5 ∙ p.5, q.6 ∙ p.6)

set_field-SameAccount : (f : ProfileField) (t : Text) (c : Client) → SameAccount c (set_field f t c)
set_field-SameAccount ProfileField.first_name t c = (refl, refl, refl, refl, refl, refl, refl)
set_field-SameAccount ProfileField.last_name t c = (refl, refl, refl, refl, refl, refl, refl)
set_field-SameAccount ProfileField.company_name t c = (refl, refl, refl, refl, refl, refl, refl)
set_field-SameAccount ProfileField.phone t c = (refl, refl, refl, refl, refl, refl, refl)
set_field-SameAccount ProfileField.address_line1 t c = (refl, refl, refl, refl, refl, refl, refl)
set_field-SameAccount ProfileField.address_line2 t c = (refl, refl, refl, refl, refl, refl, refl)
set_field-SameAccount ProfileField.city t c = (refl, refl, refl, refl, refl, refl, refl)
set_field-SameAccount ProfileField.state t c = (refl, refl, refl, refl, refl, refl, refl)
set_field-SameAccount ProfileField.postal_code t c = (refl, refl, refl, refl, refl, refl, refl)
set_field-SameAccount ProfileField.country t c = (refl, refl, refl, refl, refl, refl, refl)
set_field-SameAccount ProfileField.language t c = (refl, refl, refl, refl, refl, refl, refl)
set_field-SameAccount ProfileField.timezone t c = (refl, refl, refl, refl, refl, refl, refl)

apply_patch-SameAccount : (patch : Patch) (c : Client) → SameAccount c (apply_patch patch c)
unfolding apply_patch
apply_patch-SameAccount [] c = (refl, refl, refl, refl, refl, refl, refl)
apply_patch-SameAccount ((f, none) ∷ patch) c = apply_patch-SameAccount patch c
apply_patch-SameAccount ((f, some t) ∷ patch) c =
    SameAccount-trans c (set_field f t c) (apply_patch patch (set_field f t c))
      (set_field-SameAccount f t c) (apply_patch-SameAccount patch (set_field f t c))

-- Who may change the profile of a client.
abbrev pub MayEdit : Actor → RowId → Type 0
MayEdit (Actor.of_client a) client_id = a.client_id ≡ client_id
MayEdit (Actor.of_staff a) client_id = require_permission a.permissions clients_write ≡ ok tt

check_profile_actor-MayEdit :
    (actor : Actor) (client_id : RowId)
    → check_profile_actor actor client_id ≡ ok tt
    → MayEdit actor client_id
check_profile_actor-MayEdit (Actor.of_client a) client_id h =
    elim (Bool-cases (a.client_id == client_id)) [
      | inl same ↦ (==_iff a.client_id client_id).0 same
      | inr other ↦ cc (rw other at h)
    ]
check_profile_actor-MayEdit (Actor.of_staff a) client_id h = h

-- A call of `updateClientProfile` that returns was made by a contact of that client or by staff who
-- may write clients; whatever the patch, it leaves the tenant, the email address, the status, the
-- verification, the currency, the group and the tax id of the client, and it writes no other client.
pub update_client_profile-SameAccount :
    (T : Tables) (actor : Actor) (client_id : RowId) (patch : Patch) (db after : Db T)
    → update_client_profile T actor client_id patch db ≡ (ok tt, after)
    → MayEdit actor client_id
      × ((old : Client) × (new : Client) × (T.find db.clients client_id ≡ some old)
          × (after.clients ≡ T.write db.clients client_id new)
          × SameAccount old new)
unfolding update_client_profile write_profile record_audit_log
update_client_profile-SameAccount T actor client_id patch db after h =
    let (done, passed, run) = checked-ok (check_profile_actor actor client_id) _ db h in
    let written = transaction_ok (write_profile T actor client_id patch) db run in
    (
      check_profile_actor-MayEdit actor client_id passed,
      elim (Option-cases (T.find db.clients client_id)) [
        | inl missing ↦ cc (rw missing at written)
        | inr (old, found) ↦
            let same = sym (ap (λ x. x.1) (rw found at written)) in
            (
              old,
              apply_patch patch old,
              found,
              ap (λ (d : Db T). d.clients) same,
              apply_patch-SameAccount patch old,
            )
      ],
    )
