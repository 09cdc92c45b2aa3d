-- ===== src/Clients.antt =====
-- packages/core/src/clients.ts: the client state machine, its transition and what staff do to clients.
-- `now` is the time at which a call reads the clock.
pub mod Admission
pub mod Recorded
pub mod Changes
pub mod Machine
pub mod Register
pub mod Reset
pub mod Taken
pub mod Tests
pub mod Verify
pub mod Password
pub mod Login
pub mod Profile
use dohost.Base.{
  ℕ, Bool, true, false, not, Option, none, some, List, [], ◌∷◌, ◌++◌, Text, codes, text_eq, ◌==◌,
  any, ◌&&◌, ◌||◌, if◌then◌else◌,
}
use dohost.Service.{Action, ◌>>=◌, ◌>>◌, pure, lift, modify, or_throw, throw_if, transaction}
use dohost.Errors.{Error, app, app_error, business_rule}
use dohost.Permissions.{clients_write}
use dohost.Rbac.{require_permission}
use dohost.Store.{RowId, Tables, Time}
use dohost.Data.{
  Db, Client, ClientContact, ClientNote, ClientStatus, active, pending_verification, suspended,
  closed, AccountStatus, ActorType, StatusEntity, of_client, AuditEntity, AuditAction, Value,
  Fields,
}
use dohost.Actors.{StaffActor, ClientPortalActor, TransitionActor}
use dohost.Audit.{record_audit_log, record_status_transition}
use dohost.Tokens.{is_set}

-- CLIENT_TRANSITIONS
unfoldable pub client_transitions : ClientStatus → List ClientStatus
client_transitions pending_verification = active ∷ closed ∷ []
client_transitions active = suspended ∷ closed ∷ []
client_transitions suspended = active ∷ closed ∷ []
client_transitions closed = []

-- A number for each status, by which two are compared.
abbrev pub status_number : ClientStatus → ℕ
status_number active = 0
status_number pending_verification = 1
status_number suspended = 2
status_number closed = 3

abbrev pub status_eq : ClientStatus → ClientStatus → Bool
status_eq a b = status_number a == status_number b

-- `allowed.includes(toStatus)`
unfoldable pub is_valid_client_transition : ClientStatus → ClientStatus → Bool
is_valid_client_transition from to = any (status_eq to) (client_transitions from)

abbrev pub invalid_transition : Error
invalid_transition = app (app_error business_rule "client.invalid_transition")

-- `!contact || contact.status !== "ACTIVE" || contact.deletedAt`, for an account that is there
abbrev pub is_enabled : AccountStatus → Option Time → Bool
is_enabled AccountStatus.active none = true
is_enabled _ _ = false

-- `${firstName} ${lastName} <${email}>`
abbrev pub full_label : Text → Text → Text → Text
full_label first last email = first ++ (codes " " ++ (last ++ (codes " <" ++ (email ++ codes ">"))))

module _ (T : Tables) where
  -- `transitionClientStatus`, which returns the updated client. The label of the actor is not read.
  unfoldable pub transition_client_status :
      RowId → ClientStatus → TransitionActor → Option Text → Action (Db T) Client
  transition_client_status client_id to_status actor reason = do
    client ← (λ db. or_throw (T.find db.clients client_id) db)
    throw_if (not (is_valid_client_transition client.status to_status)) invalid_transition
    let updated = record client { status = to_status }
    modify (λ db. record db { clients = T.write db.clients client_id updated })
    record_status_transition T (record {
      tenant_id = client.tenant_id;
      entity_type = StatusEntity.client;
      entity_id = client_id;
      from_status = some (of_client client.status);
      to_status = of_client to_status;
      actor_type = actor.type;
      actor_id = actor.id;
      reason = reason;
      metadata = none;
    })
    pure updated

  -- The actor of a contact that may act.
  unfoldable pub portal_actor : RowId → Option ClientContact → Option ClientPortalActor
  portal_actor contact_id none = none
  portal_actor contact_id (some contact) =
      if is_enabled contact.status contact.deleted_at
      then some (record {
        id = contact_id;
        client_id = contact.client_id;
        tenant_id = contact.tenant_id;
        label = full_label contact.first_name contact.last_name contact.email;
        permissions = [];
      })
      else none

  -- `loadClientPortalActor`
  unfoldable pub load_client_portal_actor : RowId → Db T → Option ClientPortalActor
  load_client_portal_actor contact_id db =
      portal_actor contact_id (T.find db.client_contacts contact_id)

  -- `addClientNote`
  unfoldable pub add_client_note : StaffActor → RowId → Text → Action (Db T) (Unit {0})
  add_client_note actor client_id body = do
    lift (require_permission actor.permissions clients_write)
    modify (λ db. record db {
      client_notes =
          (T.create db.client_notes (record {
            tenant_id = actor.tenant_id;
            client_id = client_id;
            body = body;
            author_staff_user_id = some actor.id;
            author_label = actor.label;
          })).1;
    })

  -- The body of the transaction of `changeClientStatus`.
  unfoldable pub move_client : StaffActor → RowId → ClientStatus → Text → Action (Db T) (Unit {0})
  move_client actor client_id to_status reason = do
    updated ←
        transition_client_status client_id to_status
          (record { type = ActorType.staff; id = some actor.id; label = none }) (some reason)
    record_audit_log T (record {
      tenant_id = actor.tenant_id;
      actor_type = ActorType.staff;
      actor_id = some actor.id;
      actor_label = some actor.label;
      action = AuditAction.client_status_changed;
      entity_type = AuditEntity.client;
      entity_id = client_id;
      ip = none;
      before_state = none;
      after_state = some ((codes "status", Value.status (of_client updated.status)) ∷ []);
      reason = some reason;
      metadata = none;
    })

  -- `changeClientStatus`
  unfoldable pub change_client_status :
      StaffActor → RowId → ClientStatus → Text → Action (Db T) (Unit {0})
  change_client_status actor client_id to_status reason = do
    lift (require_permission actor.permissions clients_write)
    transaction (move_client actor client_id to_status reason)
