-- ===== src/Actors.antt =====
-- The actors that the services take: `StaffActor` (packages/core/src/staff.ts) and
-- `ClientPortalActor` (packages/core/src/clients.ts), and the actor of a status transition.
use dohost.Base.{Bool, true, false, Option, none, some, List, [], ◌∷◌, Text}
use dohost.Store.{RowId}
use dohost.Permissions.{PermissionKey}
use dohost.Data.{ActorType}

pub record StaffActor : Type 0 where
  pub id : RowId
  pub tenant_id : RowId
  pub label : Text
  pub permissions : List PermissionKey

pub record ClientPortalActor : Type 0 where
  pub id : RowId
  pub client_id : RowId
  pub tenant_id : RowId
  pub label : Text
  pub permissions : List PermissionKey

-- `ClientPortalActor | StaffActor`, told apart by the field `type`
pub data Actor : Type 0 where
  of_client : ClientPortalActor → Actor
  of_staff : StaffActor → Actor

abbrev pub actor_tenant : Actor → RowId
actor_tenant (of_client a) = a.tenant_id
actor_tenant (of_staff a) = a.tenant_id

abbrev pub actor_id : Actor → RowId
actor_id (of_client a) = a.id
actor_id (of_staff a) = a.id

abbrev pub actor_label : Actor → Text
actor_label (of_client a) = a.label
actor_label (of_staff a) = a.label

abbrev pub actor_type : Actor → ActorType
actor_type (of_client a) = ActorType.client_contact
actor_type (of_staff a) = ActorType.staff

pub record TransitionActor : Type 0 where
  pub type : ActorType
  pub id : Option RowId
  pub label : Option Text

-- `if (text)`: neither absent nor empty
abbrev pub is_truthy : Option Text → Bool
is_truthy none = false
is_truthy (some []) = false
is_truthy (some (_ ∷ _)) = true

-- `{ type: "STAFF", id: actor.id, label: actor.label }`
abbrev pub staff_transition : StaffActor → TransitionActor
staff_transition a = record { type = ActorType.staff; id = some a.id; label = some a.label }
