-- ===== src/Clients/Profile.antt =====
-- `updateClientProfile` of packages/core/src/clients.ts.
use dohost.Base.{not, Option, none, some, List, [], ◌∷◌, map, Text, codes, ◌==◌, if◌then◌else◌}
use dohost.Service.{Action, ◌>>=◌, ◌>>◌, lift, modify, or_throw, transaction}
use dohost.Errors.{Result, ok, err, Error, app, app_error, business_rule}
use dohost.Permissions.{clients_write}
use dohost.Rbac.{require_permission}
use dohost.Store.{RowId, Tables}
use dohost.Data.{Db, Client, AuditEntity, AuditAction, Value, Fields}
use dohost.Actors.{Actor, of_client, of_staff, actor_id, actor_label, actor_type}
use dohost.Audit.{record_audit_log}

-- The keys of `patch`.
pub data ProfileField : Type 0 where
  first_name last_name company_name phone address_line1 address_line2 : ProfileField
  city state postal_code country language timezone : ProfileField

-- The own keys of `patch`, in order; a key whose value is `undefined` has none.
abbrev pub Patch : Type 0
Patch = List (ProfileField × Option Text)

abbrev pub field_key : ProfileField → Text
field_key first_name = codes "firstName"
field_key last_name = codes "lastName"
field_key company_name = codes "companyName"
field_key phone = codes "phone"
field_key address_line1 = codes "addressLine1"
field_key address_line2 = codes "addressLine2"
field_key city = codes "city"
field_key state = codes "state"
field_key postal_code = codes "postalCode"
field_key country = codes "country"
field_key language = codes "language"
field_key timezone = codes "timezone"

abbrev pub optional_value : Option Text → Value
optional_value none = Value.missing
optional_value (some t) = Value.text t

abbrev pub field_value : Client → ProfileField → Option Text
field_value c first_name = some c.first_name
field_value c last_name = some c.last_name
field_value c company_name = c.company_name
field_value c phone = c.phone
field_value c address_line1 = c.address_line1
field_value c address_line2 = c.address_line2
field_value c city = c.city
field_value c state = c.state
field_value c postal_code = c.postal_code
field_value c country = c.country
field_value c language = some c.language
field_value c timezone = some c.timezone

abbrev pub set_field : ProfileField → Text → Client → Client
set_field first_name t c = record c { first_name = t }
set_field last_name t c = record c { last_name = t }
set_field company_name t c = record c { company_name = some t }
set_field phone t c = record c { phone = some t }
set_field address_line1 t c = record c { address_line1 = some t }
set_field address_line2 t c = record c { address_line2 = some t }
set_field city t c = record c { city = some t }
set_field state t c = record c { state = some t }
set_field postal_code t c = record c { postal_code = some t }
set_field country t c = record c { country = some t }
set_field language t c = record c { language = t }
set_field timezone t c = record c { timezone = t }

-- `update({ data: patch })`: a value of `undefined` changes nothing.
unfoldable pub apply_patch : Patch → Client → Client
apply_patch [] c = c
apply_patch ((f, none) ∷ patch) c = apply_patch patch c
apply_patch ((f, some t) ∷ patch) c = apply_patch patch (set_field f t c)

-- `patch` as an object.
abbrev pub patch_fields : Patch → Fields
patch_fields patch = map (λ e. (field_key e.0, optional_value e.1)) patch

-- The values that a client has under the keys of `patch`.
abbrev pub values_of : Client → Patch → Fields
values_of c patch = map (λ e. (field_key e.0, optional_value (field_value c e.0))) patch

abbrev pub client_forbidden : Error
client_forbidden = app (app_error business_rule "client.forbidden")

-- The checks of the actor, by its type.
abbrev pub check_profile_actor : Actor → RowId → Result (Unit {0})
check_profile_actor (of_client a) client_id =
    if not (a.client_id == client_id) then err client_forbidden else ok tt
check_profile_actor (of_staff a) client_id = require_permission a.permissions clients_write

module _ (T : Tables) where
  -- The body of the transaction. Of the metadata, the object under its one key `previousValues`.
  unfoldable pub write_profile : Actor → RowId → Patch → Action (Db T) (Unit {0})
  write_profile actor client_id patch = do
    before ← (λ db. or_throw (T.find db.clients client_id) db)
    let after = apply_patch patch before
    modify (λ db. record db { clients = T.write db.clients client_id after })
    record_audit_log T (record {
      tenant_id = after.tenant_id;
      actor_type = actor_type actor;
      actor_id = some (actor_id actor);
      actor_label = some (actor_label actor);
      action = AuditAction.client_updated;
      entity_type = AuditEntity.client;
      entity_id = client_id;
      ip = none;
      before_state = some (patch_fields patch);
      after_state = some (values_of after patch);
      reason = none;
      metadata = some (values_of before patch);
    })

  -- `updateClientProfile`
  unfoldable pub update_client_profile : Actor → RowId → Patch → Action (Db T) (Unit {0})
  update_client_profile actor client_id patch = do
    lift (check_profile_actor actor client_id)
    transaction (write_profile actor client_id patch)
