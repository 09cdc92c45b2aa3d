-- ===== src/Web/Session.antt =====
-- apps/web/src/lib/session.ts and the callbacks `jwt` and `session` of apps/web/src/auth.ts.
use dohost.Base.{Bool, Option, none, some, List, [], ◌∷◌, Text}
use dohost.Service.{Action, ◌>>=◌, pure}
use dohost.Permissions.{PermissionKey}
use dohost.Store.{RowId, Tables, Time}
use dohost.Data.{Db, AuthActor, staff, client_contact}
use dohost.Actors.{StaffActor, ClientPortalActor}
use dohost.Outside.{Outside}
use dohost.Tokens.{is_set}
use dohost.Sessions.{ClientSessionContext, validate_staff_session, validate_client_session}

-- `Session`, with the name and the email of its `user`.
pub record WebSession : Type 0 where
  pub actor_type : Option AuthActor
  pub user_id : Option RowId
  pub tenant_id : Option RowId
  pub client_id : Option RowId
  pub permissions : Option (List PermissionKey)
  pub impersonated_by_staff_user_id : Option RowId
  pub user_name : Option Text
  pub user_email : Option Text

-- The claims of the token that the callbacks read.
pub record Claims : Type 0 where
  pub actor_type : Option AuthActor
  pub session_token : Option Text

-- What `authorize` returns of a user.
pub record SignedInUser : Type 0 where
  pub id : RowId
  pub email : Text
  pub name : Text
  pub actor_type : AuthActor
  pub session_token : Text
  pub must_change_password : Option Bool

-- `jwt`
abbrev pub jwt : Claims → Option SignedInUser → Claims
jwt token none = token
jwt token (some user) = record {
  actor_type = some user.actor_type;
  session_token = some user.session_token;
}

-- The session that a loaded actor is written to.
abbrev pub staff_web_session : WebSession → Option StaffActor → WebSession
staff_web_session session none = session
staff_web_session session (some actor) = record session {
  actor_type = some staff;
  user_id = some actor.id;
  tenant_id = some actor.tenant_id;
  permissions = some actor.permissions;
  user_name = some actor.label;
}

abbrev pub client_web_session : WebSession → Option ClientSessionContext → WebSession
client_web_session session none = session
client_web_session session (some context) = record session {
  actor_type = some client_contact;
  user_id = some context.actor.id;
  client_id = some context.actor.client_id;
  tenant_id = some context.actor.tenant_id;
  impersonated_by_staff_user_id = context.impersonated_by_staff_user_id;
  user_name = some context.actor.label;
}

-- What the callback does of the two claims.
abbrev pub web_session_of :
    (T : Tables)
    → Outside
    → Time
    → WebSession
    → Option AuthActor
    → Option Text
    → Action (Db T) WebSession
web_session_of T outside now session (some staff) (some (c ∷ t)) =
    validate_staff_session T outside.hash_token now (c ∷ t) >>= λ actor.
    pure (staff_web_session session actor)
web_session_of T outside now session (some client_contact) (some (c ∷ t)) =
    validate_client_session T outside.hash_token now (c ∷ t) >>= λ context.
    pure (client_web_session session context)
web_session_of T outside now session _ _ = pure session

-- `session`
unfoldable pub web_session :
    (T : Tables) → Outside → Time → WebSession → Claims → Action (Db T) WebSession
web_session T outside now session token =
    web_session_of T outside now session token.actor_type token.session_token

-- `session.user?.name ?? session.user?.email ?? session.userId`
abbrev pub label_of : Option Text → Option Text → Text → Text
label_of (some name) email user_id = name
label_of none (some email) user_id = email
label_of none none user_id = user_id

abbrev staff_actor_of :
    Outside
    → WebSession
    → Option AuthActor
    → Option RowId
    → Option RowId
    → Option (List PermissionKey)
    → Option StaffActor
staff_actor_of outside session (some staff) (some user_id) (some tenant_id) (some permissions) =
    some (record {
      id = user_id;
      tenant_id = tenant_id;
      label = label_of session.user_name session.user_email (outside.id_text user_id);
      permissions = permissions;
    })
staff_actor_of outside session _ _ _ _ = none

-- `getStaffActor`; `requireStaffActor` redirects to "/admin/login" where there is none.
unfoldable pub get_staff_actor : Outside → WebSession → Option StaffActor
get_staff_actor outside session =
    staff_actor_of outside session session.actor_type session.user_id session.tenant_id
      session.permissions

abbrev client_actor_of :
    Outside
    → WebSession
    → Option AuthActor
    → Option RowId
    → Option RowId
    → Option RowId
    → Option ClientPortalActor
client_actor_of outside session (some client_contact) (some user_id) (some client_id)
      (some tenant_id) =
    some (record {
      id = user_id;
      client_id = client_id;
      tenant_id = tenant_id;
      label = label_of session.user_name session.user_email (outside.id_text user_id);
      permissions = [];
    })
client_actor_of outside session _ _ _ _ = none

-- `getClientActor`; `requireClientActor` redirects to "/login" where there is none.
unfoldable pub get_client_actor : Outside → WebSession → Option ClientPortalActor
get_client_actor outside session =
    client_actor_of outside session session.actor_type session.user_id session.client_id
      session.tenant_id

-- `isImpersonating`
abbrev pub is_impersonating : WebSession → Bool
is_impersonating session = is_set session.impersonated_by_staff_user_id
