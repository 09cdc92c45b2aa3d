-- ===== src/Sessions.antt =====
-- packages/core/src/sessions.ts: sessions of staff and of client contacts. `now` is the time at which
-- the call reads the clock. A token comes from `generateToken` and is stored by its hash; the random
-- token is an argument of the calls that make one, and the hash function, of the cryptographic
-- library, is a parameter.
pub mod Calls
pub mod Holders
pub mod Lookup
pub mod Refinement
pub mod Revoked
pub mod Tests
use dohost.Base.{
  ℕ, ◌+◌, ◌*◌, Bool, true, false, not, Option, none, some, List, [], ◌∷◌, Text, text_eq, ◌&&◌, ltb,
  ◌==◌, if◌then◌else◌,
}
use dohost.Errors.{ok}
use dohost.Service.{Action, ◌>>=◌, ◌>>◌, pure, modify}
use dohost.Store.{RowId, Tables}
use dohost.Data.{Db, Time, StaffSession, ClientSession}
use dohost.Actors.{StaffActor, ClientPortalActor}
use dohost.Clients.{load_client_portal_actor}
use dohost.Staff.{load_staff_actor}

-- SESSION_TTL_MS
abbrev pub session_ttl : Time
session_ttl = 7 * 24 * 60 * 60 * 1000

-- IMPERSONATION_TTL_MS
abbrev pub impersonation_ttl : Time
impersonation_ttl = 30 * 60 * 1000

pub record StaffSessionInput : Type 0 where
  pub user_id : RowId
  pub tenant_id : RowId
  pub ip : Option Text
  pub user_agent : Option Text

pub record ClientSessionInput : Type 0 where
  pub contact_id : RowId
  pub tenant_id : RowId
  pub ip : Option Text
  pub user_agent : Option Text
  pub impersonated_by_staff_user_id : Option RowId
  pub impersonation_reason : Option Text

abbrev pub is_some {ℓ} : {A : Type ℓ} → Option A → Bool
is_some none = false
is_some (some _) = true

-- `!session.revokedAt && !(session.expiresAt < now)`
abbrev pub is_live : Option Time → Time → Time → Bool
is_live revoked_at expires_at now = not (is_some revoked_at) && not (ltb expires_at now)

pub record ClientSessionContext : Type 0 where
  pub actor : ClientPortalActor
  pub impersonated_by_staff_user_id : Option RowId

module _ (T : Tables) where
  -- `listStaffSessions`
  unfoldable pub list_staff_sessions : Time → RowId → Db T → List (RowId × StaffSession)
  list_staff_sessions now user_id db =
      T.find_many db.staff_sessions
        (λ s. (s.user_id == user_id) && (not (is_some s.revoked_at) && ltb now s.expires_at))
        (λ a b. ltb b.last_seen_at a.last_seen_at)

  -- `listClientSessions`
  unfoldable pub list_client_sessions : Time → RowId → Db T → List (RowId × ClientSession)
  list_client_sessions now contact_id db =
      T.find_many db.client_sessions
        (λ s. (s.contact_id == contact_id) && (not (is_some s.revoked_at) && ltb now s.expires_at))
        (λ a b. ltb b.last_seen_at a.last_seen_at)

module _ (T : Tables) (hash_token : Text → Text) where
  -- `createStaffSession`, with the token that was generated.
  unfoldable pub create_staff_session : Time → Text → StaffSessionInput → Action (Db T) Text
  create_staff_session now token input = do
    modify (λ db. record db {
      staff_sessions =
          (T.create db.staff_sessions (record {
            tenant_id = input.tenant_id;
            user_id = input.user_id;
            token_hash = hash_token token;
            ip = input.ip;
            user_agent = input.user_agent;
            last_seen_at = now;
            expires_at = now + session_ttl;
            revoked_at = none;
            revoked_reason = none;
          })).1;
    })
    pure token

  -- What `validateStaffSession` does of the session that it finds.
  unfoldable pub touch_staff_session :
      Time → Option (RowId × StaffSession) → Action (Db T) (Option RowId)
  touch_staff_session now none db = (ok none, db)
  touch_staff_session now (some (i, s)) db =
      if is_live s.revoked_at s.expires_at now
      then (
        ok (some s.user_id),
        record db {
          staff_sessions = T.write db.staff_sessions i (record s { last_seen_at = now });
        },
      )
      else (ok none, db)

  -- The look-up by the hash of the token: the id of the user of a live session.
  unfoldable pub find_staff_session : Time → Text → Action (Db T) (Option RowId)
  find_staff_session now token db =
      touch_staff_session now
        (T.find_first db.staff_sessions (λ s. text_eq s.token_hash (hash_token token))) db

  -- `return loadStaffActor(session.userId)`
  unfoldable pub load_session_user : Option RowId → Db T → Option StaffActor
  load_session_user none db = none
  load_session_user (some user_id) db = load_staff_actor T user_id db

  -- `validateStaffSession`
  unfoldable pub validate_staff_session : Time → Text → Action (Db T) (Option StaffActor)
  validate_staff_session now token =
      find_staff_session now token >>= λ user db. (ok (load_session_user user db), db)

  -- `revokeStaffSession`
  unfoldable pub revoke_staff_session : Time → Text → Text → Action (Db T) (Unit {0})
  revoke_staff_session now token reason = modify (λ db. record db {
    staff_sessions =
        T.update_many db.staff_sessions
          (λ s. text_eq s.token_hash (hash_token token) && not (is_some s.revoked_at))
          (λ s. record s { revoked_at = some now; revoked_reason = some reason });
  })

  -- `createClientSession`, with the token that was generated.
  unfoldable pub create_client_session : Time → Text → ClientSessionInput → Action (Db T) Text
  create_client_session now token input = do
    let ttl = if is_some input.impersonated_by_staff_user_id then impersonation_ttl else session_ttl
    modify (λ db. record db {
      client_sessions =
          (T.create db.client_sessions (record {
            tenant_id = input.tenant_id;
            contact_id = input.contact_id;
            token_hash = hash_token token;
            ip = input.ip;
            user_agent = input.user_agent;
            last_seen_at = now;
            expires_at = now + ttl;
            revoked_at = none;
            revoked_reason = none;
            impersonated_by_staff_user_id = input.impersonated_by_staff_user_id;
            impersonation_reason = input.impersonation_reason;
          })).1;
    })
    pure token

  -- What `validateClientSession` does of the session that it finds.
  unfoldable pub touch_client_session :
      Time → Option (RowId × ClientSession) → Action (Db T) (Option (RowId × Option RowId))
  touch_client_session now none db = (ok none, db)
  touch_client_session now (some (i, s)) db =
      if is_live s.revoked_at s.expires_at now
      then (
        ok (some (s.contact_id, s.impersonated_by_staff_user_id)),
        record db {
          client_sessions = T.write db.client_sessions i (record s { last_seen_at = now });
        },
      )
      else (ok none, db)

  -- The look-up by the hash of the token: the contact of a live session, and who impersonates it.
  unfoldable pub find_client_session : Time → Text → Action (Db T) (Option (RowId × Option RowId))
  find_client_session now token db =
      touch_client_session now
        (T.find_first db.client_sessions (λ s. text_eq s.token_hash (hash_token token))) db

  -- The context of an actor, if there is one.
  unfoldable pub context_of : Option RowId → Option ClientPortalActor → Option ClientSessionContext
  context_of staff_id none = none
  context_of staff_id (some actor) =
      some (record { actor = actor; impersonated_by_staff_user_id = staff_id })

  unfoldable pub load_session_contact :
      Option (RowId × Option RowId) → Db T → Option ClientSessionContext
  load_session_contact none db = none
  load_session_contact (some (contact_id, staff_id)) db =
      context_of staff_id (load_client_portal_actor T contact_id db)

  -- `validateClientSession`
  unfoldable pub validate_client_session : Time → Text → Action (Db T) (Option ClientSessionContext)
  validate_client_session now token =
      find_client_session now token >>= λ contact db. (ok (load_session_contact contact db), db)

  -- `revokeClientSession`
  unfoldable pub revoke_client_session : Time → Text → Text → Action (Db T) (Unit {0})
  revoke_client_session now token reason = modify (λ db. record db {
    client_sessions =
        T.update_many db.client_sessions
          (λ s. text_eq s.token_hash (hash_token token) && not (is_some s.revoked_at))
          (λ s. record s { revoked_at = some now; revoked_reason = some reason });
  })
