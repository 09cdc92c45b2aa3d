-- ===== src/Staff/Disable.antt =====
-- `disableStaffUser` of packages/core/src/staff.ts.
use dohost.Base.{Bool, not, none, some, codes, ◌==◌, ◌&&◌}
use dohost.Service.{Action, ◌>>=◌, ◌>>◌, lift, modify, or_throw, transaction}
use dohost.Permissions.{staff_manage}
use dohost.Rbac.{require_permission}
use dohost.Store.{RowId, Tables, Time}
use dohost.Data.{Db, StaffSession, AccountStatus, ActorType, AuditEntity, AuditAction}
use dohost.Actors.{StaffActor}
use dohost.Audit.{record_audit_log}
use dohost.Tokens.{is_set}

-- The rows of the `updateMany`, and what it makes of one.
abbrev pub is_open_session_of : RowId → StaffSession → Bool
is_open_session_of user_id s = (s.user_id == user_id) && not (is_set s.revoked_at)

abbrev pub end_session : Time → StaffSession → StaffSession
end_session now s = record s {
  revoked_at = some now;
  revoked_reason = some (codes "account_disabled");
}

module _ (T : Tables) where
  -- The body of the transaction.
  unfoldable pub disable_user : Time → StaffActor → RowId → Action (Db T) (Unit {0})
  disable_user now actor user_id = do
    user ← (λ db. or_throw (T.find db.staff_users user_id) db)
    modify (λ db. record db {
      staff_users =
          T.write db.staff_users user_id (record user { status = AccountStatus.disabled });
    })
    record_audit_log T (record {
      tenant_id = actor.tenant_id;
      actor_type = ActorType.staff;
      actor_id = some actor.id;
      actor_label = some actor.label;
      action = AuditAction.staff_user_disabled;
      entity_type = AuditEntity.staff_user;
      entity_id = user_id;
      ip = none;
      before_state = none;
      after_state = none;
      reason = none;
      metadata = none;
    })
    modify (λ db. record db {
      staff_sessions =
          T.update_many db.staff_sessions (is_open_session_of user_id) (end_session now);
    })

  -- `disableStaffUser`
  unfoldable pub disable_staff_user : Time → StaffActor → RowId → Action (Db T) (Unit {0})
  disable_staff_user now actor user_id = do
    lift (require_permission actor.permissions staff_manage)
    transaction (disable_user now actor user_id)
