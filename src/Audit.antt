-- ===== src/Audit.antt =====
-- packages/db/src/audit.ts: the two append-only tables. An input has `Option` where the source takes
-- a value, null or nothing. No modelled caller passes a user agent or a request id.
use dohost.Service.{Action, modify}
use dohost.Store.{Tables}
use dohost.Data.{Db, StatusHistory, AuditLog}

module _ (T : Tables) where
  -- `recordAuditLog`
  unfoldable pub record_audit_log : AuditLog → Action (Db T) (Unit {0})
  record_audit_log input = modify λ db. record db { audit_log = (T.create db.audit_log input).1 }

  -- `recordStatusTransition`
  unfoldable pub record_status_transition : StatusHistory → Action (Db T) (Unit {0})
  record_status_transition input =
      modify λ db. record db { status_history = (T.create db.status_history input).1 }
