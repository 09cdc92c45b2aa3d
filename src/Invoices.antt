-- ===== src/Invoices.antt =====
-- packages/billing/src/invoices.ts: the invoice state machine and the transition of one invoice.
pub mod Balance
pub mod Due
pub mod Issuing
pub mod Ledger
pub mod Lines
pub mod Machine
pub mod Manual
pub mod Issue
pub mod Payment
pub mod Tests
use dohost.Base.{
  ℕ, Bool, true, false, not, Option, none, some, List, [], ◌∷◌, Text, codes, ◌==◌, any,
  if◌then◌else◌,
}
use dohost.Service.{Action, ◌>>=◌, ◌>>◌, pure, lift, modify, or_throw, throw_if, transaction}
use dohost.Errors.{Error, app, app_error, business_rule}
use dohost.Permissions.{invoices_write}
use dohost.Rbac.{require_permission}
use dohost.Store.{RowId, Tables}
use dohost.Data.{
  Db, Invoice, InvoiceStatus, draft, issued, unpaid, partially_paid, paid, overdue, collections,
  cancelled, refunded, ActorType, StatusEntity, of_invoice, AuditEntity, AuditAction, Value, Fields,
}
use dohost.Actors.{StaffActor, TransitionActor, staff_transition}
use dohost.Audit.{record_audit_log, record_status_transition}

-- INVOICE_TRANSITIONS
unfoldable pub invoice_transitions : InvoiceStatus → List InvoiceStatus
invoice_transitions draft = issued ∷ cancelled ∷ []
invoice_transitions issued = partially_paid ∷ paid ∷ overdue ∷ cancelled ∷ []
invoice_transitions unpaid = partially_paid ∷ paid ∷ overdue ∷ cancelled ∷ []
invoice_transitions partially_paid = paid ∷ overdue ∷ collections ∷ cancelled ∷ []
invoice_transitions overdue = partially_paid ∷ paid ∷ collections ∷ cancelled ∷ []
invoice_transitions collections = paid ∷ cancelled ∷ []
invoice_transitions paid = refunded ∷ []
invoice_transitions cancelled = []
invoice_transitions refunded = []

-- A number for each status, by which two are compared.
abbrev pub status_number : InvoiceStatus → ℕ
status_number draft = 0
status_number issued = 1
status_number unpaid = 2
status_number partially_paid = 3
status_number paid = 4
status_number overdue = 5
status_number collections = 6
status_number cancelled = 7
status_number refunded = 8

abbrev pub status_eq : InvoiceStatus → InvoiceStatus → Bool
status_eq a b = status_number a == status_number b

-- `isValidInvoiceTransition`
unfoldable pub is_valid_invoice_transition : InvoiceStatus → InvoiceStatus → Bool
is_valid_invoice_transition from to = any (status_eq to) (invoice_transitions from)

abbrev pub invalid_transition : Error
invalid_transition = app (app_error business_rule "invoice.invalid_transition")

module _ (T : Tables) where
  -- `transitionInvoiceStatus`, which returns the updated invoice.
  unfoldable pub transition_invoice_status :
      RowId → InvoiceStatus → TransitionActor → Option Text → Action (Db T) Invoice
  transition_invoice_status invoice_id to_status actor reason = do
    invoice ← (λ db. or_throw (T.find db.invoices invoice_id) db)
    throw_if (not (is_valid_invoice_transition invoice.status to_status)) invalid_transition
    let updated = record invoice { status = to_status }
    modify (λ db. record db { invoices = T.write db.invoices invoice_id updated })
    record_status_transition T (record {
      tenant_id = invoice.tenant_id;
      entity_type = StatusEntity.invoice;
      entity_id = invoice_id;
      from_status = some (of_invoice invoice.status);
      to_status = of_invoice to_status;
      actor_type = actor.type;
      actor_id = actor.id;
      reason = reason;
      metadata = none;
    })
    pure updated

  -- `cancelInvoice`
  unfoldable pub cancel_invoice : StaffActor → RowId → Text → Action (Db T) Invoice
  cancel_invoice actor invoice_id reason = do
    lift (require_permission actor.permissions invoices_write)
    transaction do
      updated ←
          transition_invoice_status invoice_id cancelled (staff_transition actor) (some reason)
      record_audit_log T (record {
        tenant_id = actor.tenant_id;
        actor_type = ActorType.staff;
        actor_id = some actor.id;
        actor_label = some actor.label;
        action = AuditAction.invoice_status_changed;
        entity_type = AuditEntity.invoice;
        entity_id = invoice_id;
        ip = none;
        before_state = none;
        after_state = some ((codes "status", Value.status (of_invoice cancelled)) ∷ []);
        reason = some reason;
        metadata = none;
      })
      pure updated
