-- ===== src/Invoices/Payment.antt =====
-- `markInvoicePaidManually` of packages/billing/src/invoices.ts.
use dohost.Base.{Bool, true, Option, none, some, [], ◌∷◌, Text, codes, if◌then◌else◌}
use dohost.Base.Int.{ℤ, pos, leb_ℤ}
use dohost.Service.{Action, ◌>>=◌, ◌>>◌, pure, lift, modify, or_throw, transaction}
use dohost.Errors.{Result, ok, err, Error, app, app_error, business_rule}
use dohost.Money.{Number, int, fraction}
use dohost.Permissions.{invoices_write}
use dohost.Rbac.{require_permission}
use dohost.Store.{RowId, Tables}
use dohost.Data.{
  Db, Time, Invoice, OrderStatus, ActorType, StatusEntity, of_invoice, AuditEntity, AuditAction,
  Value,
}
use dohost.Actors.{StaffActor, staff_transition}
use dohost.Audit.{record_audit_log, record_status_transition}
use dohost.Orders.{transition_order_status}
use dohost.Invoices.Due.{PaymentDue, payment_due}

pub record PaymentInput : Type 0 where
  pub amount : Number
  pub reference : Option Text
  pub reason : Option Text

abbrev pub invalid_amount : Error
invalid_amount = app (app_error business_rule "invoice.invalid_amount")

-- `!Number.isInteger(input.amount) || input.amount <= 0`, and the integer handed on.
abbrev pub payment_amount : Number → Result ℤ
payment_amount (int n) = if leb_ℤ n (pos 0) then err invalid_amount else ok n
payment_amount fraction = err invalid_amount

abbrev pub text_or : Option Text → Text → Text
text_or none d = d
text_or (some t) d = t

abbrev optional_text : Option Text → Value
optional_text none = Value.missing
optional_text (some t) = Value.text t

-- The invoice with the payment entered.
abbrev pub with_payment : Time → Invoice → PaymentDue → Invoice
with_payment now invoice due = record invoice {
  amount_paid = due.new_paid;
  amount_due = due.new_due;
  status = due.next_status;
  paid_at = if due.is_settled then some now else invoice.paid_at;
}

module _ (T : Tables) where
  -- `if (nextStatus === "PAID" && invoice.orderId)` the order is paid.
  unfoldable pub settle_order : StaffActor → Bool → Option RowId → Action (Db T) (Unit {0})
  settle_order actor true (some order_id) =
      transition_order_status T order_id OrderStatus.paid (staff_transition actor)
        (some (codes "invoice_paid"))
      >> pure tt
  settle_order actor _ _ = pure tt

  -- The payment on the invoice, in the history and in the audit log.
  unfoldable pub record_payment :
      Time → StaffActor → RowId → PaymentInput → ℤ → Invoice → PaymentDue → Action (Db T) (Unit {0})
  record_payment now actor invoice_id input amount invoice due = do
    modify (λ db. record db {
      invoices = T.write db.invoices invoice_id (with_payment now invoice due);
    })
    record_status_transition T (record {
      tenant_id = invoice.tenant_id;
      entity_type = StatusEntity.invoice;
      entity_id = invoice_id;
      from_status = some (of_invoice invoice.status);
      to_status = of_invoice due.next_status;
      actor_type = ActorType.staff;
      actor_id = some actor.id;
      reason = some (text_or input.reason (codes "manual_payment_recorded"));
      metadata = some (
          (codes "amount", Value.number amount)
          ∷ (codes "reference", optional_text input.reference)
          ∷ []);
    })
    record_audit_log T (record {
      tenant_id = invoice.tenant_id;
      actor_type = ActorType.staff;
      actor_id = some actor.id;
      actor_label = some actor.label;
      action = AuditAction.invoice_marked_paid;
      entity_type = AuditEntity.invoice;
      entity_id = invoice_id;
      ip = none;
      before_state = none;
      after_state = some (
          (codes "amountPaid", Value.number due.new_paid)
          ∷ (codes "status", Value.status (of_invoice due.next_status))
          ∷ []);
      reason = input.reason;
      metadata = some ((codes "reference", optional_text input.reference) ∷ []);
    })

  -- The writes of a payment, once the invoice and what is left to pay are known.
  unfoldable pub enter_payment :
      Time → StaffActor → RowId → PaymentInput → ℤ → Invoice → PaymentDue → Action (Db T) Invoice
  enter_payment now actor invoice_id input amount invoice due = do
    record_payment now actor invoice_id input amount invoice due
    settle_order actor due.is_settled invoice.order_id
    pure (with_payment now invoice due)

  -- The body of the transaction.
  unfoldable pub pay_invoice : Time → StaffActor → RowId → PaymentInput → ℤ → Action (Db T) Invoice
  pay_invoice now actor invoice_id input amount = do
    invoice ← (λ db. or_throw (T.find db.invoices invoice_id) db)
    due ← lift (payment_due invoice amount)
    enter_payment now actor invoice_id input amount invoice due

  -- `markInvoicePaidManually`
  unfoldable pub mark_invoice_paid_manually :
      Time → StaffActor → RowId → PaymentInput → Action (Db T) Invoice
  mark_invoice_paid_manually now actor invoice_id input = do
    lift (require_permission actor.permissions invoices_write)
    amount ← lift (payment_amount input.amount)
    transaction (pay_invoice now actor invoice_id input amount)
