-- ===== src/Invoices/Issue.antt =====
-- `issueInvoiceForOrder` of packages/billing/src/invoices.ts.
use dohost.Base.{ℕ, ◌+◌, ◌*◌, Option, none, some, [], ◌∷◌, ◌++◌, map, Text, codes, if◌then◌else◌}
use dohost.Base.Int.{pos, ◌+ℤ◌}
use dohost.Service.{Action, ◌>>=◌, ◌>>◌, pure, modify, or_throw, transaction}
use dohost.Store.{RowId, Tables}
use dohost.Data.{
  Db, Time, Client, Order, OrderItem, OrderStatus, Invoice, InvoiceItem, issued, StatusEntity,
  of_invoice, AuditEntity, AuditAction, Value, Fields,
}
use dohost.Actors.{TransitionActor}
use dohost.Audit.{record_audit_log, record_status_transition}
use dohost.Numbering.{next_sequence_number}
use dohost.Settings.{get_company_profile}
use dohost.Orders.{status_eq, transition_order_status}

-- DEFAULT_NET_TERMS_DAYS
abbrev pub default_net_terms_days : ℕ
default_net_terms_days = 7

-- A number of days in milliseconds.
abbrev pub days : ℕ → Time
days n = n * 24 * 60 * 60 * 1000

-- `a || b` on texts
abbrev pub first_truthy : Option Text → Text → Text
first_truthy none b = b
first_truthy (some []) b = b
first_truthy (some (c ∷ a)) b = c ∷ a

abbrev optional_text : Option Text → Value
optional_text none = Value.missing
optional_text (some t) = Value.text t

abbrev pub customer_snapshot_of : Client → Fields
customer_snapshot_of client =
    (
      codes "name",
      Value.text
          (first_truthy client.company_name (client.first_name ++ (b' ' ∷ client.last_name))),
    )
    ∷ (codes "email", Value.text client.email)
    ∷ (codes "addressLine1", optional_text client.address_line1)
    ∷ (codes "addressLine2", optional_text client.address_line2)
    ∷ (codes "city", optional_text client.city)
    ∷ (codes "state", optional_text client.state)
    ∷ (codes "postalCode", optional_text client.postal_code)
    ∷ (codes "country", optional_text client.country)
    ∷ (codes "taxId", optional_text client.tax_id)
    ∷ []

-- The description of a line: `name — description`, or the name alone.
abbrev pub description_of : OrderItem → Text
description_of item = elim item.description_snapshot [
  | none ↦ item.product_name_snapshot
  | some [] ↦ item.product_name_snapshot
  | some (c ∷ d) ↦ item.product_name_snapshot ++ (codes " — " ++ (c ∷ d))
]

-- The invoice line of an order item.
unfoldable pub invoice_item : OrderItem → InvoiceItem
invoice_item item = record {
  description = description_of item;
  quantity = item.quantity;
  unit_price = item.unit_price_snapshot;
  tax_amount = item.tax_snapshot;
  discount_amount = item.discount_snapshot;
  line_total = item.line_total +ℤ item.setup_fee_snapshot;
}

-- The invoice that is created.
unfoldable pub new_invoice : Time → RowId → Order → Client → Text → Fields → Invoice
new_invoice now order_id order client number company = record {
  tenant_id = order.tenant_id;
  client_id = order.client_id;
  order_id = some order_id;
  invoice_number = number;
  status = issued;
  currency = order.currency;
  subtotal = order.subtotal;
  discount_total = order.discount_total;
  tax_total = order.tax_total;
  total = order.total;
  amount_paid = pos 0;
  amount_due = order.total;
  due_date = now + days default_net_terms_days;
  issued_at = some now;
  paid_at = none;
  customer_snapshot = customer_snapshot_of client;
  company_snapshot = company;
  items = map invoice_item order.items;
}

module _ (T : Tables) where
  -- `if (order.status === "PENDING")` the order awaits its payment.
  unfoldable pub await_payment : RowId → Order → TransitionActor → Action (Db T) (Unit {0})
  await_payment order_id order actor =
      if status_eq order.status OrderStatus.pending
      then (transition_order_status T order_id OrderStatus.awaiting_payment actor
            (some (codes "invoice_issued"))
          >> pure tt)
      else pure tt

  -- The invoice with the two records that follow it.
  unfoldable pub insert_invoice :
      Order → TransitionActor → Text → Invoice → Action (Db T) (RowId × Invoice)
  insert_invoice order actor number invoice = do
    invoice_id ← (λ db. pure (T.create db.invoices invoice).0 db)
    modify (λ db. record db { invoices = (T.create db.invoices invoice).1 })
    record_status_transition T (record {
      tenant_id = order.tenant_id;
      entity_type = StatusEntity.invoice;
      entity_id = invoice_id;
      from_status = none;
      to_status = of_invoice issued;
      actor_type = actor.type;
      actor_id = actor.id;
      reason = none;
      metadata = none;
    })
    record_audit_log T (record {
      tenant_id = order.tenant_id;
      actor_type = actor.type;
      actor_id = actor.id;
      actor_label = actor.label;
      action = AuditAction.invoice_created;
      entity_type = AuditEntity.invoice;
      entity_id = invoice_id;
      ip = none;
      before_state = none;
      after_state = some (
          (codes "invoiceNumber", Value.text number)
          ∷ (codes "total", Value.number order.total)
          ∷ (codes "currency", Value.text order.currency)
          ∷ []);
      reason = none;
      metadata = none;
    })
    pure (invoice_id, invoice)

  -- The body of the transaction, once the client is loaded.
  unfoldable pub bill_client :
      Time → RowId → Order → TransitionActor → Client → Action (Db T) (RowId × Invoice)
  bill_client now order_id order actor client = do
    company ← (λ db. pure (get_company_profile T order.tenant_id db) db)
    number ← next_sequence_number T order.tenant_id (codes "invoice_number") (codes "INV-") 6
    written ←
        insert_invoice order actor number (new_invoice now order_id order client number company)
    await_payment order_id order actor
    pure written

  -- `issueInvoiceForOrder`, on the order that the caller has loaded.
  unfoldable pub issue_invoice_for_order :
      Time → RowId → Order → TransitionActor → Action (Db T) (RowId × Invoice)
  issue_invoice_for_order now order_id order actor = transaction do
    client ← (λ db. or_throw (T.find db.clients order.client_id) db)
    bill_client now order_id order actor client
