-- ===== src/Invoices/Issuing.antt =====
-- `issueInvoiceForOrder` as a whole: the invoice that it writes, and the invoices that it leaves.
use dohost.Base.{
  ◌+◌, ◌*◌, ℕ, ◌≡◌, refl, ◌∙◌, ap, sym, none, some, Text, codes, inl, inr, ◌==◌, Bool-cases,
  Option-cases, arith, if◌then◌else◌,
}
use dohost.Base.Int.{pos}
use dohost.Service.{transaction, transaction_err, transaction_ok, outcome-cases}
use dohost.Errors.{Result, ok, err, Error, record_not_found}
use dohost.Store.{RowId, Tables, IsLawful}
use dohost.Data.{Db, Time, issued, Client, Order, OrderStatus, Invoice}
use dohost.Actors.{TransitionActor}
use dohost.Audit.{record_audit_log, record_status_transition}
use dohost.Numbering.{next_sequence_number}
use dohost.Settings.{get_company_profile}
use dohost.Orders.{status_eq, transition_order_status}
use dohost.Invoices.Issue.{
  new_invoice, customer_snapshot_of, await_payment, insert_invoice, bill_client,
  issue_invoice_for_order,
}
use dohost.Invoices.Manual.{transition_order_status-invoices}

-- The next of the tenant's invoice numbers.
abbrev pub next_number : (T : Tables) → RowId → Db T → Result Text
next_number T tenant db =
    (next_sequence_number T tenant (codes "invoice_number") (codes "INV-") 6 db).0

numbered :
    (T : Tables) (tenant : RowId) (key prefix : Text) (padding : ℕ) (db : Db T)
    → (number : Text) × (after : Db T) × (next_sequence_number T tenant key prefix padding db
        ≡ (ok number, after))
      × (after.invoices ≡ db.invoices)
unfolding next_sequence_number
numbered T tenant key prefix padding db = (_, _, refl, refl)

insert_invoice-writes :
    (T : Tables) (order : Order) (actor : TransitionActor) (number : Text) (invoice : Invoice)
    (db : Db T)
    → (after : Db T) × (insert_invoice T order actor number invoice db
        ≡ (ok ((T.create db.invoices invoice).0, invoice), after))
      × (after.invoices ≡ (T.create db.invoices invoice).1)
unfolding insert_invoice record_status_transition record_audit_log
insert_invoice-writes T order actor number invoice db = (_, refl, refl)

-- An invoice that has been issued: the client it is for, its number, and the table with it.
pub record IsIssued (T : Tables) (now : Time) (order_id : RowId) (order : Order) (db after : Db T)
    (i : RowId) (invoice : Invoice) : Type 0 where
  pub client : Client
  pub number : Text
  pub known : T.find db.clients order.client_id ≡ some client
  pub written :
      invoice
      ≡ new_invoice now order_id order client number (get_company_profile T order.tenant_id db)
  -- the number is the next of the tenant's invoice numbers
  pub numbering : next_number T order.tenant_id db ≡ ok number
  pub numbered_so : invoice.invoice_number ≡ number
  -- the amounts are those of the order, and all is due
  pub subtotal : invoice.subtotal ≡ order.subtotal
  pub discount_total : invoice.discount_total ≡ order.discount_total
  pub tax_total : invoice.tax_total ≡ order.tax_total
  pub total : invoice.total ≡ order.total
  pub nothing_paid : invoice.amount_paid ≡ pos 0
  pub all_due : invoice.amount_due ≡ order.total
  -- it is issued now, for the order, its client and its tenant
  pub status : invoice.status ≡ issued
  pub issue_time : invoice.issued_at ≡ some now
  pub due_date : invoice.due_date ≡ now + 7 * 24 * 60 * 60 * 1000
  pub for_order : invoice.order_id ≡ some order_id
  pub for_client : invoice.client_id ≡ order.client_id
  pub in_tenant : invoice.tenant_id ≡ order.tenant_id
  pub currency : invoice.currency ≡ order.currency
  -- the details are those of the client and of the company as they are now
  pub customer : invoice.customer_snapshot ≡ customer_snapshot_of client
  pub company : invoice.company_snapshot ≡ get_company_profile T order.tenant_id db
  pub is_new : T.find db.invoices i ≡ none
  pub others :
      (j : RowId)
      → T.find after.invoices j ≡ (if j == i then some invoice else T.find db.invoices j)

module _ (T : Tables) (laws : IsLawful T) (now : Time) (order_id : RowId) (order : Order)
    (actor : TransitionActor) where
  await_payment-invoices :
      (db : Db T) → (await_payment T order_id order actor db).1.invoices ≡ db.invoices
  unfolding await_payment
  await_payment-invoices db =
      let reason = some (codes "invoice_issued") in
      let to = OrderStatus.awaiting_payment in
      let kept = transition_order_status-invoices T laws order_id to actor reason db in
      elim (Bool-cases (status_eq order.status OrderStatus.pending)) [
        | inr other ↦ rw other
        | inl waits ↦ elim (outcome-cases (transition_order_status T order_id to actor reason db)) [
          | inl (o, s, e) ↦ rw (waits, e) (rw e at kept)
          | inr (x, s, e) ↦ rw (waits, e) (rw e at kept)
        ]
      ]

  bill_client-writes :
      (client : Client) (db after : Db T) {i : RowId} {invoice : Invoice}
      → bill_client T now order_id order actor client db ≡ (ok (i, invoice), after)
      → (number : Text) × (invoice
          ≡ new_invoice now order_id order client number (get_company_profile T order.tenant_id db))
        × (next_number T order.tenant_id db ≡ ok number)
        × (i ≡ (T.create db.invoices invoice).0)
        × (after.invoices ≡ (T.create db.invoices invoice).1)
  unfolding bill_client
  bill_client-writes client db after {i} {invoice} h =
      let (number, db1, e1, same) =
        numbered T order.tenant_id (codes "invoice_number") (codes "INV-") 6 db in
      let row =
        new_invoice now order_id order client number (get_company_profile T order.tenant_id db) in
      let (db2, e2, table) = insert_invoice-writes T order actor number row db1 in
      let waited = await_payment-invoices db2 in
      let h1 = rw (e1, e2) at h in
      elim (outcome-cases (await_payment T order_id order actor db2)) [
        | inr (x, s, e) ↦ cc (rw e at h1)
        | inl (u, s, e) ↦
            let h2 = rw e at h1 in
            let is_row : row ≡ invoice = ground arith in
            let is_id : (T.create db1.invoices row).0 ≡ i = ground arith in
            let is_state : s ≡ after = ground arith in
            let kept : s.invoices ≡ db2.invoices = rw e at waited in
            (
              number,
              sym is_row,
              ap (λ r. r.0) e1,
              sym is_id ∙ rw (same, is_row),
              rw (← is_state) (kept ∙ table ∙ rw (same, is_row)),
            )
      ]

  issue_known :
      (client : Client) (db : Db T)
      → T.find db.clients order.client_id ≡ some client
      → issue_invoice_for_order T now order_id order actor db
        ≡ transaction (bill_client T now order_id order actor client) db
  unfolding issue_invoice_for_order
  issue_known client db known = rw known

  issue_unknown :
      (db : Db T)
      → T.find db.clients order.client_id ≡ none
      → issue_invoice_for_order T now order_id order actor db ≡ (err record_not_found, db)
  unfolding issue_invoice_for_order
  issue_unknown db missing = rw missing

  -- A call of `issueInvoiceForOrder` that throws leaves the database as it was.
  pub issue_invoice_for_order-atomic :
      (db : Db T) (e : Error)
      → (issue_invoice_for_order T now order_id order actor db).0 ≡ err e
      → (issue_invoice_for_order T now order_id order actor db).1 ≡ db
  issue_invoice_for_order-atomic db e h = elim (Option-cases (T.find db.clients order.client_id)) [
    | inl missing ↦ ap (λ r. r.1) (issue_unknown db missing)
    | inr (client, known) ↦
        let call = issue_known client db known in
        ap (λ r. r.1) call
        ∙ transaction_err (bill_client T now order_id order actor client) db
            (sym (ap (λ r. r.0) call) ∙ h)
  ]

  -- A call of `issueInvoiceForOrder` that returns has written one invoice under a new id and the next
  -- number: issued now and due in seven days, for the order, its client and its tenant, with the
  -- amounts and the currency of the order, of which nothing is paid and all is due, and with the
  -- client's and the company's details. Every other invoice is as it was.
  pub issue_invoice_for_order-writes :
      (db after : Db T) {i : RowId} {invoice : Invoice}
      → issue_invoice_for_order T now order_id order actor db ≡ (ok (i, invoice), after)
      → IsIssued T now order_id order db after i invoice
  unfolding new_invoice
  issue_invoice_for_order-writes db after {i} {invoice} h =
      elim (Option-cases (T.find db.clients order.client_id)) [
        | inl missing ↦ cc (h, issue_unknown db missing)
        | inr (client, known) ↦
            let done =
              transaction_ok (bill_client T now order_id order actor client) db
                (sym (issue_known client db known) ∙ h) in
            let (number, written, numbering, id_new, table) =
              bill_client-writes client db after done in
            record {
              client = client;
              number = number;
              known = known;
              written = written;
              numbering = numbering;
              numbered_so = ap (λ v. v.invoice_number) written;
              subtotal = ap (λ v. v.subtotal) written;
              discount_total = ap (λ v. v.discount_total) written;
              tax_total = ap (λ v. v.tax_total) written;
              total = ap (λ v. v.total) written;
              nothing_paid = ap (λ v. v.amount_paid) written;
              all_due = ap (λ v. v.amount_due) written;
              status = ap (λ v. v.status) written;
              issue_time = ap (λ v. v.issued_at) written;
              due_date = ap (λ v. v.due_date) written;
              for_order = ap (λ v. v.order_id) written;
              for_client = ap (λ v. v.client_id) written;
              in_tenant = ap (λ v. v.tenant_id) written;
              currency = ap (λ v. v.currency) written;
              customer = ap (λ v. v.customer_snapshot) written;
              company = ap (λ v. v.company_snapshot) written;
              is_new = rw id_new (laws.create_fresh db.invoices invoice);
              others = λ j. rw (table, id_new) (laws.find-create db.invoices invoice j);
            }
      ]
