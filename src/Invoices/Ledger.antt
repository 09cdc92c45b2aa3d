-- ===== src/Invoices/Ledger.antt =====
-- The invoices of the database over runs of the calls that issue, pay and cancel them.
use dohost.Base.{
  ◌≡◌, ◌∙◌, ap, sym, true, Option, some, Text, inl, inr, ◌==◌, Bool-cases, Option-cases,
  if◌then◌else◌,
}
use mathlib.Core.Option.{some-injective}
use dohost.Base.Int.{pos, leb_ℤ}
use dohost.Service.{outcome-cases}
use dohost.Errors.{Result-cases}
use dohost.Store.{RowId, Tables, IsLawful}
use dohost.Data.{Db, Time, Order, Invoice, InvoiceStatus, cancelled}
use dohost.Actors.{StaffActor, TransitionActor, staff_transition}
use dohost.Audit.{record_audit_log, record_status_transition}
use dohost.Permissions.{invoices_write}
use dohost.Rbac.{require_permission}
use dohost.Invoices.{transition_invoice_status, cancel_invoice, is_valid_invoice_transition}
use dohost.Settings.{get_company_profile}
use dohost.Invoices.Issue.{issue_invoice_for_order}
use dohost.Invoices.Issuing.{issue_invoice_for_order-atomic, issue_invoice_for_order-writes}
use dohost.Invoices.Payment.{PaymentInput, mark_invoice_paid_manually}
use dohost.Invoices.Balance.{IsBalanced, with_payment-IsBalanced, new_invoice-IsBalanced}
use dohost.Invoices.Manual.{mark_invoice_paid_manually-atomic, mark_invoice_paid_manually-pays}

-- Every invoice of the table is balanced.
abbrev pub AllBalanced : (T : Tables) → T.Table Invoice → Type 0
AllBalanced T invoices =
    (i : RowId) (invoice : Invoice) → T.find invoices i ≡ some invoice → IsBalanced invoice

-- A row that was rewritten, beside rows that stay.
written-AllBalanced :
    (T : Tables) (before after : T.Table Invoice) (i : RowId) (row : Invoice)
    → AllBalanced T before
    → IsBalanced row
    → ((j : RowId) → T.find after j ≡ (if j == i then some row else T.find before j))
    → AllBalanced T after
written-AllBalanced T before after i row all_before fine others j invoice found =
    elim (Bool-cases (j == i)) [
      | inl same ↦
          let is_row : some row ≡ some invoice = sym (others j ∙ rw same) ∙ found in
          rw (← some-injective _ _ is_row) fine
      | inr other ↦ all_before j invoice (sym (others j ∙ rw other) ∙ found)
    ]

status-IsBalanced :
    (invoice : Invoice) (to_status : InvoiceStatus)
    → IsBalanced invoice
    → IsBalanced (record invoice { status = to_status })
status-IsBalanced invoice to_status b = record {
  balanced = b.balanced;
  paid_some = b.paid_some;
  paid_most = b.paid_most;
}

module _ (T : Tables) (laws : IsLawful T) where
  -- A payment, entered or refused, keeps every invoice balanced.
  pub mark_invoice_paid_manually-AllBalanced :
      (now : Time) (actor : StaffActor) (i : RowId) (input : PaymentInput) (db : Db T)
      → AllBalanced T db.invoices
      → AllBalanced T (mark_invoice_paid_manually T now actor i input db).1.invoices
  mark_invoice_paid_manually-AllBalanced now actor i input db fine =
      let kept = mark_invoice_paid_manually-atomic T now actor i input db in
      elim (outcome-cases (mark_invoice_paid_manually T now actor i input db)) [
        | inr (e, s, failed) ↦ rw (kept e (ap (λ r. r.0) failed)) fine
        | inl (updated, s, done) ↦
            let p = mark_invoice_paid_manually-pays T now actor i input db laws updated s done in
            let balanced =
              with_payment-IsBalanced now p.old p.amount p.due (fine i p.old p.found) p.positive
                p.accepted in
            rw done (
              written-AllBalanced T db.invoices s.invoices i updated fine (rw p.entered balanced)
                p.others)
      ]

  -- A call of `cancelInvoice` keeps every invoice balanced, whether it returns or throws.
  transition_invoice_status-AllBalanced :
      (i : RowId) (to_status : InvoiceStatus) (actor : TransitionActor) (reason : Option Text)
      (db : Db T)
      → AllBalanced T db.invoices
      → AllBalanced T (transition_invoice_status T i to_status actor reason db).1.invoices
  unfolding transition_invoice_status record_status_transition
  transition_invoice_status-AllBalanced i to_status actor reason db fine =
      elim (Option-cases (T.find db.invoices i)) [
        | inl missing ↦ rw missing fine
        | inr (old, found) ↦ elim (Bool-cases (is_valid_invoice_transition old.status to_status)) [
          | inr invalid ↦ rw (found, invalid) fine
          | inl valid ↦
              let row = record old { status = to_status } in
              rw (found, valid)
                (written-AllBalanced T db.invoices (T.write db.invoices i row) i row fine
                  (status-IsBalanced old to_status (fine i old found))
                  (λ j. laws.find-write db.invoices i j row old found))
        ]
      ]

  pub cancel_invoice-AllBalanced :
      (actor : StaffActor) (i : RowId) (reason : Text) (db : Db T)
      → AllBalanced T db.invoices
      → AllBalanced T (cancel_invoice T actor i reason db).1.invoices
  unfolding cancel_invoice record_audit_log
  cancel_invoice-AllBalanced actor i reason db fine =
      let by = staff_transition actor in
      let moved = transition_invoice_status-AllBalanced i cancelled by (some reason) db fine in
      elim (Result-cases (require_permission actor.permissions invoices_write)) [
        | inr (e, refused) ↦ rw refused fine
        | inl (u, allowed) ↦
            elim (outcome-cases (transition_invoice_status T i cancelled by (some reason) db)) [
              | inr (e, s, failed) ↦ rw (allowed, failed) fine
              | inl (updated, s, done) ↦ rw (allowed, done) (rw done at moved)
            ]
      ]

  -- A call of `issueInvoiceForOrder` for an order whose total is not negative keeps every invoice
  -- balanced, whether it returns or throws.
  pub issue_invoice_for_order-AllBalanced :
      (now : Time) (order_id : RowId) (order : Order) (actor : TransitionActor) (db : Db T)
      → leb_ℤ (pos 0) order.total ≡ true
      → AllBalanced T db.invoices
      → AllBalanced T (issue_invoice_for_order T now order_id order actor db).1.invoices
  issue_invoice_for_order-AllBalanced now order_id order actor db positive fine =
      elim (outcome-cases (issue_invoice_for_order T now order_id order actor db)) [
        | inr (e, s, failed) ↦
            let kept =
              issue_invoice_for_order-atomic T laws now order_id order actor db e
                (ap (λ r. r.0) failed) in
            rw kept fine
        | inl ((i, invoice), s, done) ↦
            let p = issue_invoice_for_order-writes T laws now order_id order actor db s done in
            let company = get_company_profile T order.tenant_id db in
            let balanced =
              new_invoice-IsBalanced now order_id order p.client p.number company positive in
            rw done (
              written-AllBalanced T db.invoices s.invoices i invoice fine (rw p.written balanced)
                p.others)
      ]

-- One call that writes invoices, returned or thrown, from a state to the one it leaves.
pub data Step (T : Tables) (before : Db T) : Db T → Type 0 where
  issuing :
      (now : Time) (order_id : RowId) (order : Order) (actor : TransitionActor)
      → leb_ℤ (pos 0) order.total ≡ true
      → Step T before (issue_invoice_for_order T now order_id order actor before).1
  paying :
      (now : Time) (actor : StaffActor) (i : RowId) (input : PaymentInput)
      → Step T before (mark_invoice_paid_manually T now actor i input before).1
  cancelling :
      (actor : StaffActor) (i : RowId) (reason : Text)
      → Step T before (cancel_invoice T actor i reason before).1

-- The states that any sequence of such calls leads to.
pub data Reaches (T : Tables) (start : Db T) : Db T → Type 0 where
  here : Reaches T start start
  onward : {middle end : Db T} → Reaches T start middle → Step T middle end → Reaches T start end

Step-AllBalanced :
    (T : Tables) (laws : IsLawful T) {before after : Db T}
    → Step T before after
    → AllBalanced T before.invoices
    → AllBalanced T after.invoices
Step-AllBalanced T laws {before} (issuing now order_id order actor positive) fine =
    issue_invoice_for_order-AllBalanced T laws now order_id order actor before positive fine
Step-AllBalanced T laws {before} (paying now actor i input) fine =
    mark_invoice_paid_manually-AllBalanced T laws now actor i input before fine
Step-AllBalanced T laws {before} (cancelling actor i reason) fine =
    cancel_invoice-AllBalanced T laws actor i reason before fine

-- From a database whose invoices are all balanced, every sequence of calls that issue, pay and cancel
-- invoices, thrown ones among them, leads to one whose invoices are all balanced, where the orders
-- that are billed have totals that are not negative.
pub Reaches-AllBalanced :
    (T : Tables) (laws : IsLawful T) {start end : Db T}
    → Reaches T start end
    → AllBalanced T start.invoices
    → AllBalanced T end.invoices
Reaches-AllBalanced T laws here fine = fine
Reaches-AllBalanced T laws (onward path step) fine =
    Step-AllBalanced T laws step (Reaches-AllBalanced T laws path fine)
