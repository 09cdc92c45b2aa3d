-- ===== src/Invoices/Manual.antt =====
-- `markInvoicePaidManually` as a whole: what a payment changes, and what a refused one leaves.
use dohost.Base.{
  ◌≡◌, any, [], ◌∷◌, refl, ◌∙◌, ap, sym, Bool, true, false, Option, none, some, Text, inl, inr,
  ◌==◌, Bool-cases, Option-cases, arith, if◌then◌else◌, codes,
}
use dohost.Base.Int.{ℤ, pos, ltb_ℤ, leb_ℤ, eqb_ℤ, ◌+ℤ◌, ◌-ℤ◌}
use dohost.Service.{transaction_err, transaction_ok, checked-ok, checked_err, outcome-cases}
use dohost.Errors.{ok, err, Error, record_not_found, Result-cases}
use dohost.Money.{Number, int, fraction}
use dohost.Store.{RowId, Tables, IsLawful}
use dohost.Data.{
  Db, Time, OrderStatus, Invoice, InvoiceStatus, issued, partially_paid, overdue, paid,
}
use dohost.Actors.{StaffActor, TransitionActor, staff_transition}
use dohost.Permissions.{invoices_write}
use dohost.Rbac.{require_permission}
use dohost.Audit.{record_audit_log, record_status_transition}
use dohost.Orders.{transition_order_status, is_valid_order_transition}
use dohost.Orders.Transition.{transition-refused, transition-allowed}
use dohost.Invoices.{status_eq}
use dohost.Invoices.Due.{PaymentDue, payment_due, is_payable}
use dohost.Invoices.Payment.{
  PaymentInput, payment_amount, with_payment, settle_order, record_payment, enter_payment,
  pay_invoice, mark_invoice_paid_manually,
}
use dohost.Invoices.Balance.{IsAccepted, payment_due-IsAccepted}

payment_amount-positive :
    (amount : Number) (n : ℤ)
    → payment_amount amount ≡ ok n
    → (amount ≡ int n) × (ltb_ℤ (pos 0) n ≡ true)
payment_amount-positive (int m) n h = elim (Bool-cases (leb_ℤ m (pos 0))) [
  | inl low ↦ cc (rw low at h)
  | inr high ↦
      let same : m ≡ n = ground (arith, rw high at h) in (ap int same, rw (← same) (ground arith))
]
payment_amount-positive fraction n h = cc

payable_statuses :
    (s : InvoiceStatus)
    → is_payable s ≡ true
    → any (status_eq s) (issued ∷ partially_paid ∷ overdue ∷ []) ≡ true
unfolding is_payable
payable_statuses s h = ground (arith, h)

with_payment-values :
    (now : Time) (old : Invoice) (amount : ℤ) (due : PaymentDue)
    → IsAccepted old amount due
    → let settled = eqb_ℤ (old.total -ℤ (old.amount_paid +ℤ amount)) (pos 0) in
      with_payment now old due ≡ record old {
        amount_paid = old.amount_paid +ℤ amount;
        amount_due = old.total -ℤ (old.amount_paid +ℤ amount);
        status = if settled then paid else partially_paid;
        paid_at = if settled then some now else old.paid_at;
      }
with_payment-values now old amount due a = rw (a.settled, a.status, a.rest, a.paid_more)

-- A payment that has been entered: the invoice as it was, the amount, and what came of it.
pub record IsPaid (T : Tables) (now : Time) (i : RowId) (input : PaymentInput) (db after : Db T)
    (updated : Invoice) : Type 0 where
  pub old : Invoice
  pub amount : ℤ
  pub due : PaymentDue
  pub found : T.find db.invoices i ≡ some old
  pub asked : input.amount ≡ int amount
  pub positive : ltb_ℤ (pos 0) amount ≡ true
  pub accepted : IsAccepted old amount due
  pub entered : updated ≡ with_payment now old due
  -- the status was one of those that take payments, and the payment stays within the total
  pub payable : any (status_eq old.status) (issued ∷ partially_paid ∷ overdue ∷ []) ≡ true
  pub within : ltb_ℤ old.total (old.amount_paid +ℤ amount) ≡ false
  -- the columns that the payment changes, from the invoice as it was and the amount
  pub values :
      let settled = eqb_ℤ (old.total -ℤ (old.amount_paid +ℤ amount)) (pos 0) in
      updated ≡ record old {
        amount_paid = old.amount_paid +ℤ amount;
        amount_due = old.total -ℤ (old.amount_paid +ℤ amount);
        status = if settled then paid else partially_paid;
        paid_at = if settled then some now else old.paid_at;
      }
  pub others :
      (j : RowId)
      → T.find after.invoices j ≡ (if j == i then some updated else T.find db.invoices j)

module _ (T : Tables) where
  -- A change of an order's status leaves the invoices alone, whether it throws or not.
  pub transition_order_status-invoices :
      (laws : IsLawful T) (i : RowId) (to_status : OrderStatus) (actor : TransitionActor)
      (reason : Option Text) (db : Db T)
      → (transition_order_status T i to_status actor reason db).1.invoices ≡ db.invoices
  transition_order_status-invoices laws i to_status actor reason db =
      let refused = transition-refused T i to_status actor reason db in
      elim (Option-cases (T.find db.orders i)) [
        | inl missing ↦ ap (λ r. r.1.invoices) (refused none missing refl)
        | inr (o, found) ↦ elim (Bool-cases (is_valid_order_transition o.status to_status)) [
          | inr invalid ↦ ap (λ r. r.1.invoices) (refused (some o) found invalid)
          | inl valid ↦
              let (returned, orders, history, same) =
                transition-allowed T i to_status actor reason db laws o found valid in
              ap (λ d. d.invoices) same
        ]
      ]

  settle_order-invoices :
      (laws : IsLawful T) (actor : StaffActor) (settled : Bool) (order : Option RowId) (db : Db T)
      → (settle_order T actor settled order db).1.invoices ≡ db.invoices
  unfolding settle_order
  settle_order-invoices laws actor true (some i) db =
      let reason = some (codes "invoice_paid") in
      let kept =
        transition_order_status-invoices laws i OrderStatus.paid (staff_transition actor) reason
          db in
      elim (outcome-cases
        (transition_order_status T i OrderStatus.paid (staff_transition actor) reason db)) [
          | inl (o, s, e) ↦ rw e (rw e at kept)
          | inr (x, s, e) ↦ rw e (rw e at kept)
        ]
  settle_order-invoices laws actor true none db = refl
  settle_order-invoices laws actor false order db = refl

  record_payment-writes :
      (now : Time) (actor : StaffActor) (i : RowId) (input : PaymentInput) (amount : ℤ)
      (invoice : Invoice) (due : PaymentDue) (db : Db T)
      → (after : Db T) × (record_payment T now actor i input amount invoice due db ≡ (ok tt, after))
        × (after.invoices ≡ T.write db.invoices i (with_payment now invoice due))
  unfolding record_payment record_status_transition record_audit_log
  record_payment-writes now actor i input amount invoice due db = (_, refl, refl)

  enter_payment-writes :
      (laws : IsLawful T) (now : Time) (actor : StaffActor) (i : RowId) (input : PaymentInput)
      (amount : ℤ) (invoice : Invoice) (due : PaymentDue) (db after : Db T) {updated : Invoice}
      → enter_payment T now actor i input amount invoice due db ≡ (ok updated, after)
      → (updated ≡ with_payment now invoice due)
        × (after.invoices ≡ T.write db.invoices i (with_payment now invoice due))
  unfolding enter_payment
  enter_payment-writes laws now actor i input amount invoice due db after h =
      let (start, recorded, table) =
        record_payment-writes now actor i input amount invoice due db in
      let settled = settle_order-invoices laws actor due.is_settled invoice.order_id start in
      let h1 = rw recorded at h in
      elim (outcome-cases (settle_order T actor due.is_settled invoice.order_id start)) [
        | inl (u, s, e) ↦
            let h2 = rw e at h1 in
            let same : s ≡ after = ground arith in
            let kept : s.invoices ≡ start.invoices = rw e at settled in
            (ground arith, rw (← same) (kept ∙ table))
        | inr (x, s, e) ↦ cc (rw e at h1)
      ]

  module _ (now : Time) (actor : StaffActor) (i : RowId) (input : PaymentInput) (db : Db T) where
    -- A payment that is refused, for whatever reason, leaves the database as it was.
    pub mark_invoice_paid_manually-atomic :
        (e : Error)
        → (mark_invoice_paid_manually T now actor i input db).0 ≡ err e
        → (mark_invoice_paid_manually T now actor i input db).1 ≡ db
    unfolding mark_invoice_paid_manually
    mark_invoice_paid_manually-atomic e h =
        checked_err (require_permission actor.permissions invoices_write) _ db
          (λ u.
            checked_err (payment_amount input.amount) _ db
              (λ n. transaction_err (pay_invoice T now actor i input n) db))
          h

    entered-IsPaid :
        (laws : IsLawful T) (n : ℤ) (updated old : Invoice) (due : PaymentDue) (after : Db T)
        → input.amount ≡ int n
        → ltb_ℤ (pos 0) n ≡ true
        → T.find db.invoices i ≡ some old
        → IsAccepted old n due
        → updated ≡ with_payment now old due
        → after.invoices ≡ T.write db.invoices i (with_payment now old due)
        → IsPaid T now i input db after updated
    entered-IsPaid laws n updated old due after asked positive found accepted entered table =
        record {
          old = old;
          amount = n;
          due = due;
          found = found;
          asked = asked;
          positive = positive;
          accepted = accepted;
          entered = entered;
          payable = payable_statuses old.status accepted.payable;
          within = rw (← accepted.paid_more) accepted.no_more;
          values = entered ∙ with_payment-values now old n due accepted;
          others = λ j.
              rw (table, entered)
                (laws.find-write db.invoices i j (with_payment now old due) old found);
        }

    pay_missing :
        (n : ℤ)
        → T.find db.invoices i ≡ none
        → pay_invoice T now actor i input n db ≡ (err record_not_found, db)
    unfolding pay_invoice
    pay_missing n missing = rw missing

    pay_refused :
        (n : ℤ) (old : Invoice) (e : Error)
        → T.find db.invoices i ≡ some old
        → payment_due old n ≡ err e
        → pay_invoice T now actor i input n db ≡ (err e, db)
    unfolding pay_invoice
    pay_refused n old e found refused = rw (found, refused)

    pay_entered :
        (n : ℤ) (old : Invoice) (due : PaymentDue)
        → T.find db.invoices i ≡ some old
        → payment_due old n ≡ ok due
        → pay_invoice T now actor i input n db ≡ enter_payment T now actor i input n old due db
    unfolding pay_invoice
    pay_entered n old due found computed = rw (found, computed)

    pay_invoice-IsPaid :
        (laws : IsLawful T) (n : ℤ) (updated : Invoice) (after : Db T)
        → input.amount ≡ int n
        → ltb_ℤ (pos 0) n ≡ true
        → pay_invoice T now actor i input n db ≡ (ok updated, after)
        → IsPaid T now i input db after updated
    pay_invoice-IsPaid laws n updated after asked positive h =
        elim (Option-cases (T.find db.invoices i)) [
          | inl missing ↦ cc (h, pay_missing n missing)
          | inr (old, found) ↦ elim (Result-cases (payment_due old n)) [
            | inr (x, refused) ↦ cc (h, pay_refused n old x found refused)
            | inl (due, computed) ↦
                let (entered, table) =
                  enter_payment-writes laws now actor i input n old due db after
                    (sym (pay_entered n old due found computed) ∙ h) in
                entered-IsPaid laws n updated old due after asked positive found
                  (payment_due-IsAccepted old n due computed) entered table
          ]
        ]

    -- A payment that returns was of a positive whole amount on an invoice that is issued, partially
    -- paid or overdue, and stays within its total. The invoice that it returns has the amount added
    -- to what is paid, the rest of the total due, and is paid as of now if nothing is left and
    -- partially paid otherwise; it stands in the table, and every other invoice is as it was.
    pub mark_invoice_paid_manually-pays :
        (laws : IsLawful T) (updated : Invoice) (after : Db T)
        → mark_invoice_paid_manually T now actor i input db ≡ (ok updated, after)
        → IsPaid T now i input db after updated
    unfolding mark_invoice_paid_manually
    mark_invoice_paid_manually-pays laws updated after h =
        let (u, allowed, h1) =
          checked-ok (require_permission actor.permissions invoices_write) _ db h in
        let (n, valid, h2) = checked-ok (payment_amount input.amount) _ db h1 in
        let (asked, positive) = payment_amount-positive input.amount n valid in
        pay_invoice-IsPaid laws n updated after asked positive
          (transaction_ok (pay_invoice T now actor i input n) db h2)
