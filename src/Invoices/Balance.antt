-- ===== src/Invoices/Balance.antt =====
-- The balance of an invoice: the total, what is paid and what is due.
use dohost.Base.{◌≡◌, refl, ◌∙◌, true, false, Text, inl, inr, Bool-cases, arith, if◌then◌else◌}
use dohost.Base.Int.{ℤ, pos, ◌+ℤ◌, ◌-ℤ◌, eqb_ℤ, ltb_ℤ, leb_ℤ, +ℤ_parts, zero_+ℤ, int_laws}
use dohost.Errors.{ok, >>=-eq-ok}
use dohost.Money.{Money, int, money, add}
use dohost.Money.Laws.{add-amount, money_of-amount}
use dohost.Store.{RowId}
use dohost.Data.{Time, Order, Client, Fields, Invoice, partially_paid, paid}
use dohost.Invoices.Issue.{new_invoice}
use dohost.Invoices.Payment.{with_payment}
use dohost.Invoices.Due.{PaymentDue, payment_due, is_payable}

-- What is paid lies between nothing and the total, and what is due is the rest.
pub record IsBalanced (invoice : Invoice) : Type 0 where
  pub balanced : invoice.amount_paid +ℤ invoice.amount_due ≡ invoice.total
  pub paid_some : leb_ℤ (pos 0) invoice.amount_paid ≡ true
  pub paid_most : leb_ℤ invoice.amount_paid invoice.total ≡ true

-- What is known of a payment that `payment_due` accepts.
pub record IsAccepted (invoice : Invoice) (amount : ℤ) (due : PaymentDue) : Type 0 where
  pub payable : is_payable invoice.status ≡ true
  pub paid_more : due.new_paid ≡ invoice.amount_paid +ℤ amount
  pub no_more : ltb_ℤ invoice.total due.new_paid ≡ false
  pub rest : due.new_due ≡ invoice.total -ℤ due.new_paid
  pub settled : due.is_settled ≡ eqb_ℤ due.new_due (pos 0)
  pub status : due.next_status ≡ (if eqb_ℤ due.new_due (pos 0) then paid else partially_paid)

money-amount : (n : ℤ) (currency : Text) {m : Money} → money (int n) currency ≡ ok m → m.amount ≡ n
unfolding money
money-amount n currency h = money_of-amount n currency h

-- What `payment_due` returns, from the two amounts that it has computed.
abbrev due_of : ℤ → ℤ → PaymentDue
due_of new_paid total = record {
  new_paid = new_paid;
  new_due = total -ℤ new_paid;
  next_status = if eqb_ℤ (total -ℤ new_paid) (pos 0) then paid else partially_paid;
  is_settled = eqb_ℤ (total -ℤ new_paid) (pos 0);
}

due_of-IsAccepted :
    (invoice : Invoice) (amount new_paid total : ℤ) (due : PaymentDue)
    → is_payable invoice.status ≡ true
    → new_paid ≡ invoice.amount_paid +ℤ amount
    → total ≡ invoice.total
    → ltb_ℤ total new_paid ≡ false
    → ok (due_of new_paid total) ≡ ok due
    → IsAccepted invoice amount due
due_of-IsAccepted invoice amount new_paid total due accepted sum whole within h =
    let same : due_of new_paid total ≡ due = ground arith in
    rw (← same) (record {
      payable = accepted;
      paid_more = sum;
      no_more = rw (← whole) within;
      rest = rw whole;
      settled = refl;
      status = refl;
    })

-- A payment that is accepted is on a payable invoice; the new amount paid is the old one and the
-- payment, at most the total; the amount due is the rest; and the invoice is paid if that is nothing.
pub payment_due-IsAccepted :
    (invoice : Invoice) (amount : ℤ) (due : PaymentDue)
    → payment_due invoice amount ≡ ok due
    → IsAccepted invoice amount due
unfolding payment_due
payment_due-IsAccepted invoice amount due h = elim (Bool-cases (is_payable invoice.status)) [
  | inr refused ↦ cc (rw refused at h)
  | inl accepted ↦
      let h0 = rw accepted at h in
      let (current, m1, h1) = >>=-eq-ok (money (int invoice.amount_paid) invoice.currency) _ h0 in
      let (payment, m2, h2) = >>=-eq-ok (money (int amount) invoice.currency) _ h1 in
      let (new_paid, m3, h3) = >>=-eq-ok (add current payment) _ h2 in
      let (total, m4, h4) = >>=-eq-ok (money (int invoice.total) invoice.currency) _ h3 in
      let before = money-amount invoice.amount_paid invoice.currency m1 in
      let entered = money-amount amount invoice.currency m2 in
      let whole = money-amount invoice.total invoice.currency m4 in
      let sum = add-amount current payment m3 in
      elim (Bool-cases (ltb_ℤ total.amount new_paid.amount)) [
        | inl over ↦ cc (rw over at h4)
        | inr within ↦
            due_of-IsAccepted invoice amount new_paid.amount total.amount due accepted
              (sum ∙ rw (before, entered)) whole within (rw within at h4)
      ]
]

sum_nonnegative :
    (a b : ℤ) → leb_ℤ (pos 0) a ≡ true → ltb_ℤ (pos 0) b ≡ true → leb_ℤ (pos 0) (a +ℤ b) ≡ true
sum_nonnegative a b ha hb = ground (arith, +ℤ_parts a b)

leb_of_not_ltb : (a b : ℤ) → ltb_ℤ a b ≡ false → leb_ℤ b a ≡ true
leb_of_not_ltb a b h = ground arith

-- An accepted payment of a positive amount keeps the balance of the invoice.
pub with_payment-IsBalanced :
    (now : Time) (invoice : Invoice) (amount : ℤ) (due : PaymentDue)
    → IsBalanced invoice
    → ltb_ℤ (pos 0) amount ≡ true
    → IsAccepted invoice amount due
    → IsBalanced (with_payment now invoice due)
with_payment-IsBalanced now invoice amount due b positive a = record {
  balanced = rw (a.rest, a.paid_more) (omega int_laws);
  paid_some = rw a.paid_more (sum_nonnegative invoice.amount_paid amount b.paid_some positive);
  paid_most = leb_of_not_ltb invoice.total due.new_paid a.no_more;
}

-- A new invoice is balanced, with everything due, where the order's total is not negative.
pub new_invoice-IsBalanced :
    (now : Time) (order_id : RowId) (order : Order) (client : Client) (number : Text)
    (company : Fields)
    → leb_ℤ (pos 0) order.total ≡ true
    → IsBalanced (new_invoice now order_id order client number company)
unfolding new_invoice
new_invoice-IsBalanced now order_id order client number company h = record {
  balanced = zero_+ℤ order.total;
  paid_some = refl;
  paid_most = h;
}
