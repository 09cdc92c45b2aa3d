-- ===== src/Invoices/Due.antt =====
-- The arithmetic of `markInvoicePaidManually`: what a payment leaves to pay.
use dohost.Base.{Bool, true, false, not, if◌then◌else◌}
use dohost.Base.Int.{ℤ, pos, ◌-ℤ◌, eqb_ℤ, ltb_ℤ}
use dohost.Errors.{Result, ok, ◌>>=◌, ◌>>◌, guard, Error, app, app_error, business_rule}
use dohost.Money.{int, money, add}
use dohost.Data.{Invoice, InvoiceStatus, issued, partially_paid, paid, overdue}

abbrev pub not_payable : Error
not_payable = app (app_error business_rule "invoice.not_payable")

abbrev pub overpayment : Error
overpayment = app (app_error business_rule "invoice.overpayment")

-- `["ISSUED", "PARTIALLY_PAID", "OVERDUE"].includes(status)`
unfoldable pub is_payable : InvoiceStatus → Bool
is_payable issued = true
is_payable partially_paid = true
is_payable overdue = true
is_payable _ = false

pub record PaymentDue : Type 0 where
  pub new_paid : ℤ
  pub new_due : ℤ
  pub next_status : InvoiceStatus
  -- `nextStatus === "PAID"`
  pub is_settled : Bool

unfoldable pub payment_due : Invoice → ℤ → Result PaymentDue
payment_due invoice amount = do
  guard (is_payable invoice.status) not_payable
  current_paid ← money (int invoice.amount_paid) invoice.currency
  payment ← money (int amount) invoice.currency
  new_paid ← add current_paid payment
  total ← money (int invoice.total) invoice.currency
  guard (not (ltb_ℤ total.amount new_paid.amount)) overpayment
  let new_due = total.amount -ℤ new_paid.amount
  let settled = eqb_ℤ new_due (pos 0)
  ok (record {
    new_paid = new_paid.amount;
    new_due = new_due;
    next_status = if settled then paid else partially_paid;
    is_settled = settled;
  })
