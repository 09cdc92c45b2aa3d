-- ===== src/Invoices/Tests.antt =====
-- The invoice theorems at work on the sample shop.
use mathlib.Core.Option.{some-injective}
use dohost.Base.{zero, suc, ◌≡◌, ◌≢◌, refl, true, false, not, ◌||◌, none, [], ◌∷◌, codes}
use dohost.Base.Int.{pos, ◌+ℤ◌, ◌-ℤ◌}
use dohost.Errors.{ok, err}
use dohost.Money.{int, money, money_of, add}
use dohost.Money.Currency.{to_upper_case, is_currency_code}
use dohost.Store.Memory.{memory, memory-IsLawful}
use dohost.Data.{Db, Invoice, issued, unpaid, paid, refunded, Value, Fields}
use dohost.Sample.{busy_shop, clerk, invoice_row, order_placed, client_row}
use dohost.Actors.{TransitionActor, staff_transition}
use dohost.Audit.{record_audit_log, record_status_transition}
use dohost.Rbac.{require_permission, has_permission, includes}
use dohost.Permissions.{permission_eq}
use dohost.Numbering.{next_sequence_number, increment_counter, count_up}
use dohost.Numbering.Digits.{to_decimal, pad_start, digits_onto}
use dohost.Settings.{get_company_profile, get_setting}
use dohost.Orders.{transition_order_status, is_valid_order_transition, order_transitions}
use dohost.Orders.Totals.{line_totals}
use dohost.Invoices.{is_valid_invoice_transition, invoice_transitions, status_eq}
use dohost.Invoices.Due.{PaymentDue, payment_due, is_payable, overpayment}
use dohost.Invoices.Issue.{
  new_invoice, issue_invoice_for_order, bill_client, insert_invoice, await_payment,
}
use dohost.Invoices.Issuing.{IsIssued, issue_invoice_for_order-writes}
use dohost.Invoices.Lines.{invoiced, setup_fees, new_invoice-invoiced}
use dohost.Invoices.Machine.{is_closed, invoice_transitions_ends}
use dohost.Invoices.Ledger.{AllBalanced, paying, here, onward, Reaches-AllBalanced}
use dohost.Invoices.Payment.{
  PaymentInput, with_payment, settle_order, record_payment, enter_payment, pay_invoice,
  mark_invoice_paid_manually,
}
use dohost.Invoices.Balance.{IsBalanced}
use dohost.Invoices.Manual.{
  IsPaid, mark_invoice_paid_manually-atomic, mark_invoice_paid_manually-pays,
}

-- The rest of the sample invoice, 25.00.
abbrev rest_due : PaymentDue
rest_due = record { new_paid = pos 3500; new_due = pos 0; next_status = paid; is_settled = true }

rest_due_run : payment_due invoice_row (pos 2500) ≡ ok rest_due
unfolding payment_due is_payable money money_of add to_upper_case is_currency_code ◌+ℤ◌ ◌-ℤ◌
rest_due_run = refl

invoice_row-IsBalanced : IsBalanced invoice_row
unfolding ◌+ℤ◌
invoice_row-IsBalanced = record { balanced = refl; paid_some = refl; paid_most = refl }

abbrev rest_input : PaymentInput
rest_input = record { amount = int (pos 2500); reference = none; reason = none }

abbrev after_payment : Db memory
after_payment = (mark_invoice_paid_manually memory 8 clerk 0 rest_input busy_shop).1

mark_run :
    mark_invoice_paid_manually memory 8 clerk 0 rest_input busy_shop
    ≡ (ok (with_payment 8 invoice_row rest_due), after_payment)
unfolding mark_invoice_paid_manually pay_invoice enter_payment record_payment settle_order
    payment_due is_payable money money_of add to_upper_case is_currency_code ◌+ℤ◌ ◌-ℤ◌
    record_audit_log record_status_transition require_permission has_permission includes
    permission_eq
mark_run = refl

mark_invoice_paid_manually-pays_example :
    IsPaid memory 8 0 rest_input busy_shop after_payment (with_payment 8 invoice_row rest_due)
mark_invoice_paid_manually-pays_example =
    mark_invoice_paid_manually-pays memory 8 clerk 0 rest_input busy_shop memory-IsLawful
      (with_payment 8 invoice_row rest_due) after_payment mark_run

abbrev too_much : PaymentInput
too_much = record rest_input { amount = int (pos 2501) }

too_much_refused :
    (mark_invoice_paid_manually memory 8 clerk 0 too_much busy_shop).0 ≡ err overpayment
unfolding mark_invoice_paid_manually pay_invoice payment_due is_payable money money_of add
    to_upper_case is_currency_code ◌+ℤ◌ ◌-ℤ◌ require_permission has_permission includes
    permission_eq
too_much_refused = refl

mark_invoice_paid_manually-atomic_example :
    (mark_invoice_paid_manually memory 8 clerk 0 too_much busy_shop).1 ≡ busy_shop
mark_invoice_paid_manually-atomic_example =
    mark_invoice_paid_manually-atomic memory 8 clerk 0 too_much busy_shop overpayment
      too_much_refused

placed_total : order_placed.total ≡ line_totals order_placed.items
unfolding ◌+ℤ◌
placed_total = refl

new_invoice-invoiced_example :
    invoiced (new_invoice 8 0 order_placed client_row (codes "INV-000002") []).items
    ≡ (pos 3500 +ℤ setup_fees order_placed.items)
unfolding new_invoice
new_invoice-invoiced_example =
    new_invoice-invoiced 8 0 order_placed client_row (codes "INV-000002") [] placed_total

issued_to_paid : is_valid_invoice_transition issued paid ≡ true
unfolding is_valid_invoice_transition invoice_transitions
issued_to_paid = refl

invoice_transitions_ends_example :
    (is_closed issued ≡ false)
    × (paid ≢ issued)
    × (paid ≢ unpaid)
    × ((not (status_eq issued paid) || status_eq paid refunded) ≡ true)
invoice_transitions_ends_example = invoice_transitions_ends issued paid issued_to_paid

busy_shop-AllBalanced : AllBalanced memory busy_shop.invoices
busy_shop-AllBalanced zero invoice found = rw (← some-injective _ _ found) invoice_row-IsBalanced
busy_shop-AllBalanced (suc i) invoice found = cc

Reaches-AllBalanced_example : AllBalanced memory after_payment.invoices
Reaches-AllBalanced_example =
    Reaches-AllBalanced memory memory-IsLawful (onward here (paying 8 clerk 0 rest_input))
      busy_shop-AllBalanced

abbrev biller : TransitionActor
biller = staff_transition clerk

abbrev host : Fields
host = (codes "name", Value.text (codes "HostPanel")) ∷ []

abbrev invoice_issued : Invoice
invoice_issued = new_invoice 8 0 order_placed client_row (codes "INV-000001") host

abbrev billed_shop : Db memory
billed_shop = (issue_invoice_for_order memory 8 0 order_placed biller busy_shop).1

issue_run :
    issue_invoice_for_order memory 8 0 order_placed biller busy_shop
    ≡ (ok (1, invoice_issued), billed_shop)
unfolding issue_invoice_for_order bill_client insert_invoice await_payment next_sequence_number
    increment_counter count_up to_decimal pad_start digits_onto get_company_profile get_setting
    transition_order_status is_valid_order_transition order_transitions record_audit_log
    record_status_transition
issue_run = refl

issue_invoice_for_order-writes_example :
    IsIssued memory 8 0 order_placed busy_shop billed_shop 1 invoice_issued
issue_invoice_for_order-writes_example =
    issue_invoice_for_order-writes memory memory-IsLawful 8 0 order_placed biller busy_shop
      billed_shop issue_run
