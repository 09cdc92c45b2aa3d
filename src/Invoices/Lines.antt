-- ===== src/Invoices/Lines.antt =====
-- The lines of an invoice against the lines of its order.
use dohost.Base.{◌≡◌, ◌∙◌, List, [], ◌∷◌, map}
use dohost.Base.Int.{ℤ, pos, ◌+ℤ◌, int_laws}
use dohost.Store.{RowId}
use dohost.Base.{Text}
use dohost.Data.{Time, Fields, OrderItem, Order, Client, InvoiceItem}
use dohost.Orders.Totals.{line_totals}
use dohost.Invoices.Issue.{invoice_item, new_invoice}

-- The sum of the totals of an invoice's lines.
abbrev pub invoiced : List InvoiceItem → ℤ
invoiced [] = pos 0
invoiced (item ∷ items) = item.line_total +ℤ invoiced items

-- The sum of the setup fees of an order's lines.
abbrev pub setup_fees : List OrderItem → ℤ
setup_fees [] = pos 0
setup_fees (item ∷ items) = item.setup_fee_snapshot +ℤ setup_fees items

sum_of_sums : (a b c d : ℤ) → a +ℤ b +ℤ (c +ℤ d) ≡ a +ℤ c +ℤ (b +ℤ d)
sum_of_sums a b c d = omega int_laws

invoiced-map :
    (items : List OrderItem)
    → invoiced (map invoice_item items) ≡ line_totals items +ℤ setup_fees items
unfolding invoice_item
invoiced-map [] = omega int_laws
invoiced-map (item ∷ items) =
    rw (invoiced-map items)
      (sum_of_sums item.line_total item.setup_fee_snapshot (line_totals items) (setup_fees items))

-- For an order whose total is the sum of its lines, the lines of its invoice add up to the invoice's
-- total and, once more, the setup fees of the order's lines.
pub new_invoice-invoiced :
    (now : Time) (order_id : RowId) (order : Order) (client : Client) (number : Text)
    (company : Fields)
    → order.total ≡ line_totals order.items
    → let invoice = new_invoice now order_id order client number company in
      invoiced invoice.items ≡ invoice.total +ℤ setup_fees order.items
unfolding new_invoice
new_invoice-invoiced now order_id order client number company h = invoiced-map order.items ∙ rw h
