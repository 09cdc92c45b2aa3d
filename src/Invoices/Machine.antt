-- ===== src/Invoices/Machine.antt =====
-- The invoice state machine: where an invoice can go.
use dohost.Base.{◌≡◌, ◌≢◌, Bool, true, false, not, ◌||◌, arith}
use dohost.Data.{InvoiceStatus, draft, unpaid, paid, cancelled, refunded}
use dohost.Invoices.{invoice_transitions, is_valid_invoice_transition, status_eq}

-- A status that no invoice leaves.
abbrev pub is_closed : InvoiceStatus → Bool
is_closed cancelled = true
is_closed refunded = true
is_closed _ = false

-- A valid transition leaves no closed status, changes the status, and never leads to `unpaid`; one
-- that leaves `paid` is a refund.
pub invoice_transitions_ends :
    (from to : InvoiceStatus)
    → is_valid_invoice_transition from to ≡ true
    → (is_closed from ≡ false)
      × (to ≢ from)
      × (to ≢ unpaid)
      × ((not (status_eq from paid) || status_eq to refunded) ≡ true)
unfolding is_valid_invoice_transition invoice_transitions
invoice_transitions_ends draft to v = ground arith
invoice_transitions_ends from to v = ground arith
