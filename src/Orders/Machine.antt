-- ===== src/Orders/Machine.antt =====
-- The order state machine: where an order can go, and what it must have gone through.
use dohost.Base.{◌≡◌, ◌≢◌, Bool, true, false, arith, ◌⊎◌}
use dohost.Data.{OrderStatus, pending, paid, processing, active, cancelled, fraud, refunded}
use dohost.Orders.{is_valid_order_transition, order_transitions}

-- The statuses that an order has only after it was paid.
abbrev pub is_after_payment : OrderStatus → Bool
is_after_payment paid = true
is_after_payment processing = true
is_after_payment active = true
is_after_payment refunded = true
is_after_payment _ = false

-- A status by which an order is closed for good.
abbrev pub is_terminal : OrderStatus → Bool
is_terminal cancelled = true
is_terminal fraud = true
is_terminal refunded = true
is_terminal _ = false

-- A step to a status after the payment is to `paid` or from one of these.
pub payment_step :
    (from to : OrderStatus)
    → is_valid_order_transition from to ≡ true
    → is_after_payment to ≡ true
    → (to ≡ paid) ⊎ (is_after_payment from ≡ true)
unfolding is_valid_order_transition order_transitions
payment_step pending to v a = ground arith
payment_step from to v a = ground arith

-- A valid transition leaves no terminal status, does not lead back to `pending` and changes the
-- status.
pub transitions_ends :
    (from to : OrderStatus)
    → is_valid_order_transition from to ≡ true
    → (is_terminal from ≡ false) × (to ≢ pending) × (to ≢ from)
unfolding is_valid_order_transition order_transitions
transitions_ends pending to v = ground arith
transitions_ends from to v = ground arith
