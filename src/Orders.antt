-- ===== src/Orders.antt =====
-- packages/billing/src/orders.ts: the order state machine and the transition of one order.
pub mod Line
pub mod Paid
pub mod Create
pub mod Machine
pub mod Totals
pub mod Placing
pub mod Retry
pub mod Tests
pub mod Transition
use dohost.Base.{
  ℕ, Bool, true, false, not, Option, none, some, List, [], ◌∷◌, Text, codes, ◌==◌, any,
  if◌then◌else◌,
}
use dohost.Service.{Action, ◌>>=◌, ◌>>◌, pure, throw, gets, modify, or_throw, throw_if, when}
use dohost.Errors.{Error, app, app_error, business_rule}
use dohost.Store.{RowId, Tables}
use dohost.Data.{
  Db, Order, OrderStatus, pending, awaiting_payment, paid, processing, active, fraud_review,
  cancelled, fraud, refunded, failed, StatusEntity, of_order, AuditEntity, AuditAction, Value,
  Fields,
}
use dohost.Actors.{TransitionActor, is_truthy}
use dohost.Audit.{record_audit_log, record_status_transition}

-- ORDER_TRANSITIONS
unfoldable pub order_transitions : OrderStatus → List OrderStatus
order_transitions pending = awaiting_payment ∷ cancelled ∷ fraud_review ∷ []
order_transitions awaiting_payment = paid ∷ cancelled ∷ failed ∷ fraud_review ∷ []
order_transitions paid = processing ∷ refunded ∷ fraud ∷ []
order_transitions processing = active ∷ failed ∷ []
order_transitions active = refunded ∷ []
order_transitions fraud_review = awaiting_payment ∷ cancelled ∷ fraud ∷ []
order_transitions cancelled = []
order_transitions fraud = []
order_transitions refunded = []
order_transitions failed = awaiting_payment ∷ cancelled ∷ []

-- A number for each status, by which two are compared.
abbrev pub status_number : OrderStatus → ℕ
status_number pending = 0
status_number awaiting_payment = 1
status_number paid = 2
status_number processing = 3
status_number active = 4
status_number fraud_review = 5
status_number cancelled = 6
status_number fraud = 7
status_number refunded = 8
status_number failed = 9

abbrev pub status_eq : OrderStatus → OrderStatus → Bool
status_eq a b = status_number a == status_number b

-- `isValidOrderTransition`
unfoldable pub is_valid_order_transition : OrderStatus → OrderStatus → Bool
is_valid_order_transition from to = any (status_eq to) (order_transitions from)

abbrev pub invalid_transition : Error
invalid_transition = app (app_error business_rule "order.invalid_transition")

module _ (T : Tables) where
  -- `transitionOrderStatus`, which returns the updated order.
  unfoldable pub transition_order_status :
      RowId → OrderStatus → TransitionActor → Option Text → Action (Db T) Order
  transition_order_status order_id to_status actor reason = do
    order ← (λ db. or_throw (T.find db.orders order_id) db)
    throw_if (not (is_valid_order_transition order.status to_status)) invalid_transition
    let updated = record order { status = to_status }
    modify (λ db. record db { orders = T.write db.orders order_id updated })
    record_status_transition T (record {
      tenant_id = order.tenant_id;
      entity_type = StatusEntity.order;
      entity_id = order_id;
      from_status = some (of_order order.status);
      to_status = of_order to_status;
      actor_type = actor.type;
      actor_id = actor.id;
      reason = reason;
      metadata = none;
    })
    when (is_truthy actor.label) (
        record_audit_log T (record {
          tenant_id = order.tenant_id;
          actor_type = actor.type;
          actor_id = actor.id;
          actor_label = actor.label;
          action = AuditAction.order_status_changed;
          entity_type = AuditEntity.order;
          entity_id = order_id;
          ip = none;
          before_state = none;
          after_state = some ((codes "status", Value.status (of_order to_status)) ∷ []);
          reason = reason;
          metadata = none;
        }))
    pure updated
