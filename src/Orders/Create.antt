-- ===== src/Orders/Create.antt =====
-- `createOrder` of packages/billing/src/orders.ts.
use dohost.Base.{
  Bool, true, false, not, Option, none, some, List, [], ◌∷◌, ◌++◌, Text, codes, text_eq, ◌==◌, ◌&&◌,
  if◌then◌else◌,
}
use dohost.Base.Int.{pos}
use dohost.Service.{Action, ◌>>=◌, ◌>>◌, pure, lift, modify, or_throw, throw_if, transaction}
use dohost.Errors.{Result, ok, err, Error, app, app_error, business_rule}
use dohost.Money.{Money, zero_money, add}
use dohost.Permissions.{orders_write}
use dohost.Rbac.{require_permission}
use dohost.Store.{RowId, Tables}
use dohost.Data.{
  Db, Time, Order, OrderItem, pending, StatusEntity, of_order, AuditEntity, AuditAction, Value,
}
use dohost.Actors.{Actor, of_client, of_staff, actor_tenant, actor_id, actor_label, actor_type}
use dohost.Audit.{record_audit_log, record_status_transition}
use dohost.Numbering.{next_sequence_number}
use dohost.Catalog.{Offer, get_current_price}
use dohost.Orders.Line.{CreateOrderItemInput, price_line}

pub record CreateOrderInput : Type 0 where
  pub client_id : RowId
  pub currency : Text
  pub items : List CreateOrderItemInput
  pub idempotency_key : Text
  pub ip_address : Option Text
  pub user_agent : Option Text

abbrev pub order_forbidden : Error
order_forbidden = app (app_error business_rule "order.forbidden")

abbrev pub order_empty : Error
order_empty = app (app_error business_rule "order.empty")

-- The checks of the actor, by its type.
abbrev pub check_actor : Actor → RowId → Result (Unit {0})
check_actor (of_client a) client_id =
    if not (a.client_id == client_id) then err order_forbidden else ok tt
check_actor (of_staff a) client_id = require_permission a.permissions orders_write

-- `where: { tenantId_idempotencyKey: { tenantId, idempotencyKey } }`
abbrev pub has_key : RowId → Text → Order → Bool
has_key tenant key o =
    (o.tenant_id == tenant) && elim o.idempotency_key [ none ↦ false | some k ↦ text_eq k key ]

abbrev pub is_empty {ℓ} : {A : Type ℓ} → List A → Bool
is_empty [] = true
is_empty (_ ∷ _) = false

-- The arguments of `getCurrentPrice` for an item.
abbrev pub offer_for : RowId → Text → Option RowId → CreateOrderItemInput → Offer
offer_for tenant currency group item = record {
  tenant_id = tenant;
  product_id = item.product_id;
  currency = currency;
  billing_cycle = item.billing_cycle;
  client_group_id = group;
}

module _ (T : Tables) where
  -- One round of the loop over `input.items`: the line's total and its row.
  unfoldable pub price_item :
      Time → RowId → Text → Option RowId → CreateOrderItemInput → Action (Db T) (Money × OrderItem)
  price_item now tenant currency group item db = (
    price_line currency item
        (get_current_price T now (offer_for tenant currency group item) db.product_prices)
        (T.find db.products item.product_id),
    db,
  )

  -- The loop: `subtotal` and `itemsData`.
  unfoldable pub price_items :
      Time
      → RowId
      → Text
      → Option RowId
      → Money
      → List OrderItem
      → List CreateOrderItemInput
      → Action (Db T) (Money × List OrderItem)
  price_items now tenant currency group subtotal rows [] = pure (subtotal, rows)
  price_items now tenant currency group subtotal rows (item ∷ items) = do
    (total, row) ← price_item now tenant currency group item
    next ← lift (add subtotal total)
    price_items now tenant currency group next (rows ++ (row ∷ [])) items

  -- The order that `tx.order.create` writes.
  abbrev pub new_order : RowId → CreateOrderInput → Text → Money → List OrderItem → Order
  new_order tenant input number subtotal rows = record {
    tenant_id = tenant;
    client_id = input.client_id;
    order_number = number;
    status = pending;
    currency = input.currency;
    subtotal = subtotal.amount;
    discount_total = pos 0;
    tax_total = pos 0;
    total = subtotal.amount;
    idempotency_key = some input.idempotency_key;
    ip_address = input.ip_address;
    user_agent = input.user_agent;
    items = rows;
  }

  -- `tx.order.create` with the two records that follow it.
  unfoldable pub insert_order : Actor → CreateOrderInput → Order → Action (Db T) (RowId × Order)
  insert_order actor input order = do
    order_id ← (λ db. pure (T.create db.orders order).0 db)
    modify (λ db. record db { orders = (T.create db.orders order).1 })
    record_status_transition T (record {
      tenant_id = order.tenant_id;
      entity_type = StatusEntity.order;
      entity_id = order_id;
      from_status = none;
      to_status = of_order pending;
      actor_type = actor_type actor;
      actor_id = some (actor_id actor);
      reason = none;
      metadata = none;
    })
    record_audit_log T (record {
      tenant_id = order.tenant_id;
      actor_type = actor_type actor;
      actor_id = some (actor_id actor);
      actor_label = some (actor_label actor);
      action = AuditAction.order_created;
      entity_type = AuditEntity.order;
      entity_id = order_id;
      ip = input.ip_address;
      before_state = none;
      after_state = some (
          (codes "orderNumber", Value.text order.order_number)
          ∷ (codes "total", Value.number order.total)
          ∷ (codes "currency", Value.text input.currency)
          ∷ []);
      reason = none;
      metadata = none;
    })
    pure (order_id, order)

  -- The body of the transaction.
  unfoldable pub place_order :
      Time → Actor → CreateOrderInput → Option RowId → Action (Db T) (RowId × Order)
  place_order now actor input group = do
    start ← lift (zero_money input.currency)
    (subtotal, rows) ←
        price_items now (actor_tenant actor) input.currency group start [] input.items
    number ← next_sequence_number T (actor_tenant actor) (codes "order_number") (codes "ORD-") 6
    insert_order actor input (new_order (actor_tenant actor) input number subtotal rows)

  -- What follows the look-up by idempotency key.
  unfoldable pub create_unless :
      Option (RowId × Order) → Time → Actor → CreateOrderInput → Action (Db T) (RowId × Order)
  create_unless (some existing) now actor input = pure existing
  create_unless none now actor input = do
    client ← (λ db. or_throw (T.find db.clients input.client_id) db)
    transaction (place_order now actor input client.client_group_id)

  -- `createOrder`
  unfoldable pub create_order : Time → Actor → CreateOrderInput → Action (Db T) (RowId × Order)
  create_order now actor input = do
    lift (check_actor actor input.client_id)
    throw_if (is_empty input.items) order_empty
    existing ← (λ db.
        pure (T.find_first db.orders (has_key (actor_tenant actor) input.idempotency_key)) db)
    create_unless existing now actor input
