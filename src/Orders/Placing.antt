-- ===== src/Orders/Placing.antt =====
-- `createOrder` as a whole: what it writes, what it refuses, and what a retry returns.
use dohost.Base.{
  ℕ, ◌≡◌, refl, ◌∙◌, ap, sym, false, Option, none, some, [], Text, length, All, inl, inr, ◌==◌,
  Bool-cases, Option-cases, arith, codes, if◌then◌else◌,
}
use dohost.Base.Int.{pos}
use dohost.Service.{transaction_err, outcome-cases}
use dohost.Errors.{ok, err, Error, Result-cases}
use dohost.Money.{Money, zero_money}
use dohost.Money.Laws.{money_of-amount}
use dohost.Store.{RowId, Tables, IsLawful}
use dohost.Data.{Db, Time, Order, pending}
use dohost.Actors.{Actor, actor_tenant}
use dohost.Audit.{record_audit_log, record_status_transition}
use dohost.Numbering.{next_sequence_number}
use dohost.Orders.Line.{IsPriced}
use dohost.Orders.Create.{
  CreateOrderInput, check_actor, is_empty, has_key, price_items, new_order, insert_order,
  place_order, create_unless, create_order,
}
use dohost.Orders.Totals.{IsTotalled, line_totals, price_items-IsTotalled}

-- The look-up by idempotency key.
abbrev pub existing_order : (T : Tables) → Actor → CreateOrderInput → Db T → Option (RowId × Order)
existing_order T actor input db =
    T.find_first db.orders (has_key (actor_tenant actor) input.idempotency_key)

-- What `createOrder` writes for a new order: the total is the subtotal and the sum of the line
-- totals of the items, which are priced, one for each item asked for; the order is pending.
pub record IsPlaced (actor : Actor) (input : CreateOrderInput) (o : Order) : Type 0 where
  pub totalled : o.subtotal ≡ line_totals o.items
  pub total_same : o.total ≡ o.subtotal
  pub priced : All IsPriced o.items
  pub counted : length o.items ≡ length input.items
  pub is_pending : o.status ≡ pending
  pub for_client : o.client_id ≡ input.client_id
  pub in_tenant : o.tenant_id ≡ actor_tenant actor
  pub keyed : o.idempotency_key ≡ some input.idempotency_key

next_sequence_number-returns :
    (T : Tables) (tenant : RowId) (key prefix : Text) (padding : ℕ) (db : Db T)
    → (number : Text) × (after : Db T) × (next_sequence_number T tenant key prefix padding db
        ≡ (ok number, after))
      × (after.orders ≡ db.orders)
unfolding next_sequence_number
next_sequence_number-returns T tenant key prefix padding db = (_, _, refl, refl)

module _ (T : Tables) (now : Time) (actor : Actor) (input : CreateOrderInput) (db : Db T) where
  create_order_lem :
      check_actor actor input.client_id ≡ ok tt
      → is_empty input.items ≡ false
      → create_order T now actor input db
        ≡ create_unless T (existing_order T actor input db) now actor input db
  unfolding create_order
  create_order_lem allowed some_items = rw (allowed, some_items)

  -- A call that passes the checks of the actor and of the items, with a key that an order of the
  -- tenant already has, returns that order and changes nothing.
  pub create_order-idempotent :
      (existing : RowId × Order)
      → check_actor actor input.client_id ≡ ok tt
      → is_empty input.items ≡ false
      → existing_order T actor input db ≡ some existing
      → create_order T now actor input db ≡ (ok existing, db)
  unfolding create_unless
  create_order-idempotent existing allowed some_items found =
      create_order_lem allowed some_items ∙ rw found

  pub create_order-passed :
      {r : RowId × Order} {after : Db T}
      → create_order T now actor input db ≡ (ok r, after)
      → (check_actor actor input.client_id ≡ ok tt) × (is_empty input.items ≡ false)
  unfolding create_order
  create_order-passed h = elim (Result-cases (check_actor actor input.client_id)) [
    | inr (e, refused) ↦ cc (rw refused at h)
    | inl (u, allowed) ↦ (
      allowed,
      elim (Bool-cases (is_empty input.items)) [
        | inl none_given ↦ cc (rw none_given at (rw allowed at h))
        | inr some_items ↦ some_items
      ],
    )
  ]

  -- A call that throws leaves the database as it was.
  pub create_order-atomic :
      (e : Error)
      → (create_order T now actor input db).0 ≡ err e
      → (create_order T now actor input db).1 ≡ db
  unfolding create_order create_unless
  create_order-atomic e h = elim (Result-cases (check_actor actor input.client_id)) [
    | inr (x, refused) ↦ rw refused
    | inl (u, allowed) ↦ elim (Bool-cases (is_empty input.items)) [
      | inl none_given ↦ rw (allowed, none_given)
      | inr some_items ↦ elim (Option-cases (existing_order T actor input db)) [
        | inr (o, found) ↦ rw (allowed, some_items, found)
        | inl new ↦ elim (Option-cases (T.find db.clients input.client_id)) [
          | inl missing ↦ rw (allowed, some_items, new, missing)
          | inr (client, known) ↦
              let h' = rw (allowed, some_items, new, known) at h in
              rw (allowed, some_items, new, known)
                (transaction_err (place_order T now actor input client.client_group_id) db h')
        ]
      ]
    ]
  ]

  inserted :
      (new : Order) (start : Db T) {i : RowId} {o : Order} {after : Db T}
      → insert_order T actor input new start ≡ (ok (i, o), after)
      → (o ≡ new)
        × (i ≡ (T.create start.orders new).0)
        × (after.orders ≡ (T.create start.orders new).1)
  unfolding insert_order record_status_transition record_audit_log
  inserted new start h = (ground arith, ground arith, ground arith)

  start-IsTotalled : {start : Money} → zero_money input.currency ≡ ok start → IsTotalled start []
  unfolding zero_money
  start-IsTotalled h = record { totalled = money_of-amount (pos 0) input.currency h; priced = tt }

  place_order-IsPlaced :
      (group : Option RowId) {i : RowId} {o : Order} {after : Db T}
      → place_order T now actor input group db ≡ (ok (i, o), after)
      → IsPlaced actor input o
        × (i ≡ (T.create db.orders o).0)
        × (after.orders ≡ (T.create db.orders o).1)
  unfolding place_order
  place_order-IsPlaced group h =
      let tenant = actor_tenant actor in
      elim (Result-cases (zero_money input.currency)) [
        | inr (e, failed) ↦ cc (rw failed at h)
        | inl (start, started) ↦
            let h1 = rw started at h in
            elim (outcome-cases
              (price_items T now tenant input.currency group start [] input.items db)) [
                | inr (e, s, failed) ↦ cc (rw failed at h1)
                | inl ((subtotal, rows), db1, summed) ↦
                    let h2 = rw summed at h1 in
                    let (number, db2, numbered, same) =
                      next_sequence_number-returns T tenant (codes "order_number") (codes "ORD-") 6
                        db1 in
                    let (done, count, kept) =
                      price_items-IsTotalled T now tenant input.currency group input.items start []
                        db db1 (start-IsTotalled started) summed in
                    let (is_new, id_new, table_new) =
                      inserted (new_order T tenant input number subtotal rows) db2
                        (rw numbered at h2) in
                    let orders_same : db2.orders ≡ db.orders = same ∙ ap (λ d. d.orders) kept in
                    (
                      rw is_new (record {
                        totalled = done.totalled;
                        total_same = refl;
                        priced = done.priced;
                        counted = count ∙ omega arith;
                        is_pending = refl;
                        for_client = refl;
                        in_tenant = refl;
                        keyed = refl;
                      }),
                      rw is_new (id_new ∙ rw orders_same),
                      rw is_new (table_new ∙ rw orders_same),
                    )
              ]
      ]

  -- A call that returns, where no order of the tenant has the key, returns an order that it has placed
  -- under a new id: it is in the table afterwards, and the other orders are as they were.
  pub create_order-places :
      (laws : IsLawful T) {i : RowId} {o : Order} {after : Db T}
      → existing_order T actor input db ≡ none
      → create_order T now actor input db ≡ (ok (i, o), after)
      → IsPlaced actor input o
        × (T.find db.orders i ≡ none)
        × ((j : RowId) → T.find after.orders j ≡ (if j == i then some o else T.find db.orders j))
  unfolding create_unless
  create_order-places laws {i} {o} {after} none_there h =
      let (allowed, some_items) = create_order-passed h in
      let h1 = rw none_there at (sym (create_order_lem allowed some_items) ∙ h) in
      elim (Option-cases (T.find db.clients input.client_id)) [
        | inl missing ↦ cc (rw missing at h1)
        | inr (client, known) ↦
            let h2 = rw known at h1 in
            elim (outcome-cases (place_order T now actor input client.client_group_id db)) [
              | inr (e, s, failed) ↦ cc (rw failed at h2)
              | inl (r, s, made) ↦
                  let made' : place_order T now actor input client.client_group_id db
                      ≡ (ok (i, o), after) =
                    made ∙ rw made at h2 in
                  let (placed, id_new, table_new) =
                    place_order-IsPlaced client.client_group_id made' in
                  (
                    placed,
                    rw id_new (laws.create_fresh db.orders o),
                    λ j. rw (table_new, id_new) (laws.find-create db.orders o j),
                  )
            ]
      ]
