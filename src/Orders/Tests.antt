-- ===== src/Orders/Tests.antt =====
-- The order theorems at work on the sample shop.
use dohost.Base.{◌≡◌, ◌⊎◌, refl, true, none, some, [], ◌∷◌, any, ◌==◌, if◌then◌else◌}
use dohost.Base.Int.{◌+ℤ◌, ◌*ℤ◌}
use dohost.Errors.{Result, ok, err}
use dohost.Store.{RowId}
use dohost.Store.Memory.{memory, memory-IsLawful}
use dohost.Data.{Db, Order, OrderStatus, pending, awaiting_payment, paid, processing}
use dohost.Actors.{TransitionActor, staff_transition}
use dohost.Sample.{shop, busy_shop, customer, clerk, cart, three_webs, order_placed}
use dohost.Orders.{is_valid_order_transition, transition_order_status, order_transitions, status_eq}
use dohost.Orders.Create.{
  CreateOrderInput, create_order, order_forbidden, price_items, price_item, place_order,
  insert_order, create_unless,
}
use dohost.Orders.Line.{price_line, line_total_of}
use dohost.Orders.Placing.{IsPlaced, create_order-atomic, create_order-places}
use dohost.Orders.Retry.{create_order_twice}
use dohost.Orders.Paid.{Visits, placed, called, Visits-paid}
use dohost.Orders.Transition.{
  transition_row, transition-allowed, IsMoved, IsRefused, transition_order_status-decides,
}
use dohost.Catalog.{get_current_price, price_for, prefer_group, is_for, is_effective}
use dohost.Money.{money, money_of, add, multiply, zero_money}
use dohost.Money.Currency.{to_upper_case, is_currency_code}
use dohost.Numbering.{next_sequence_number, increment_counter, count_up}
use dohost.Numbering.Digits.{to_decimal, pad_start, digits_onto}
use dohost.Audit.{record_audit_log, record_status_transition}

abbrev after_order : Db memory
after_order = (create_order memory 5 customer cart shop).1

-- The call of the cart, evaluated.
create_order_run : create_order memory 5 customer cart shop ≡ (ok (0, order_placed), after_order)
unfolding create_order create_unless place_order insert_order price_items price_item price_line
    line_total_of get_current_price price_for prefer_group is_for is_effective money money_of add
    multiply zero_money to_upper_case is_currency_code next_sequence_number increment_counter
    count_up to_decimal pad_start digits_onto record_audit_log record_status_transition ◌+ℤ◌ ◌*ℤ◌
create_order_run = refl

create_order-places_example :
    IsPlaced customer cart order_placed
    × (memory.find shop.orders 0 ≡ none)
    × ((j : RowId)
        → memory.find after_order.orders j
          ≡ (if j == 0 then some order_placed else memory.find shop.orders j))
create_order-places_example =
    create_order-places memory 5 customer cart shop memory-IsLawful refl create_order_run

abbrev other_client : CreateOrderInput
other_client = record cart { client_id = 4 }

other_client_refused : (create_order memory 5 customer other_client shop).0 ≡ err order_forbidden
unfolding create_order
other_client_refused = refl

create_order-atomic_example : (create_order memory 5 customer other_client shop).1 ≡ shop
create_order-atomic_example =
    create_order-atomic memory 5 customer other_client shop order_forbidden other_client_refused

abbrev one_web : CreateOrderInput
one_web = record cart { items = three_webs ∷ three_webs ∷ [] }

create_order_twice_example :
    create_order memory 9 customer one_web after_order ≡ (ok (0, order_placed), after_order)
create_order_twice_example =
    create_order_twice memory memory-IsLawful 5 9 customer customer cart one_web shop after_order
      (0, order_placed) create_order_run refl refl refl refl

abbrev mover : TransitionActor
mover = staff_transition clerk

to_awaiting : is_valid_order_transition pending awaiting_payment ≡ true
unfolding is_valid_order_transition order_transitions
to_awaiting = refl

abbrev moved_order : Result Order × Db memory
moved_order = transition_order_status memory 0 awaiting_payment mover none busy_shop

transition-allowed_example :
    (moved_order.0 ≡ ok (record order_placed { status = awaiting_payment }))
    × ((j : RowId)
        → memory.find moved_order.1.orders j ≡ (
            if j == 0
            then some (record order_placed { status = awaiting_payment })
            else memory.find busy_shop.orders j))
    × (moved_order.1.status_history
        ≡ (memory.create busy_shop.status_history
            (transition_row 0 order_placed awaiting_payment mover none)).1)
    × (moved_order.1 ≡ record busy_shop {
      orders = moved_order.1.orders;
      status_history = moved_order.1.status_history;
      audit_log = moved_order.1.audit_log;
    })
transition-allowed_example =
    transition-allowed memory 0 awaiting_payment mover none busy_shop memory-IsLawful order_placed
      refl to_awaiting

transition_order_status-decides_example :
    IsMoved memory 0 awaiting_payment mover none busy_shop moved_order.0 moved_order.1
    ⊎ ((moved_order.1 ≡ busy_shop)
        × IsRefused memory 0 awaiting_payment mover none busy_shop moved_order.0)
transition_order_status-decides_example =
    transition_order_status-decides memory 0 awaiting_payment mover none busy_shop memory-IsLawful

-- The order of the busy shop, moved three times; the last call is refused.
abbrev moved_to : OrderStatus → Db memory → Db memory
moved_to to db = (transition_order_status memory 0 to mover none db).1

abbrev shop_awaiting : Db memory
shop_awaiting = moved_to awaiting_payment busy_shop

abbrev shop_paid : Db memory
shop_paid = moved_to paid shop_awaiting

abbrev shop_processing : Db memory
shop_processing = moved_to processing shop_paid

abbrev shop_kept : Db memory
shop_kept = moved_to pending shop_processing

rows_seen :
    (memory.find shop_awaiting.orders 0 ≡ some (record order_placed { status = awaiting_payment }))
    × (memory.find shop_paid.orders 0 ≡ some (record order_placed { status = paid }))
    × (memory.find shop_processing.orders 0 ≡ some (record order_placed { status = processing }))
    × (memory.find shop_kept.orders 0 ≡ some (record order_placed { status = processing }))
unfolding transition_order_status is_valid_order_transition order_transitions record_audit_log
    record_status_transition
rows_seen = (refl, refl, refl, refl)

visited :
    Visits memory 0 shop_kept (processing ∷ processing ∷ paid ∷ awaiting_payment ∷ pending ∷ [])
visited =
    let (row1, row2, row3, row4) = rows_seen in
    let start : Visits memory 0 busy_shop (pending ∷ []) = placed {o = order_placed} refl refl in
    let seen1 = called 0 awaiting_payment mover none start refl row1 in
    let seen2 = called 0 paid mover none seen1 refl row2 in
    let seen3 = called 0 processing mover none seen2 refl row3 in
    called 0 pending mover none seen3 refl row4

Visits-paid_example :
    any (status_eq paid) (processing ∷ processing ∷ paid ∷ awaiting_payment ∷ pending ∷ []) ≡ true
Visits-paid_example = Visits-paid memory memory-IsLawful 0 visited rows_seen.3 refl
