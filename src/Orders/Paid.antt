-- ===== src/Orders/Paid.antt =====
-- `transitionOrderStatus` called again and again: what an order has been through.
use dohost.Base.{
  ◌≡◌, ◌∙◌, ap, sym, true, Option, some, List, [], ◌∷◌, Text, any, ◌⊎◌, inl, inr, ◌==◌, ==_iff,
  Bool-cases, arith,
}
use mathlib.Core.Option.{some-injective}
use dohost.Store.{RowId, Tables, IsLawful}
use dohost.Data.{Db, Order, OrderStatus, pending, paid}
use dohost.Actors.{TransitionActor}
use dohost.Orders.{is_valid_order_transition, status_eq, transition_order_status}
use dohost.Orders.Transition.{transition_order_status-decides}
use dohost.Orders.Machine.{is_after_payment, payment_step}

-- The statuses that the order `i` was seen in, the last one first: at the start it is pending, and
-- after every call of `transitionOrderStatus`, for this or another order, its row is read again.
pub data Visits (T : Tables) (i : RowId) : Db T → List OrderStatus → Type 0 where
  placed :
      {db : Db T} {o : Order}
      → T.find db.orders i ≡ some o
      → o.status ≡ pending
      → Visits T i db (pending ∷ [])
  called :
      {db after : Db T} {past : List OrderStatus} {o : Order} (j : RowId) (to : OrderStatus)
      (actor : TransitionActor) (reason : Option Text)
      → Visits T i db past
      → (transition_order_status T j to actor reason db).1 ≡ after
      → T.find after.orders i ≡ some o
      → Visits T i after (o.status ∷ past)

module _ (T : Tables) (laws : IsLawful T) (i : RowId) where
  -- What a call does to the row of the order: nothing, or a valid change of its status.
  row-moved :
      (db : Db T) (o : Order) (j : RowId) (to : OrderStatus) (actor : TransitionActor)
      (reason : Option Text)
      → T.find (transition_order_status T j to actor reason db).1.orders i ≡ some o
      → (T.find db.orders i ≡ some o)
        ⊎ ((old : Order) × (T.find db.orders i ≡ some old)
            × (is_valid_order_transition old.status o.status ≡ true))
  row-moved db o j to actor reason found =
      elim (transition_order_status-decides T j to actor reason db laws) [
        | inr (same, refused) ↦ inl (rw same at found)
        | inl moved ↦ elim (Bool-cases (i == j)) [
          | inr other ↦ inl (sym (moved.orders i ∙ rw other) ∙ found)
          | inl this ↦
              let is_j : i ≡ j = (==_iff i j).0 this in
              let is_row : record moved.order { status = to } ≡ o =
                some-injective _ _ (sym (moved.orders i ∙ rw this) ∙ found) in
              inr (
                moved.order,
                rw is_j moved.found,
                ap (λ s. is_valid_order_transition moved.order.status s)
                      (sym (ap (λ r. r.status) is_row))
                    ∙ moved.valid,
              )
        ]
      ]

  -- Whatever calls of `transitionOrderStatus` are made after an order was pending, with any statuses,
  -- for this and for other orders: where the order is seen paid, processing, active or refunded, it
  -- was seen `paid`, then or before.
  pub Visits-paid :
      {db : Db T} {past : List OrderStatus} {o : Order}
      → Visits T i db past
      → T.find db.orders i ≡ some o
      → is_after_payment o.status ≡ true
      → any (status_eq paid) past ≡ true
  Visits-paid {o = o} (placed {o = first} there waits) found a =
      let same : first ≡ o = some-injective _ _ (sym there ∙ found) in
      cc (ap (λ r. is_after_payment r.status) same, ap is_after_payment waits, a)
  Visits-paid {o = o} (called {db = db} {past = past} {o = seen} j to actor reason before run there)
        found a =
      let is_seen : seen ≡ o = some-injective _ _ (sym there ∙ found) in
      let after_payment : is_after_payment seen.status ≡ true =
        ap (λ r. is_after_payment r.status) is_seen ∙ a in
      elim (row-moved db seen j to actor reason (rw run there)) [
        | inl kept ↦ ground (arith, Visits-paid before kept after_payment)
        | inr (old, was, valid) ↦ elim (payment_step old.status seen.status valid after_payment) [
          | inl is_paid ↦ rw is_paid
          | inr earlier ↦ ground (arith, Visits-paid before was earlier)
        ]
      ]
