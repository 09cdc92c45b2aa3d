-- ===== src/Orders/Retry.antt =====
-- A retried submission: the second call of `createOrder` with the same key.
use dohost.Base.{
  ◌≡◌, ◌∙◌, ap, sym, true, false, Option, none, some, text_eq_refl, inl, inr, ◌==◌, ==_refl, ==_iff,
  Bool-cases, Option-cases, arith,
}
use mathlib.Core.Option.{some-injective}
use dohost.Errors.{ok}
use dohost.Store.{RowId, Tables, IsLawful}
use dohost.Data.{Db, Time, Order}
use dohost.Actors.{Actor, actor_tenant}
use dohost.Orders.Create.{CreateOrderInput, check_actor, is_empty, has_key, create_order}
use dohost.Orders.Placing.{
  IsPlaced, existing_order, create_order-idempotent, create_order-places, create_order-passed,
}

placed-has_key :
    (actor : Actor) (input : CreateOrderInput) (o : Order)
    → IsPlaced actor input o
    → has_key (actor_tenant actor) input.idempotency_key o ≡ true
placed-has_key actor input o p =
    rw (p.in_tenant, p.keyed, ==_refl (actor_tenant actor), text_eq_refl input.idempotency_key)

same_entry :
    (j i : RowId) (o' o : Order)
    → j ≡ i
    → some o' ≡ some o
    → ◌≡◌ {A = Option (RowId × Order)} (some (j, o')) (some (i, o))
same_entry j i o' o one h = rw (one, some-injective _ _ h)

module _ (T : Tables) (laws : IsLawful T) where
  existing-places :
      (now : Time) (actor : Actor) (input : CreateOrderInput) (db after : Db T) (i : RowId)
      (o : Order)
      → existing_order T actor input db ≡ none
      → create_order T now actor input db ≡ (ok (i, o), after)
      → existing_order T actor input after ≡ some (i, o)
  existing-places now actor input db after i o new h =
      let key = has_key (actor_tenant actor) input.idempotency_key in
      let (placed, fresh, table) = create_order-places T now actor input db laws new h in
      let keyed = placed-has_key actor input o placed in
      let there : T.find after.orders i ≡ some o = table i ∙ rw (==_refl i) in
      elim (Option-cases (existing_order T actor input after)) [
        | inl missing ↦ cc (laws.find_first-none after.orders key i o missing there, keyed)
        | inr ((j, o'), e) ↦
            let (found, fits) = laws.find_first-some after.orders key j o' e in
            elim (Bool-cases (j == i)) [
              | inl same ↦
                  let one : j ≡ i = (==_iff j i).0 same in
                  e ∙ same_entry j i o' o one (cc (found, there, ap (T.find after.orders) one))
              | inr other ↦
                  let before : T.find db.orders j ≡ some o' = sym (table j ∙ rw other) ∙ found in
                  cc (laws.find_first-none db.orders key j o' new before, fits)
            ]
      ]

  find_again :
      (now : Time) (actor : Actor) (input : CreateOrderInput) (db after : Db T) (r : RowId × Order)
      → create_order T now actor input db ≡ (ok r, after)
      → existing_order T actor input after ≡ some r
  find_again now actor input db after r h = elim (Option-cases (existing_order T actor input db)) [
    | inl new ↦ existing-places now actor input db after r.0 r.1 new h
    | inr (old, found) ↦
        let (allowed, some_items) = create_order-passed T now actor input db h in
        let back = create_order-idempotent T now actor input db old allowed some_items found in
        let unchanged : db ≡ after = ground (arith, back) in
        let returned : old ≡ r = ground (arith, back) in rw (← unchanged, ← returned) found
  ]

  -- After a call that has returned an order, a second call for the same tenant with the same key, by
  -- any actor and with any items that pass the checks, returns that same order and changes nothing.
  pub create_order_twice :
      (now later : Time) (actor again : Actor) (input repeated : CreateOrderInput) (db after : Db T)
      (r : RowId × Order)
      → create_order T now actor input db ≡ (ok r, after)
      → actor_tenant again ≡ actor_tenant actor
      → repeated.idempotency_key ≡ input.idempotency_key
      → check_actor again repeated.client_id ≡ ok tt
      → is_empty repeated.items ≡ false
      → create_order T later again repeated after ≡ (ok r, after)
  create_order_twice now later actor again input repeated db after r h same_tenant same_key allowed
        some_items =
      let found : existing_order T actor input after ≡ some r =
        find_again now actor input db after r h in
      let keys : existing_order T again repeated after ≡ existing_order T actor input after =
        λ i. T.find_first after.orders (has_key (same_tenant i) (same_key i)) in
      create_order-idempotent T later again repeated after r allowed some_items (keys ∙ found)
