-- ===== src/Orders/Totals.antt =====
-- The loop of `createOrder`: the subtotal and the line totals.
use dohost.Base.{
  ◌+◌, ◌≡◌, ◌∙◌, Option, List, [], ◌∷◌, ◌++◌, Text, inl, inr, length, length-append, All,
  All-append, arith,
}
use dohost.Base.Int.{ℤ, pos, ◌+ℤ◌, int_laws}
use dohost.Errors.{ok, Result-cases}
use dohost.Money.{Money, add}
use dohost.Money.Laws.{add-amount}
use dohost.Store.{RowId, Tables}
use dohost.Data.{Db, Time, OrderItem}
use dohost.Orders.Line.{CreateOrderItemInput, IsPriced, price_line, price_line-IsPriced}
use dohost.Catalog.{get_current_price}
use dohost.Orders.Create.{price_item, price_items, offer_for}

-- The sum of the line totals.
abbrev pub line_totals : List OrderItem → ℤ
line_totals [] = pos 0
line_totals (row ∷ rows) = row.line_total +ℤ line_totals rows

line_totals-append :
    (xs ys : List OrderItem) → line_totals (xs ++ ys) ≡ line_totals xs +ℤ line_totals ys
line_totals-append [] ys = omega int_laws
line_totals-append (x ∷ xs) ys = rw (line_totals-append xs ys) (omega int_laws)

-- What the loop keeps: the subtotal is the sum of the rows so far, and each row is priced.
pub record IsTotalled (subtotal : Money) (rows : List OrderItem) : Type 0 where
  pub totalled : subtotal.amount ≡ line_totals rows
  pub priced : All IsPriced rows

module _ (T : Tables) (now : Time) (tenant : RowId) (currency : Text) (group : Option RowId) where
  push-IsTotalled :
      (subtotal total next : Money) (rows : List OrderItem) (row : OrderItem)
      → IsTotalled subtotal rows
      → IsPriced row
      → row.line_total ≡ total.amount
      → next.amount ≡ subtotal.amount +ℤ total.amount
      → IsTotalled next (rows ++ (row ∷ []))
  push-IsTotalled subtotal total next rows row t p same sum = record {
    totalled = sum ∙ rw (t.totalled, ← same, line_totals-append rows (row ∷ [])) (omega int_laws);
    priced = All-append IsPriced rows (row ∷ []) t.priced (p, tt);
  }

  -- From a total that is right, the loop ends with one that is, one row for each item, and the
  -- database as it was.
  pub price_items-IsTotalled :
      (items : List CreateOrderItemInput) (subtotal : Money) (rows : List OrderItem)
      (db after : Db T) {result : Money} {all_rows : List OrderItem}
      → IsTotalled subtotal rows
      → price_items T now tenant currency group subtotal rows items db
        ≡ (ok (result, all_rows), after)
      → IsTotalled result all_rows × (length all_rows ≡ length rows + length items) × (after ≡ db)
  unfolding price_items price_item
  price_items-IsTotalled [] subtotal rows db after {result} {all_rows} t h =
      let same : subtotal ≡ result = ground arith in
      let rows_same : rows ≡ all_rows = ground arith in
      let kept : after ≡ db = ground arith in rw (← same, ← rows_same) (t, omega arith, kept)
  price_items-IsTotalled (item ∷ items) subtotal rows db after t h =
      let price =
        get_current_price T now (offer_for tenant currency group item) db.product_prices in
      let product = T.find db.products item.product_id in
      elim (Result-cases (price_line currency item price product)) [
        | inr (e, failed) ↦ cc (rw failed at h)
        | inl ((total, row), made) ↦
            let h1 = rw made at h in
            let (priced, same) = price_line-IsPriced currency item price product made in
            elim (Result-cases (add subtotal total)) [
              | inr (e, failed) ↦ cc (rw failed at h1)
              | inl (next, added) ↦
                  let t' =
                    push-IsTotalled subtotal total next rows row t priced same
                      (add-amount subtotal total added) in
                  let (done, count, kept) =
                    price_items-IsTotalled items next (rows ++ (row ∷ [])) db after t'
                      (rw added at h1) in
                  (done, count ∙ rw (length-append rows (row ∷ [])) (omega arith), kept)
            ]
      ]
