-- ===== src/Orders/Line.antt =====
-- One line of an order: the body of the loop in `createOrder` of packages/billing/src/orders.ts.
use dohost.Base.{Option, none, some, Text, ◌≡◌, arith, ◌∙◌}
use dohost.Base.Int.{ℤ, pos, ◌+ℤ◌, ◌*ℤ◌}
use dohost.Errors.{
  Result, ok, err, ◌>>=◌, >>=-eq-ok, Error, app, app_error, business_rule, record_not_found,
}
use dohost.Money.{Money, Number, int, money, add, multiply}
use dohost.Money.Laws.{add-amount, multiply-amount}
use dohost.Store.{RowId}
use dohost.Data.{OrderItem, Product, ProductPrice, BillingCycle, Fields}

pub record CreateOrderItemInput : Type 0 where
  pub product_id : RowId
  pub quantity : Number
  pub billing_cycle : BillingCycle
  pub domain : Option Text
  pub selected_options : Option Fields

abbrev pub order_no_price : Error
order_no_price = app (app_error business_rule "order.no_price")

abbrev pub or_no_price : Option (RowId × ProductPrice) → Result (RowId × ProductPrice)
or_no_price none = err order_no_price
or_no_price (some p) = ok p

abbrev pub or_not_found : Option Product → Result Product
or_not_found none = err record_not_found
or_not_found (some p) = ok p

-- `add(multiply(unitPrice, item.quantity), setupFee)`
unfoldable pub line_total_of : Money → Number → Money → Result Money
line_total_of unit quantity setup = do goods ← multiply unit quantity; add goods setup

-- The row that `itemsData.push` appends.
abbrev pub item_row : CreateOrderItemInput → RowId → Product → Money → Money → Money → OrderItem
item_row item price_id product unit setup total = record {
  product_id = item.product_id;
  product_price_id = price_id;
  product_name_snapshot = product.name;
  description_snapshot = product.description;
  quantity = item.quantity;
  unit_price_snapshot = unit.amount;
  setup_fee_snapshot = setup.amount;
  tax_snapshot = pos 0;
  discount_snapshot = pos 0;
  billing_cycle_snapshot = item.billing_cycle;
  domain_snapshot = item.domain;
  selected_options_snapshot = item.selected_options;
  line_total = total.amount;
}

-- The line's total and the row that is pushed, from the price and the product that were found.
unfoldable pub price_line :
    Text
    → CreateOrderItemInput
    → Option (RowId × ProductPrice)
    → Option Product
    → Result (Money × OrderItem)
price_line currency item price_found product_found = do
  (price_id, price) ← or_no_price price_found
  product ← or_not_found product_found
  unit ← money (int price.price) currency
  setup ← money (int price.setup_fee) currency
  total ← line_total_of unit item.quantity setup
  ok (total, item_row item price_id product unit setup total)

-- The line total of a row is its unit price times its whole quantity plus its setup fee, and nothing
-- is taxed or discounted.
pub record IsPriced (row : OrderItem) : Type 0 where
  pub quantity : ℤ
  pub whole : row.quantity ≡ int quantity
  pub totalled : row.line_total ≡ row.unit_price_snapshot *ℤ quantity +ℤ row.setup_fee_snapshot
  pub untaxed : row.tax_snapshot ≡ pos 0
  pub undiscounted : row.discount_snapshot ≡ pos 0

line_total_of-amount :
    (unit : Money) (q : Number) (setup : Money) {total : Money}
    → line_total_of unit q setup ≡ ok total
    → (n : ℤ) × (q ≡ int n) × (total.amount ≡ unit.amount *ℤ n +ℤ setup.amount)
unfolding line_total_of
line_total_of-amount unit q setup h =
    let (goods, made, added) = >>=-eq-ok (multiply unit q) (λ goods. add goods setup) h in
    let (n, whole, times) = multiply-amount unit q made in
    (n, whole, add-amount goods setup added ∙ rw times)

item_row-IsPriced :
    (item : CreateOrderItemInput) (i : RowId) (product : Product) (unit setup sum : Money) (n : ℤ)
    → item.quantity ≡ int n
    → sum.amount ≡ unit.amount *ℤ n +ℤ setup.amount
    → {total : Money} {row : OrderItem}
    → ◌≡◌ {A = Result (Money × OrderItem)}
        (ok (sum, item_row item i product unit setup sum))
        (ok (total, row))
    → IsPriced row × (row.line_total ≡ total.amount)
item_row-IsPriced item i product unit setup sum n whole totalled h = (
  record {
    quantity = n;
    whole = ground arith;
    totalled = ground arith;
    untaxed = ground arith;
    undiscounted = ground arith;
  },
  ground arith,
)

-- What `price_line` returns is priced, and its total is the line total of the row.
pub price_line-IsPriced :
    (currency : Text) (item : CreateOrderItemInput) (p : Option (RowId × ProductPrice))
    (q : Option Product) {total : Money} {row : OrderItem}
    → price_line currency item p q ≡ ok (total, row)
    → IsPriced row × (row.line_total ≡ total.amount)
unfolding price_line
price_line-IsPriced currency item none q h = cc
price_line-IsPriced currency item (some p) none h = cc
price_line-IsPriced currency item (some (i, price)) (some product) h =
    let (unit, made_unit, h1) = >>=-eq-ok (money (int price.price) currency) _ h in
    let (setup, made_setup, h2) = >>=-eq-ok (money (int price.setup_fee) currency) _ h1 in
    let (sum, made_sum, h3) = >>=-eq-ok (line_total_of unit item.quantity setup) _ h2 in
    let (n, whole, totalled) = line_total_of-amount unit item.quantity setup made_sum in
    item_row-IsPriced item i product unit setup sum n whole totalled h3
