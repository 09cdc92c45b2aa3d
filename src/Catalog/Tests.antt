-- ===== src/Catalog/Tests.antt =====
-- The price theorems at work on the sample shop.
use dohost.Base.{◌≤◌, ◌≡◌, refl, true, none, some, List, [], ◌∷◌, ◌⊎◌}
use dohost.Base.Int.{pos}
use dohost.Errors.{ok}
use dohost.Store.{RowId}
use dohost.Store.Memory.{memory, memory-IsLawful}
use dohost.Data.{Db, ProductPrice, monthly}
use dohost.Permissions.{products_write, permission_eq}
use dohost.Rbac.{require_permission, has_permission, includes}
use dohost.Sample.{usd, shop, clerk, price_row}
use dohost.Catalog.{
  Offer, PriceInput, is_for, is_effective, price_for, prefer_group, get_current_price,
  set_product_price, offer_of,
}
use dohost.Catalog.Pricing.{
  IsOffered, IsStarted, get_current_price-is_current, get_current_price-prefers_group,
}
use dohost.Catalog.Versions.{
  Kept, IsSingleOpen, set_product_price-Kept, set_product_price-IsSingleOpen,
}

abbrev monthly_web : Offer
monthly_web = record {
  tenant_id = 0;
  product_id = 0;
  currency = usd;
  billing_cycle = monthly;
  client_group_id = none;
}

current_run : get_current_price memory 5 monthly_web shop.product_prices ≡ some (0, price_row)
unfolding get_current_price price_for prefer_group is_for is_effective
current_run = refl

get_current_price-is_current_example :
    (memory.find shop.product_prices 0 ≡ some price_row)
    × IsOffered monthly_web price_row
    × IsStarted 5 price_row
    × ((price_row.client_group_id ≡ none) ⊎ (price_row.client_group_id ≡ none))
get_current_price-is_current_example =
    get_current_price-is_current memory memory-IsLawful 5 monthly_web shop.product_prices 0
      price_row current_run

-- A price for the clients of group 2, beside the general one.
abbrev group_row : ProductPrice
group_row = record price_row { client_group_id = some 2; price = pos 800; effective_from = 3 }

abbrev group_web : Offer
group_web = record monthly_web { client_group_id = some 2 }

abbrev two_prices : List ProductPrice
two_prices = price_row ∷ group_row ∷ []

group_row_fits : is_for group_web group_row ≡ true
unfolding is_for
group_row_fits = refl

group_row_effective : is_effective 5 group_row ≡ true
unfolding is_effective
group_row_effective = refl

get_current_price-prefers_group_example :
    (i : RowId) × (p : ProductPrice) × (get_current_price memory 5 group_web two_prices
      ≡ some (i, p))
    × (is_for group_web p ≡ true)
    × (3 ≤ p.effective_from)
get_current_price-prefers_group_example =
    get_current_price-prefers_group memory memory-IsLawful 5 group_web two_prices 1 2 group_row refl
      refl group_row_fits group_row_effective

abbrev dearer : PriceInput
dearer = record {
  product_id = 0;
  currency = usd;
  billing_cycle = monthly;
  price = pos 1200;
  setup_fee = none;
  client_group_id = none;
  is_promotional = none;
  effective_from = some 6;
}

set_product_price-Kept_example :
    (q : ProductPrice) × (memory.find
        (set_product_price memory 5 clerk dearer shop).1.product_prices
        0
      ≡ some q)
    × Kept (offer_of clerk dearer) 6 price_row q
set_product_price-Kept_example =
    set_product_price-Kept memory memory-IsLawful 5 clerk dearer shop 0 price_row refl

clerk_allowed : require_permission clerk.permissions products_write ≡ ok tt
unfolding require_permission has_permission includes permission_eq
clerk_allowed = refl

abbrev no_prices : Db memory
no_prices = record shop { product_prices = [] }

no_prices-IsSingleOpen : IsSingleOpen memory (offer_of clerk dearer) []
no_prices-IsSingleOpen i j p q fi fj pi pj oi oj = cc

set_product_price-IsSingleOpen_example :
    IsSingleOpen memory
      (offer_of clerk dearer)
      (set_product_price memory 5 clerk dearer no_prices).1.product_prices
set_product_price-IsSingleOpen_example =
    set_product_price-IsSingleOpen memory memory-IsLawful 5 clerk dearer no_prices
      no_prices-IsSingleOpen
