-- ===== src/Catalog.antt =====
-- packages/core/src/catalog.ts: product groups, products and versioned prices. `now` is the time at
-- which the call reads the clock.
pub mod Pricing
pub mod Products
pub mod Tests
pub mod Versions
use dohost.Base.{
  ℕ, Bool, true, false, not, Option, none, some, List, [], ◌∷◌, Text, codes, text_eq, ◌==◌, ltb,
  leb, ◌&&◌, ◌||◌, if◌then◌else◌,
}
use dohost.Base.Int.{ℤ, pos}
use dohost.Service.{Action, ◌>>=◌, ◌>>◌, pure, lift, modify, transaction}
use dohost.Errors.{Result, ok, err}
use dohost.Permissions.{products_write}
use dohost.Rbac.{require_permission}
use dohost.Store.{RowId, Tables}
use dohost.Data.{
  Db, Time, ProductPrice, Product, BillingCycle, one_time, monthly, quarterly, semi_annual, annual,
  biennial, triennial, custom, ActorType, AuditEntity, AuditAction, Value, Fields,
}
use dohost.Actors.{StaffActor}
use dohost.Audit.{record_audit_log}

abbrev pub cycle_number : BillingCycle → ℕ
cycle_number one_time = 0
cycle_number monthly = 1
cycle_number quarterly = 2
cycle_number semi_annual = 3
cycle_number annual = 4
cycle_number biennial = 5
cycle_number triennial = 6
cycle_number custom = 7

abbrev pub cycle_eq : BillingCycle → BillingCycle → Bool
cycle_eq a b = cycle_number a == cycle_number b

abbrev pub same_group : Option RowId → Option RowId → Bool
same_group none none = true
same_group (some a) (some b) = a == b
same_group _ _ = false

-- What a price is for: the columns that `setProductPrice` and `getCurrentPrice` select by.
pub record Offer : Type 0 where
  pub tenant_id : RowId
  pub product_id : RowId
  pub currency : Text
  pub billing_cycle : BillingCycle
  pub client_group_id : Option RowId

unfoldable pub is_for : Offer → ProductPrice → Bool
is_for o p =
    (p.tenant_id == o.tenant_id)
    && ((p.product_id == o.product_id)
        && (text_eq p.currency o.currency
            && (cycle_eq p.billing_cycle o.billing_cycle
                && same_group p.client_group_id o.client_group_id)))

-- `effectiveTo: null`
abbrev pub is_open : ProductPrice → Bool
is_open p = elim p.effective_to [ none ↦ true | some _ ↦ false ]

-- `OR: [{ effectiveTo: null }, { effectiveTo: { gt: now } }]`
abbrev pub ends_after : Time → Option Time → Bool
ends_after now none = true
ends_after now (some end) = ltb now end

-- The price is in effect at `now`.
unfoldable pub is_effective : Time → ProductPrice → Bool
is_effective now p = leb p.effective_from now && ends_after now p.effective_to

pub record PriceInput : Type 0 where
  pub product_id : RowId
  pub currency : Text
  pub billing_cycle : BillingCycle
  pub price : ℤ
  pub setup_fee : Option ℤ
  pub client_group_id : Option RowId
  pub is_promotional : Option Bool
  pub effective_from : Option Time

abbrev pub or_else {ℓ} : {A : Type ℓ} → Option A → A → A
or_else none d = d
or_else (some a) d = a

abbrev pub offer_of : StaffActor → PriceInput → Offer
offer_of actor input = record {
  tenant_id = actor.tenant_id;
  product_id = input.product_id;
  currency = input.currency;
  billing_cycle = input.billing_cycle;
  client_group_id = input.client_group_id;
}

-- The row that `setProductPrice` creates.
abbrev pub new_price : StaffActor → PriceInput → Time → ProductPrice
new_price actor input effective_from = record {
  tenant_id = actor.tenant_id;
  product_id = input.product_id;
  client_group_id = input.client_group_id;
  currency = input.currency;
  billing_cycle = input.billing_cycle;
  setup_fee = or_else input.setup_fee (pos 0);
  price = input.price;
  is_promotional = or_else input.is_promotional false;
  effective_from = effective_from;
  effective_to = none;
}

-- `metadata: previous ? { closedPreviousPriceId: previous.id } : undefined`
abbrev pub closed_metadata : Option (RowId × ProductPrice) → Option Fields
closed_metadata none = none
closed_metadata (some (i, p)) = some ((codes "closedPreviousPriceId", Value.id i) ∷ [])

abbrev optional {ℓ} : {A : Type ℓ} → (A → Value) → Option A → Value
optional f none = Value.missing
optional f (some a) = f a

-- `{ ...input, effectiveFrom }`
abbrev pub price_fields : PriceInput → Time → Fields
price_fields input effective_from =
    (codes "productId", Value.id input.product_id)
    ∷ (codes "currency", Value.text input.currency)
    ∷ (codes "billingCycle", Value.cycle input.billing_cycle)
    ∷ (codes "price", Value.number input.price)
    ∷ (codes "setupFee", optional Value.number input.setup_fee)
    ∷ (codes "clientGroupId", optional Value.id input.client_group_id)
    ∷ (codes "isPromotional", optional Value.flag input.is_promotional)
    ∷ (codes "effectiveFrom", Value.time effective_from)
    ∷ []

-- `if (clientGroupId) { if (groupPrice) return groupPrice } return` the price of no group
unfoldable pub prefer_group :
    Option RowId
    → Option (RowId × ProductPrice)
    → Option (RowId × ProductPrice)
    → Option (RowId × ProductPrice)
prefer_group none group_price general = general
prefer_group (some _) none general = general
prefer_group (some _) (some p) general = some p

module _ (T : Tables) where
  -- `if (previous) update effectiveTo`
  unfoldable pub close_price :
      Option (RowId × ProductPrice) → Time → T.Table ProductPrice → T.Table ProductPrice
  close_price none effective_from prices = prices
  close_price (some (i, p)) effective_from prices =
      T.write prices i (record p { effective_to = some effective_from })

  -- `setProductPrice`: closes the open price of the same offer and adds the new one.
  unfoldable pub set_product_price :
      Time → StaffActor → PriceInput → Action (Db T) (RowId × ProductPrice)
  set_product_price now actor input = do
    lift (require_permission actor.permissions products_write)
    let effective_from = or_else input.effective_from now
    transaction do
      previous ← (λ db.
          pure
            (T.find_latest db.product_prices (λ p. is_for (offer_of actor input) p && is_open p)
              (λ p. p.effective_from))
            db)
      modify (λ db. record db {
        product_prices = close_price previous effective_from db.product_prices;
      })
      let row = new_price actor input effective_from
      created ← (λ db. pure (T.create db.product_prices row).0 db)
      modify (λ db. record db { product_prices = (T.create db.product_prices row).1 })
      record_audit_log T (record {
        tenant_id = actor.tenant_id;
        actor_type = ActorType.staff;
        actor_id = some actor.id;
        actor_label = some actor.label;
        action = AuditAction.product_price_created;
        entity_type = AuditEntity.product_price;
        entity_id = created;
        ip = none;
        before_state = none;
        after_state = some (price_fields input effective_from);
        reason = none;
        metadata = closed_metadata previous;
      })
      pure (created, row)

  -- `findFirst({ where: { ...where, clientGroupId }, orderBy: { effectiveFrom: "desc" } })`
  unfoldable pub price_for : Time → Offer → T.Table ProductPrice → Option (RowId × ProductPrice)
  price_for now offer prices =
      T.find_latest prices (λ p. is_for offer p && is_effective now p) (λ p. p.effective_from)

  -- `getCurrentPrice`
  unfoldable pub get_current_price :
      Time → Offer → T.Table ProductPrice → Option (RowId × ProductPrice)
  get_current_price now offer prices =
      prefer_group offer.client_group_id (price_for now offer prices)
        (price_for now (record offer { client_group_id = none }) prices)
