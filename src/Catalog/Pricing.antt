-- ===== src/Catalog/Pricing.antt =====
-- Which price `getCurrentPrice` returns.
use dohost.Base.{
  ◌<◌, ◌==◌, ==_iff, ap, text_eq, text_eq_iff, leb, ltb→lt, arith, ◌≤◌, ◌≡◌, refl, Bool, true,
  false, Option, none, some, ◌⊎◌, inl, inr, ◌&&◌, Option-cases, sym, ◌∙◌,
}
use dohost.Store.{RowId, Tables, IsLawful}
use dohost.Data.{Time, ProductPrice, BillingCycle}
use dohost.Catalog.{
  Offer, cycle_eq, same_group, ends_after, is_for, is_effective, price_for, prefer_group,
  get_current_price,
}

pub &&-true : (a b : Bool) → (a && b) ≡ true → (a ≡ true) × (b ≡ true)
&&-true true b h = (refl, h)
&&-true false b h = cc

abbrev pub general : Offer → Offer
general o = record o { client_group_id = none }

prefer_group-cases :
    (g : Option RowId) (a b : Option (RowId × ProductPrice)) {x : RowId × ProductPrice}
    → prefer_group g a b ≡ some x
    → (a ≡ some x) ⊎ (b ≡ some x)
unfolding prefer_group
prefer_group-cases none a b h = inr h
prefer_group-cases (some g) none b h = inr h
prefer_group-cases (some g) (some p) b h = inl h

prefer_group-some :
    (g : Option RowId) (group : RowId) (a b : Option (RowId × ProductPrice))
    (x : RowId × ProductPrice)
    → g ≡ some group
    → a ≡ some x
    → prefer_group g a b ≡ some x
unfolding prefer_group
prefer_group-some g group a b x eg ea = rw (eg, ea)

fits-both :
    (o : Offer) (now : Time) (p : ProductPrice)
    → is_for o p ≡ true
    → is_effective now p ≡ true
    → (is_for o p && is_effective now p) ≡ true
fits-both o now p f e = rw (f, e)

price_for_lem :
    (T : Tables) (now : Time) (o : Offer) (prices : T.Table ProductPrice)
    → T.find_latest prices (λ p. is_for o p && is_effective now p) (λ p. p.effective_from)
      ≡ price_for T now o prices
unfolding price_for
price_for_lem T now o prices = refl

-- The price has what was asked for.
abbrev pub IsOffered : Offer → ProductPrice → Type 0
IsOffered o p =
    (p.tenant_id ≡ o.tenant_id)
    × (p.product_id ≡ o.product_id)
    × (p.currency ≡ o.currency)
    × (p.billing_cycle ≡ o.billing_cycle)

-- The price has started and not ended.
abbrev pub IsStarted : Time → ProductPrice → Type 0
IsStarted now p =
    (p.effective_from ≤ now)
    × ((p.effective_to ≡ none) ⊎ ((end : Time) × (p.effective_to ≡ some end) × (now < end)))

cycle_number-injective : (a b : BillingCycle) → cycle_eq a b ≡ true → a ≡ b
cycle_number-injective a b h = ground (arith, h)

same_group-eq : (a b : Option RowId) → same_group a b ≡ true → a ≡ b
same_group-eq none none h = refl
same_group-eq (some a) (some b) h = ap some ((==_iff a b).0 h)
same_group-eq none (some b) h = cc h
same_group-eq (some a) none h = cc h

is_for-IsOffered :
    (o : Offer) (p : ProductPrice)
    → is_for o p ≡ true
    → IsOffered o p × (p.client_group_id ≡ o.client_group_id)
unfolding is_for
is_for-IsOffered o p h =
    let (tenant, h1) = &&-true (p.tenant_id == o.tenant_id) _ h in
    let (product, h2) = &&-true (p.product_id == o.product_id) _ h1 in
    let (currency, h3) = &&-true (text_eq p.currency o.currency) _ h2 in
    let (cycle, group) = &&-true (cycle_eq p.billing_cycle o.billing_cycle) _ h3 in
    (
      (
        (==_iff p.tenant_id o.tenant_id).0 tenant,
        (==_iff p.product_id o.product_id).0 product,
        (text_eq_iff p.currency o.currency).0 currency,
        cycle_number-injective p.billing_cycle o.billing_cycle cycle,
      ),
      same_group-eq p.client_group_id o.client_group_id group,
    )

is_effective-IsStarted :
    (now : Time) (p : ProductPrice) → is_effective now p ≡ true → IsStarted now p
unfolding is_effective
is_effective-IsStarted now p h =
    let (begun, ends) = &&-true (leb p.effective_from now) (ends_after now p.effective_to) h in
    (
      ground (arith, begun),
      elim (Option-cases p.effective_to) [
        | inl open_end ↦ inl open_end
        | inr (end, is_end) ↦ inr (end, is_end, ltb→lt now end (rw is_end at ends))
      ],
    )

module _ (T : Tables) (laws : IsLawful T) where
  open laws use {find_latest-some, find_latest-none, find_latest-greatest}

  price_for-some :
      (now : Time) (o : Offer) (prices : T.Table ProductPrice) (i : RowId) (p : ProductPrice)
      → price_for T now o prices ≡ some (i, p)
      → (T.find prices i ≡ some p) × (is_effective now p ≡ true) × (is_for o p ≡ true)
  price_for-some now o prices i p h =
      let h' = price_for_lem T now o prices ∙ h in
      let (found, fits) = find_latest-some prices _ _ i p h' in
      let (for, effective) = &&-true (is_for o p) (is_effective now p) fits in
      (found, effective, for)

  get_current_price_lem :
      (now : Time) (o : Offer) (prices : T.Table ProductPrice)
      → get_current_price T now o prices
        ≡ prefer_group o.client_group_id
            (price_for T now o prices)
            (price_for T now (general o) prices)
  unfolding get_current_price
  get_current_price_lem now o prices = refl

  -- The price that `getCurrentPrice` returns is a row of the table; it has the tenant, the product, the
  -- currency and the cycle that were asked for; it started at the time or before and has no end, or a
  -- later one; and it is for the client's group or for no group.
  pub get_current_price-is_current :
      (now : Time) (o : Offer) (prices : T.Table ProductPrice) (i : RowId) (p : ProductPrice)
      → get_current_price T now o prices ≡ some (i, p)
      → (T.find prices i ≡ some p)
        × IsOffered o p
        × IsStarted now p
        × ((p.client_group_id ≡ o.client_group_id) ⊎ (p.client_group_id ≡ none))
  get_current_price-is_current now o prices i p h =
      elim (prefer_group-cases o.client_group_id (price_for T now o prices)
        (price_for T now (general o) prices) (sym (get_current_price_lem now o prices) ∙ h)) [
          | inl e ↦
              let (found, effective, for) = price_for-some now o prices i p e in
              let (offered, group) = is_for-IsOffered o p for in
              (found, offered, is_effective-IsStarted now p effective, inl group)
          | inr e ↦
              let (found, effective, for) = price_for-some now (general o) prices i p e in
              let (offered, group) = is_for-IsOffered (general o) p for in
              (found, offered, is_effective-IsStarted now p effective, inr group)
        ]

  -- A price of the client's group that is in effect is preferred: then the price returned is for that
  -- group, and no price of the group in effect has started later.
  pub get_current_price-prefers_group :
      (now : Time) (o : Offer) (prices : T.Table ProductPrice) (j group : RowId) (q : ProductPrice)
      → o.client_group_id ≡ some group
      → T.find prices j ≡ some q
      → is_for o q ≡ true
      → is_effective now q ≡ true
      → (i : RowId) × (p : ProductPrice) × (get_current_price T now o prices ≡ some (i, p))
        × (is_for o p ≡ true)
        × (q.effective_from ≤ p.effective_from)
  get_current_price-prefers_group now o prices j group q g found for effective =
      let fits = fits-both o now q for effective in
      elim (Option-cases (price_for T now o prices)) [
        | inl e ↦
            cc (find_latest-none prices _ _ j q (price_for_lem T now o prices ∙ e) found, fits)
        | inr ((i, p), e) ↦ (
          i,
          p,
          get_current_price_lem now o prices
              ∙ prefer_group-some o.client_group_id group _ _ (i, p) g e,
          (price_for-some now o prices i p e).2,
          find_latest-greatest prices _ _ i j p q (price_for_lem T now o prices ∙ e) found fits,
        )
      ]
