-- ===== src/Catalog/Versions.antt =====
-- `setProductPrice`: the new price, and what becomes of the old ones.
use dohost.Base.{
  ◌≡◌, refl, true, false, Option, none, some, ◌⊎◌, inl, inr, ◌&&◌, ◌==◌, ==_refl, ==_iff, arith,
  Bool-cases, sym, ◌∙◌, ap,
}
use mathlib.Core.Option.{some-injective}
use dohost.Errors.{ok, Result-cases}
use dohost.Audit.{record_audit_log}
use dohost.Rbac.{require_permission}
use dohost.Permissions.{products_write}
use dohost.Store.{RowId, Tables, IsLawful}
use dohost.Data.{Db, Time, ProductPrice}
use dohost.Actors.{StaffActor}
use dohost.Catalog.{
  Offer, PriceInput, is_for, is_open, set_product_price, close_price, offer_of, new_price, or_else,
}
use dohost.Catalog.Pricing.{&&-true}

-- What a price row may become: itself, or the same row with an end, if it was open and for this
-- offer.
abbrev pub Kept : Offer → Time → ProductPrice → ProductPrice → Type 0
Kept o effective_from p q =
    (q ≡ p)
    ⊎ ((q ≡ record p { effective_to = some effective_from })
        × (is_open p ≡ true)
        × (is_for o p ≡ true))

-- At most one row of an offer is open.
abbrev pub IsSingleOpen : (T : Tables) → Offer → T.Table ProductPrice → Type 0
IsSingleOpen T o prices =
    (i j : RowId) (p q : ProductPrice)
    → T.find prices i ≡ some p
    → T.find prices j ≡ some q
    → is_for o p ≡ true
    → is_for o q ≡ true
    → is_open p ≡ true
    → is_open q ≡ true
    → i ≡ j

-- The prices once the open one of the same offer is closed.
abbrev pub closed_prices :
    (T : Tables) → Time → StaffActor → PriceInput → Db T → T.Table ProductPrice
closed_prices T now actor input db =
    close_price T
      (T.find_latest db.product_prices (λ p. is_for (offer_of actor input) p && is_open p)
        (λ p. p.effective_from))
      (or_else input.effective_from now) db.product_prices

prices_after :
    (T : Tables) (now : Time) (actor : StaffActor) (input : PriceInput) (db : Db T)
    → let after = (set_product_price T now actor input db).1.product_prices in
      (after ≡ db.product_prices)
      ⊎ (after
          ≡ (T.create
              (closed_prices T now actor input db)
              (new_price actor input (or_else input.effective_from now))).1)
unfolding set_product_price record_audit_log
prices_after T now actor input db =
    elim (Result-cases (require_permission actor.permissions products_write)) [
      | inl (u, e) ↦ inr (rw e)
      | inr (x, e) ↦ inl (rw e)
    ]

module _ (T : Tables) (laws : IsLawful T) where
  open laws use {find-write, create_fresh, find-create, find_latest-some, find_latest-none}

  close_price-Kept :
      (o : Offer) (ef : Time) (prices : T.Table ProductPrice)
      (previous : Option (RowId × ProductPrice))
      → T.find_latest prices (λ p. is_for o p && is_open p) (λ p. p.effective_from) ≡ previous
      → (j : RowId) (p : ProductPrice) → T.find prices j ≡ some p
      → (q : ProductPrice) × (T.find (close_price T previous ef prices) j ≡ some q) × Kept o ef p q
  unfolding close_price
  close_price-Kept o ef prices none e j p found = (p, found, inl refl)
  close_price-Kept o ef prices (some (i, old)) e j p found =
      let row = record old { effective_to = some ef } in
      let (old_found, fits) = find_latest-some prices _ _ i old e in
      let (for, open_ended) = &&-true (is_for o old) (is_open old) fits in
      let written = find-write prices i j row old old_found in
      elim (Bool-cases (j == i)) [
        | inl same ↦
            let is_old : p ≡ old = ground (arith, ap (T.find prices) ((==_iff j i).0 same)) in
            (row, written ∙ rw same, inr (rw (← is_old), rw is_old open_ended, rw is_old for))
        | inr other ↦ (p, written ∙ rw other found, inl refl)
      ]

  old_row_stays :
      (t : T.Table ProductPrice) (row : ProductPrice) (j : RowId) (q : ProductPrice)
      → T.find t j ≡ some q
      → T.find (T.create t row).1 j ≡ some q
  old_row_stays t row j q found = elim (Bool-cases (j == (T.create t row).0)) [
    | inl same ↦
        cc (create_fresh t row, found, ap (T.find t) ((==_iff j (T.create t row).0).0 same))
    | inr other ↦ find-create t row j ∙ rw other found
  ]

  -- A price row that is there before a call of `setProductPrice` is there after it, also after one
  -- that throws, with the same values: only an open row of the same offer may be given an end, which
  -- is the time from which the new price applies.
  pub set_product_price-Kept :
      (now : Time) (actor : StaffActor) (input : PriceInput) (db : Db T) (j : RowId)
      (p : ProductPrice)
      → T.find db.product_prices j ≡ some p
      → (q : ProductPrice) × (T.find (set_product_price T now actor input db).1.product_prices j
          ≡ some q)
        × Kept (offer_of actor input) (or_else input.effective_from now) p q
  set_product_price-Kept now actor input db j p found =
      let ef = or_else input.effective_from now in
      let o = offer_of actor input in
      let (q, kept, how) = close_price-Kept o ef db.product_prices _ refl j p found in
      elim (prices_after T now actor input db) [
        | inl same ↦ (p, rw same found, inl refl)
        | inr made ↦ (q, rw made (old_row_stays _ _ j q kept), how)
      ]

  -- With the permission the call returns a new row with the values of the input, open, which is in
  -- the table afterwards.
  pub set_product_price-created :
      (now : Time) (actor : StaffActor) (input : PriceInput) (db : Db T)
      → require_permission actor.permissions products_write ≡ ok tt
      → let row = new_price actor input (or_else input.effective_from now) in
        let (result, after) = set_product_price T now actor input db in
        (i : RowId) × (result ≡ ok (i, row)) × (T.find after.product_prices i ≡ some row)
  unfolding set_product_price record_audit_log
  set_product_price-created now actor input db allowed =
      let row = new_price actor input (or_else input.effective_from now) in
      let prices = closed_prices T now actor input db in
      let i = (T.create prices row).0 in
      (i, rw allowed, rw allowed (find-create prices row i ∙ rw (==_refl i)))

  closed_prices-closed :
      (now : Time) (actor : StaffActor) (input : PriceInput) (db : Db T)
      → let o = offer_of actor input in
        IsSingleOpen T o db.product_prices
        → (previous : Option (RowId × ProductPrice))
        → T.find_latest db.product_prices (λ p. is_for o p && is_open p) (λ p. p.effective_from)
          ≡ previous
        → (j : RowId) (q : ProductPrice)
        → T.find (close_price T previous (or_else input.effective_from now) db.product_prices) j
          ≡ some q
        → is_for o q ≡ true
        → is_open q ≡ false
  unfolding close_price
  closed_prices-closed now actor input db single none e j q found for =
      let o = offer_of actor input in
      let unfit = find_latest-none db.product_prices _ _ j q e found in ground (arith, unfit)
  closed_prices-closed now actor input db single (some (i, old)) e j q found for =
      let o = offer_of actor input in
      let row = record old { effective_to = some (or_else input.effective_from now) } in
      let (old_found, fits) = find_latest-some db.product_prices _ _ i old e in
      let (old_for, old_open) = &&-true (is_for o old) (is_open old) fits in
      let written = find-write db.product_prices i j row old old_found in
      elim (Bool-cases (j == i)) [
        | inl same ↦
            let now_row : T.find (T.write db.product_prices i row) j ≡ some row =
              written ∙ rw same in
            rw (← some-injective _ _ (sym now_row ∙ found))
        | inr other ↦
            let before : T.find db.product_prices j ≡ some q = sym (written ∙ rw other) ∙ found in
            elim (Bool-cases (is_open q)) [
              | inl open_ended ↦
                  let one = single j i q old before old_found for old_for open_ended old_open in
                  cc (other, (==_iff j i).1 one)
              | inr ended ↦ ended
            ]
      ]

  only_new_open :
      (o : Offer) (t : T.Table ProductPrice) (row : ProductPrice)
      → ((j : RowId) (q : ProductPrice)
          → T.find t j ≡ some q
          → is_for o q ≡ true
          → is_open q ≡ false)
      → (j : RowId) (q : ProductPrice) → T.find (T.create t row).1 j ≡ some q
      → is_for o q ≡ true
      → is_open q ≡ true
      → j ≡ (T.create t row).0
  only_new_open o t row closed j q found for open_ended =
      let new = (T.create t row).0 in
      elim (Bool-cases (j == new)) [
        | inl same ↦ (==_iff j new).0 same
        | inr other ↦
            let before : T.find t j ≡ some q = sym (find-create t row j ∙ rw other) ∙ found in
            cc (closed j q before for, open_ended)
      ]

  -- If at most one price of the offer is open, then at most one is after a call of `setProductPrice`
  -- for that offer, whether it returns or throws.
  pub set_product_price-IsSingleOpen :
      (now : Time) (actor : StaffActor) (input : PriceInput) (db : Db T)
      → IsSingleOpen T (offer_of actor input) db.product_prices
      → IsSingleOpen T
          (offer_of actor input)
          (set_product_price T now actor input db).1.product_prices
  set_product_price-IsSingleOpen now actor input db single i j p q fi fj pi pj oi oj =
      let o = offer_of actor input in
      elim (prices_after T now actor input db) [
        | inl same ↦ single i j p q (rw same at fi) (rw same at fj) pi pj oi oj
        | inr made ↦
            let closed = closed_prices-closed now actor input db single _ refl in
            let only = only_new_open o (closed_prices T now actor input db) _ closed in
            only i p (rw made at fi) pi oi ∙ sym (only j q (rw made at fj) pj oj)
      ]
