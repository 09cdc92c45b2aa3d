-- ===== src/Money/Order.antt =====
-- `compare`, `min` and `max`.
use dohost.Base.{◌≡◌, ◌⊎◌, true, false, arith, text_eq, text_eq_iff, if◌then◌else◌}
use dohost.Base.Int.{pos, negsuc, ◌≤ℤ◌, ◌<ℤ◌, ltb_ℤ}
use dohost.Errors.{ok, err, money_error, currency_mismatch}
use dohost.Money.{Money, compare, min, max}

-- `compare` decides the order of two amounts in one currency, and throws for two currencies.
pub compare_lem :
    (a b : Money)
    → ((compare a b ≡ ok (negsuc 0)) × (a.amount <ℤ b.amount))
      ⊎ (((compare a b ≡ ok (pos 0)) × (a ≡ b))
          ⊎ (((compare a b ≡ ok (pos 1)) × (b.amount <ℤ a.amount))
              ⊎ ((compare a b ≡ err (money_error currency_mismatch))
                  × (text_eq a.currency b.currency ≡ false))))
unfolding compare
compare_lem a b = ground (arith, text_eq_iff a.currency b.currency)

-- In one currency `min` and `max` both return, and return the two arguments between them, the
-- smaller one and the larger one.
pub min-max :
    (a b : Money)
    → text_eq a.currency b.currency ≡ true
    → (lo hi : Money) × (min a b ≡ ok lo)
      × (max a b ≡ ok hi)
      × (lo.amount ≤ℤ hi.amount)
      × (((lo ≡ a) × (hi ≡ b)) ⊎ ((lo ≡ b) × (hi ≡ a)))
unfolding min max compare
min-max a b same =
    let swapped = ltb_ℤ b.amount a.amount in
    let lo = if swapped then b else a in
    let hi = if swapped then a else b in
    let ties = text_eq_iff a.currency b.currency in
    (lo, hi, ground arith, ground arith, ground arith, ground (arith, ties))
