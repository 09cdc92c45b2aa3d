-- ===== src/Money/Rounding.antt =====
-- `percentageBps`: the rounding to the nearest minor unit.
use dohost.Base.{ℕ, ◌+◌, ◌*◌, ◌≤◌, ◌<◌, ◌≡◌, arith}
use dohost.Base.Int.{
  ℤ, pos, negsuc, ◌+ℤ◌, ◌*ℤ◌, ◌≤ℤ◌, ◌<ℤ◌, pos_part, neg_part, floor_div, +ℤ_parts, *ℤ_parts,
}
use dohost.Errors.{ok}
use dohost.Money.{Money, int, percentage_bps}
use dohost.Money.Laws.{IsMoney, of_parts, money_of-IsMoney_value}

-- Parts of `floor_div`: floor(x / 10000) is the integer q with 10000 q ≤ x < 10000 q + 10000.
floor_div_parts :
    (x : ℤ)
    → (10_000 * pos_part (floor_div x 10_000) + neg_part x
        ≤ pos_part x + 10_000 * neg_part (floor_div x 10_000))
      × (pos_part x + 10_000 * neg_part (floor_div x 10_000)
          < 10_000 * pos_part (floor_div x 10_000) + neg_part x + 10_000)
floor_div_parts (pos n) = omega arith
floor_div_parts (negsuc n) = omega arith

-- A percentage in whole basis points is the amount times the rate over 10000, rounded to the
-- nearest minor unit with a tie going up: with r the result and x the product,
-- 10000 r ≤ x + 5000 < 10000 r + 10000.
pub percentage_bps_nearest :
    (a : Money) (n : ℕ)
    → IsMoney a
    → (r : ℤ) × (percentage_bps a (int (pos n)) ≡ ok (of_parts r a.currency))
      × (pos 10_000 *ℤ r ≤ℤ a.amount *ℤ pos n +ℤ pos 5000)
      × (a.amount *ℤ pos n +ℤ pos 5000 <ℤ pos 10_000 *ℤ r +ℤ pos 10_000)
unfolding percentage_bps
percentage_bps_nearest a n v =
    let x = a.amount *ℤ pos n +ℤ pos 5000 in
    let r = floor_div x 10_000 in
    (
      r,
      money_of-IsMoney_value r a v,
      omega (arith, floor_div_parts x, *ℤ_parts (pos 10_000) r),
      omega (
        arith,
        floor_div_parts x,
        *ℤ_parts (pos 10_000) r,
        +ℤ_parts (pos 10_000 *ℤ r) (pos 10_000),
      ),
    )
