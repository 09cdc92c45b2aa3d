-- ===== src/Money/Tests.antt =====
-- The money theorems at work on amounts in dollars.
use dohost.Base.{ℕ, ◌≡◌, refl, List, [], ◌∷◌, length, map, All, arith}
use dohost.Base.Int.{ℤ, pos, negsuc, ◌+ℤ◌, ◌*ℤ◌, ◌≤ℤ◌, ◌<ℤ◌}
use dohost.Errors.{ok}
use dohost.Money.{Money, int, percentage_bps}
use dohost.Money.Currency.{to_upper_case, is_currency_code}
use dohost.Money.Laws.{IsMoney, of_parts, amounts}
use dohost.Money.Rounding.{percentage_bps_nearest}
use dohost.Money.Allocate.{allocate}
use dohost.Money.Allocate.Conservation.{
  whole, allocate_conserves, IsNear, magnitudes, allocate_fair,
}
use dohost.Sample.{usd, dollars}

dollars-IsMoney : (n : ℤ) → IsMoney (dollars n)
unfolding is_currency_code to_upper_case
dollars-IsMoney n = record { coded = refl; upper = refl }

-- One dollar over 1 : 1 : 1.
abbrev thirds : List ℕ
thirds = 1 ∷ 1 ∷ 1 ∷ []

allocate_conserves_example :
    (shares : List Money) × (allocate (dollars (negsuc 99)) (map whole thirds) ≡ ok shares)
    × (length shares ≡ length thirds)
    × (amounts shares ≡ negsuc 99)
    × All (λ m. m.currency ≡ usd) shares
allocate_conserves_example =
    allocate_conserves (dollars (negsuc 99)) thirds (dollars-IsMoney (negsuc 99)) (omega arith)

allocate_fair_example :
    (shares : List Money) × (allocate (dollars (pos 100)) (map whole thirds) ≡ ok shares)
    × IsNear 100 3 thirds (magnitudes shares)
allocate_fair_example =
    allocate_fair (dollars (pos 100)) thirds (dollars-IsMoney (pos 100)) (omega arith)

percentage_bps_nearest_example :
    (r : ℤ) × (percentage_bps (dollars (pos 999)) (int (pos 1850)) ≡ ok (of_parts r usd))
    × (pos 10_000 *ℤ r ≤ℤ pos 999 *ℤ pos 1850 +ℤ pos 5000)
    × (pos 999 *ℤ pos 1850 +ℤ pos 5000 <ℤ pos 10_000 *ℤ r +ℤ pos 10_000)
percentage_bps_nearest_example =
    percentage_bps_nearest (dollars (pos 999)) 1850 (dollars-IsMoney (pos 999))
