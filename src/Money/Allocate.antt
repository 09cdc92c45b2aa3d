-- ===== src/Money/Allocate.antt =====
-- `allocate` of packages/shared/src/money/index.ts: splitting an amount by integer ratios.
pub mod Spread
pub mod Shares
pub mod Conservation
use dohost.Base.{
  ℕ, zero, suc, ◌+◌, ◌-◌, ◌*◌, ◌/◌, ◌%◌, Bool, true, false, not, List, [], ◌∷◌, map, any, length,
  ◌==◌, if◌then◌else◌, Text,
}
use dohost.Base.Int.{ℤ, pos, negsuc, ◌*ℤ◌, ltb_ℤ, abs}
use dohost.Errors.{
  Result, ok, err, ◌>>=◌, ◌>>◌, guard, money_error, no_ratios, invalid_ratio, zero_ratios,
}
use dohost.Money.{Money, Number, int, fraction, money}

abbrev pub is_empty {ℓ} : {A : Type ℓ} → List A → Bool
is_empty [] = true
is_empty (_ ∷ _) = false

-- `!Number.isInteger(r) || r < 0`
abbrev pub is_invalid_ratio : Number → Bool
is_invalid_ratio (int (pos n)) = false
is_invalid_ratio _ = true

-- The value of a ratio that has passed the test.
abbrev pub ratio_value : Number → ℕ
ratio_value (int (pos n)) = n
ratio_value _ = 0

-- `ratios.reduce((s, r) => s + r, s)`
unfoldable pub ratio_total : ℕ → List ℕ → ℕ
ratio_total s [] = s
ratio_total s (r ∷ ratios) = ratio_total (s + r) ratios

-- The first loop: the shares rounded down, and `allocated`.
unfoldable pub allot : (total_abs ratio_sum allocated : ℕ) → List ℕ → List ℕ × ℕ
allot total_abs ratio_sum allocated [] = ([], allocated)
allot total_abs ratio_sum allocated (ratio ∷ ratios) =
    let share = total_abs * ratio / ratio_sum in
    let (shares, done) = allot total_abs ratio_sum (allocated + share) ratios in
    (share ∷ shares, done)

-- `shares[i] = (shares[i] ?? 0) + 1`, at an index of the array.
unfoldable pub increment : ℕ → List ℕ → List ℕ
increment i [] = []
increment zero (s ∷ shares) = suc s ∷ shares
increment (suc i) (s ∷ shares) = s ∷ increment i shares

-- The second loop. It does not run when the remainder is 0 or less.
unfoldable pub spread : (remainder i : ℕ) → List ℕ → List ℕ
unfolding increment
spread zero i shares = shares
spread (suc remainder) i shares = spread remainder ((i + 1) % length shares) (increment i shares)

abbrev pub sign_of : ℤ → ℤ
sign_of n = if ltb_ℤ n (pos 0) then negsuc 0 else pos 1

-- `shares.map((s) => money(s * sign, total.currency))`
unfoldable pub with_sign : ℤ → Text → List ℕ → Result (List Money)
unfolding money
with_sign sign currency [] = ok []
with_sign sign currency (s ∷ shares) = do
  m ← money (int (pos s *ℤ sign)) currency
  ms ← with_sign sign currency shares
  ok (m ∷ ms)

unfoldable pub allocate : Money → List Number → Result (List Money)
unfolding ratio_total allot spread with_sign
allocate total ratios = do
  guard (not (is_empty ratios)) (money_error no_ratios)
  guard (not (any is_invalid_ratio ratios)) (money_error invalid_ratio)
  let values = map ratio_value ratios
  let ratio_sum = ratio_total 0 values
  guard (not (ratio_sum == 0)) (money_error zero_ratios)
  let total_abs = abs total.amount
  let (shares, allocated) = allot total_abs ratio_sum 0 values
  with_sign (sign_of total.amount) total.currency (spread (total_abs - allocated) 0 shares)
