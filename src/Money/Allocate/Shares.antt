-- ===== src/Money/Allocate/Shares.antt =====
-- The first loop of `allocate`: the shares rounded down, and the remainder.
use dohost.Base.{ℕ, ◌+◌, ◌*◌, ◌≤◌, ◌<◌, List, [], ◌∷◌, map, length, sum_ℕ, arith}
use native.Mathlib.Nat.{lt_of_mul-lt-mul_left}
use dohost.Money.Allocate.Spread.{share}

pub share_bounds : (t s r : ℕ) → 0 < s → (s * share t s r ≤ t * r) × (t * r < s * share t s r + s)
share_bounds t s r h = (grind arith, grind arith)

sum_shares_bounds :
    (t s : ℕ) (rs : List ℕ)
    → 0 < s
    → let given = sum_ℕ (map (share t s) rs) in
      (s * given ≤ t * sum_ℕ rs) × (t * sum_ℕ rs + length rs ≤ s * given + s * length rs)
sum_shares_bounds t s [] h = omega arith
sum_shares_bounds t s (r ∷ rs) h = omega (arith, share_bounds t s r h, sum_shares_bounds t s rs h)

length_pos : (rs : List ℕ) → 0 < sum_ℕ rs → 0 < length rs
length_pos [] h = absurd (omega arith)
length_pos (r ∷ rs) h = omega arith

cancel :
    (s a t n : ℕ)
    → 0 < s
    → 0 < n
    → s * a ≤ t * s
    → t * s + n ≤ s * a + s * n
    → (a ≤ t) × (t < a + n)
cancel s a t n hs hn below above = (grind arith, lt_of_mul-lt-mul_left s (omega arith))

-- For ratios whose total is not 0, what the shares leave over is less than their number.
pub remainder-lt-length :
    (t : ℕ) (rs : List ℕ)
    → 0 < sum_ℕ rs
    → let given = sum_ℕ (map (share t (sum_ℕ rs)) rs) in (given ≤ t) × (t < given + length rs)
remainder-lt-length t rs h =
    let s = sum_ℕ rs in
    let (below, above) = sum_shares_bounds t s rs h in
    cancel s (sum_ℕ (map (share t s) rs)) t (length rs) h (length_pos rs h) below above
