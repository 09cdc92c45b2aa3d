-- ===== src/Money/Allocate/Conservation.antt =====
-- What `allocate` returns, as a whole.
use dohost.Base.{
  ℕ, zero, suc, ◌+◌, ◌-◌, ◌*◌, ◌≤◌, ◌<◌, ◌≡◌, refl, false, List, [], ◌∷◌, map, any, length, arith,
  sum_ℕ, Text, ◌∙◌, ap, length-map, All, ◌==◌,
}
use dohost.Base.Int.{ℤ, pos, negsuc, ◌*ℤ◌, ◌-ℤ◌, abs, pos_*ℤ_one, pos_*ℤ_minus_one, int_laws}
use dohost.Errors.{ok}
use dohost.Money.{Money, Number, int}
use dohost.Money.Laws.{IsMoney, of_parts, money_of-IsMoney_value, amounts}
use dohost.Money.Allocate.{allocate, with_sign, sign_of, is_invalid_ratio, ratio_value, is_empty}
use dohost.Money.Allocate.Spread.{
  share, raise_first, allot_lem, spread_lem, sum-raise_first, length-raise_first,
  ratio_total-eq-sum,
}
use dohost.Money.Allocate.Shares.{remainder-lt-length, share_bounds}

-- A ratio that is a whole number, not negative.
abbrev pub whole : ℕ → Number
whole n = int (pos n)

any-whole : (rs : List ℕ) → any is_invalid_ratio (map whole rs) ≡ false
any-whole [] = refl
any-whole (r ∷ rs) = any-whole rs

values-whole : (rs : List ℕ) → map ratio_value (map whole rs) ≡ rs
values-whole [] = refl
values-whole (r ∷ rs) = ap (λ t. r ∷ t) (values-whole rs)

abbrev pub signed_money : ℤ → Text → List ℕ → List Money
signed_money sign c [] = []
signed_money sign c (x ∷ xs) = of_parts (pos x *ℤ sign) c ∷ signed_money sign c xs

module _ (total : Money) (v : IsMoney total) where
  with_sign_lem :
      (sign : ℤ) (xs : List ℕ)
      → with_sign sign total.currency xs ≡ ok (signed_money sign total.currency xs)
  unfolding with_sign
  with_sign_lem sign [] = refl
  with_sign_lem sign (x ∷ xs) =
      ground (arith, money_of-IsMoney_value (pos x *ℤ sign) total v, with_sign_lem sign xs)

-- The shares of `allocate`, in closed form: each rounded down, and the earliest ones raised by one
-- until nothing is left over.
abbrev pub exact_shares : ℕ → List ℕ → List ℕ
exact_shares t rs =
    let floors = map (share t (sum_ℕ rs)) rs in raise_first (t - sum_ℕ floors) floors

is_empty-whole : (rs : List ℕ) → 0 < sum_ℕ rs → is_empty (map whole rs) ≡ false
is_empty-whole [] h = absurd (omega arith)
is_empty-whole (r ∷ rs) h = refl

pub allocate_value :
    (total : Money) (rs : List ℕ)
    → IsMoney total
    → 0 < sum_ℕ rs
    → allocate total (map whole rs)
      ≡ ok (signed_money (sign_of total.amount) total.currency (exact_shares (abs total.amount) rs))
unfolding allocate
allocate_value total rs v h =
    let t = abs total.amount in
    let floors = map (share t (sum_ℕ rs)) rs in
    let (below, above) = remainder-lt-length t rs h in
    let fits : t - sum_ℕ floors ≤ length floors =
      omega (arith, length-map (share t (sum_ℕ rs)) rs) in
    let positive : (sum_ℕ rs == 0) ≡ false = ground arith in
    rw (is_empty-whole rs h, any-whole rs, values-whole rs, ratio_total-eq-sum rs, positive)
      (rw (allot_lem t (sum_ℕ rs) rs, spread_lem (t - sum_ℕ floors) floors fits)
        (with_sign_lem total v _ _))

amounts-positive : (c : Text) (xs : List ℕ) → amounts (signed_money (pos 1) c xs) ≡ pos (sum_ℕ xs)
amounts-positive c [] = refl
amounts-positive c (x ∷ xs) = rw (pos_*ℤ_one x, amounts-positive c xs) (omega int_laws)

amounts-negative :
    (c : Text) (xs : List ℕ) → amounts (signed_money (negsuc 0) c xs) ≡ pos 0 -ℤ pos (sum_ℕ xs)
amounts-negative c [] = omega int_laws
amounts-negative c (x ∷ xs) = rw (pos_*ℤ_minus_one x, amounts-negative c xs) (omega int_laws)

amounts-signed_money :
    (n : ℤ) (c : Text) (xs : List ℕ)
    → sum_ℕ xs ≡ abs n
    → amounts (signed_money (sign_of n) c xs) ≡ n
amounts-signed_money (pos n) c xs h = ground (arith, amounts-positive c xs)
amounts-signed_money (negsuc n) c xs h =
    let total : pos 0 -ℤ pos (sum_ℕ xs) ≡ negsuc n = omega int_laws in
    ground (arith, amounts-negative c xs, total)

length-signed_money :
    (sign : ℤ) (c : Text) (xs : List ℕ) → length (signed_money sign c xs) ≡ length xs
length-signed_money sign c [] = refl
length-signed_money sign c (x ∷ xs) = ap suc (length-signed_money sign c xs)

currency-signed_money :
    (sign : ℤ) (c : Text) (xs : List ℕ) → All (λ m. m.currency ≡ c) (signed_money sign c xs)
currency-signed_money sign c [] = tt
currency-signed_money sign c (x ∷ xs) = (refl, currency-signed_money sign c xs)

-- The closed form gives out the whole total.
sum-exact_shares : (t : ℕ) (rs : List ℕ) → 0 < sum_ℕ rs → sum_ℕ (exact_shares t rs) ≡ t
sum-exact_shares t rs h =
    let floors = map (share t (sum_ℕ rs)) rs in
    let (below, above) = remainder-lt-length t rs h in
    omega (
      arith,
      sum-raise_first (t - sum_ℕ floors) floors (omega (arith, length-map (share t (sum_ℕ rs)) rs)),
    )

-- For a well-formed total and ratios that are whole, not negative and not all 0, `allocate` returns
-- one share for each ratio, all in the total's currency, and the shares add up to the total.
pub allocate_conserves :
    (total : Money) (rs : List ℕ)
    → IsMoney total
    → 0 < sum_ℕ rs
    → (shares : List Money) × (allocate total (map whole rs) ≡ ok shares)
      × (length shares ≡ length rs)
      × (amounts shares ≡ total.amount)
      × All (λ m. m.currency ≡ total.currency) shares
allocate_conserves total rs v h =
    let t = abs total.amount in
    let xs = exact_shares t rs in
    let sign = sign_of total.amount in
    (
      signed_money sign total.currency xs,
      allocate_value total rs v h,
      length-signed_money sign total.currency xs
          ∙ length-raise_first _ (map (share t (sum_ℕ rs)) rs)
          ∙ length-map (share t (sum_ℕ rs)) rs,
      amounts-signed_money total.amount total.currency xs (sum-exact_shares t rs h),
      currency-signed_money sign total.currency xs,
    )

-- `allocate` returns only for a non-empty list of ratios that are whole, not negative and not all 0.
pub allocate-ok :
    (total : Money) (ratios : List Number) {shares : List Money}
    → allocate total ratios ≡ ok shares
    → (is_empty ratios ≡ false)
      × (any is_invalid_ratio ratios ≡ false)
      × (0 < sum_ℕ (map ratio_value ratios))
unfolding allocate
allocate-ok total ratios h =
    let total_is = ratio_total-eq-sum (map ratio_value ratios) in
    (ground arith, ground arith, ground (arith, total_is))

-- Share by share beside the ratios: with t the total and s the sum of the ratios, a share is the
-- exact t * r / s rounded down, or one more.
abbrev pub IsNear : ℕ → ℕ → List ℕ → List ℕ → Type 0
IsNear t s [] [] = Unit
IsNear t s (r ∷ rs) (x ∷ xs) = (t * r < s * x + s) × (s * x ≤ t * r + s) × IsNear t s rs xs
IsNear t s _ _ = ⊥

-- The amounts without their sign.
abbrev pub magnitudes : List Money → List ℕ
magnitudes = map (λ m. abs m.amount)

raise_first-IsNear :
    (t s n : ℕ) (rs : List ℕ) → 0 < s → IsNear t s rs (raise_first n (map (share t s) rs))
raise_first-IsNear t s zero [] h = tt
raise_first-IsNear t s (suc n) [] h = tt
raise_first-IsNear t s zero (r ∷ rs) h =
    let (below, above) = share_bounds t s r h in
    (above, omega arith, raise_first-IsNear t s zero rs h)
raise_first-IsNear t s (suc n) (r ∷ rs) h =
    let (below, above) = share_bounds t s r h in
    (omega arith, omega arith, raise_first-IsNear t s n rs h)

abs-sign_of : (n : ℤ) (x : ℕ) → abs (pos x *ℤ sign_of n) ≡ x
unfolding ◌*ℤ◌
abs-sign_of n x = ground arith

magnitudes-signed_money :
    (n : ℤ) (c : Text) (xs : List ℕ) → magnitudes (signed_money (sign_of n) c xs) ≡ xs
magnitudes-signed_money n c [] = refl
magnitudes-signed_money n c (x ∷ xs) =
    ground (arith, abs-sign_of n x, magnitudes-signed_money n c xs)

-- Under the same conditions every share is its exact proportion of the total, rounded down or one
-- unit more.
pub allocate_fair :
    (total : Money) (rs : List ℕ)
    → IsMoney total
    → 0 < sum_ℕ rs
    → (shares : List Money) × (allocate total (map whole rs) ≡ ok shares)
      × IsNear (abs total.amount) (sum_ℕ rs) rs (magnitudes shares)
allocate_fair total rs v h =
    let t = abs total.amount in
    let floors = map (share t (sum_ℕ rs)) rs in
    (
      signed_money (sign_of total.amount) total.currency (exact_shares t rs),
      allocate_value total rs v h,
      rw (magnitudes-signed_money total.amount total.currency (exact_shares t rs))
          (raise_first-IsNear t (sum_ℕ rs) (t - sum_ℕ floors) rs h),
    )
