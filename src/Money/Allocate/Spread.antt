-- ===== src/Money/Allocate/Spread.antt =====
-- The loops of `allocate` on plain numbers: what each computes in closed form.
use dohost.Base.{
  ℕ, zero, suc, ◌+◌, ◌*◌, ◌/◌, ◌%◌, ◌≤◌, ◌≡◌, refl, List, [], ◌∷◌, ◌++◌, map, length, length-append,
  append_assoc, ap, sum_ℕ, arith,
}
use dohost.Money.Allocate.{ratio_total, allot, increment, spread}

abbrev pub share : ℕ → ℕ → ℕ → ℕ
share total_abs ratio_sum ratio = total_abs * ratio / ratio_sum

ratio_total-eq-add_sum : (s : ℕ) (rs : List ℕ) → ratio_total s rs ≡ s + sum_ℕ rs
unfolding ratio_total
ratio_total-eq-add_sum s [] = omega arith
ratio_total-eq-add_sum s (r ∷ rs) = omega (arith, ratio_total-eq-add_sum (s + r) rs)

pub ratio_total-eq-sum : (rs : List ℕ) → ratio_total 0 rs ≡ sum_ℕ rs
ratio_total-eq-sum rs = omega (arith, ratio_total-eq-add_sum 0 rs)

allot_from :
    (t s acc : ℕ) (rs : List ℕ)
    → allot t s acc rs ≡ (map (share t s) rs, acc + sum_ℕ (map (share t s) rs))
unfolding allot
allot_from t s acc [] = ground arith
allot_from t s acc (r ∷ rs) = ground (arith, allot_from t s (acc + share t s r) rs)

pub allot_lem :
    (t s : ℕ) (rs : List ℕ) → allot t s 0 rs ≡ (map (share t s) rs, sum_ℕ (map (share t s) rs))
allot_lem t s rs = ground (arith, allot_from t s 0 rs)

-- One more for each of the first `n` shares.
abbrev pub raise_first : ℕ → List ℕ → List ℕ
raise_first zero xs = xs
raise_first (suc n) [] = []
raise_first (suc n) (x ∷ xs) = suc x ∷ raise_first n xs

increment-append :
    (pre : List ℕ) (x : ℕ) (xs : List ℕ)
    → increment (length pre) (pre ++ (x ∷ xs)) ≡ pre ++ (suc x ∷ xs)
unfolding increment
increment-append [] x xs = refl
increment-append (p ∷ pre) x xs = ap (λ t. p ∷ t) (increment-append pre x xs)

-- From the index behind `pre` the loop raises the shares that follow, if there are enough of them.
spread-append :
    (n : ℕ) (pre xs : List ℕ)
    → n ≤ length xs
    → spread n (length pre) (pre ++ xs) ≡ pre ++ raise_first n xs
unfolding spread
spread-append zero pre xs h = refl
spread-append (suc n) pre [] h = elim h [ ]
spread-append (suc zero) pre (x ∷ xs) h = increment-append pre x xs
spread-append (suc (suc n)) pre (x ∷ []) h = absurd (omega arith)
spread-append (suc (suc n)) pre (x ∷ y ∷ xs) h =
    let next : List ℕ = pre ++ (suc x ∷ []) in
    let at : (length pre + 1) % length (pre ++ (x ∷ y ∷ xs)) ≡ length next =
      grind (arith, length-append) in
    let ih = spread-append (suc n) next (y ∷ xs) (omega arith) in
    rw (at, increment-append pre x (y ∷ xs)) (simp append_assoc at ih)

pub spread_lem : (n : ℕ) (xs : List ℕ) → n ≤ length xs → spread n 0 xs ≡ raise_first n xs
spread_lem n xs h = spread-append n [] xs h

pub sum-raise_first :
    (n : ℕ) (xs : List ℕ) → n ≤ length xs → sum_ℕ (raise_first n xs) ≡ sum_ℕ xs + n
sum-raise_first zero xs h = omega arith
sum-raise_first (suc n) [] h = elim h [ ]
sum-raise_first (suc n) (x ∷ xs) h = omega (arith, sum-raise_first n xs)

pub length-raise_first : (n : ℕ) (xs : List ℕ) → length (raise_first n xs) ≡ length xs
length-raise_first zero xs = refl
length-raise_first (suc n) [] = refl
length-raise_first (suc n) (x ∷ xs) = ap suc (length-raise_first n xs)
