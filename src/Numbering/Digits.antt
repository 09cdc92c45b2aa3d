-- ===== src/Numbering/Digits.antt =====
-- `String(n)` and `padStart` on character codes.
use dohost.Base.{
  ℕ, zero, suc, ◌+◌, ◌-◌, ◌*◌, ◌/◌, ◌%◌, ◌<◌, ◌≡◌, refl, [], ◌∷◌, ◌++◌, Text, length, replicate,
  ltb, if◌then◌else◌, arith, Bool-cases, inl, inr, ap, ◌∙◌,
}

-- The digits of `n` in front of `acc`, with fuel.
unfoldable pub digits_onto : ℕ → ℕ → Text → Text
digits_onto zero n acc = acc
digits_onto (suc fuel) n acc =
    let here = (b'0' + n % 10) ∷ acc in
    let more = digits_onto fuel (n / 10) here in if ltb n 10 then here else more

-- `String(n)`
unfoldable pub to_decimal : ℕ → Text
unfolding digits_onto
to_decimal n = digits_onto (suc n) n []

-- `text.padStart(width, fill)` with a single character
unfoldable pub pad_start : ℕ → ℕ → Text → Text
pad_start width fill t = replicate (width - length t) fill ++ t

-- Reading digits back, the first one the most significant.
unfoldable pub value_from : ℕ → Text → ℕ
value_from acc [] = acc
value_from acc (c ∷ t) = value_from (acc * 10 + (c - b'0')) t

-- Enough fuel is one more than the number, so the digits read back are the number.
value_from-digits_onto :
    (fuel n : ℕ) (acc : Text) → n < fuel → value_from 0 (digits_onto fuel n acc) ≡ value_from n acc
unfolding digits_onto value_from
value_from-digits_onto zero n acc h = elim h [ ]
value_from-digits_onto (suc fuel) n acc h = elim (Bool-cases (ltb n 10)) [
  | inl small ↦
      let same : 0 * 10 + (b'0' + n % 10 - b'0') ≡ n = ground arith in
      rw small (ap (λ a. value_from a acc) same)
  | inr large ↦
      let same : n / 10 * 10 + (b'0' + n % 10 - b'0') ≡ n = omega arith in
      let ih = value_from-digits_onto fuel (n / 10) ((b'0' + n % 10) ∷ acc) (ground arith) in
      rw large (ih ∙ ap (λ a. value_from a acc) same)
]

-- The printed digits read back as the number.
pub value_from-to_decimal : (n : ℕ) → value_from 0 (to_decimal n) ≡ n
unfolding to_decimal
value_from-to_decimal n =
    value_from-digits_onto (suc n) n [] (omega arith) ∙ unfold value_from in refl

value_from-replicate : (n : ℕ) (t : Text) → value_from 0 (replicate n b'0' ++ t) ≡ value_from 0 t
unfolding value_from
value_from-replicate zero t = refl
value_from-replicate (suc n) t = value_from-replicate n t

-- A padded number reads back as the number.
pub value_from-pad_start : (width n : ℕ) → value_from 0 (pad_start width b'0' (to_decimal n)) ≡ n
unfolding pad_start
value_from-pad_start width n =
    value_from-replicate (width - length (to_decimal n)) (to_decimal n) ∙ value_from-to_decimal n

-- The digits are the same for any fuel above the number: no call stops for want of fuel.
pub digits_onto-enough :
    (fuel fuel' n : ℕ) (acc : Text)
    → n < fuel
    → n < fuel'
    → digits_onto fuel n acc ≡ digits_onto fuel' n acc
unfolding digits_onto
digits_onto-enough zero fuel' n acc h h' = elim h [ ]
digits_onto-enough (suc fuel) zero n acc h h' = elim h' [ ]
digits_onto-enough (suc fuel) (suc fuel') n acc h h' = elim (Bool-cases (ltb n 10)) [
  | inl small ↦ rw small
  | inr large ↦
      rw large (
        digits_onto-enough fuel fuel' (n / 10) ((b'0' + n % 10) ∷ acc) (ground arith)
          (ground arith))
]
