-- ===== src/Money/Currency.antt =====
-- Currency codes: upper-casing, the test /^[A-Za-z]{3}$/ and the table of minor-unit digits.
use mathlib.Core.Bool.{◌&&◌, ◌||◌}
use dohost.Base.{
  ℕ, ◌-◌, ◌≡◌, refl, Bool, false, List, [], ◌∷◌, map, arith, leb, if◌then◌else◌, Text, codes,
  text_eq,
}

abbrev pub is_lower : ℕ → Bool
is_lower c = leb b'a' c && leb c b'z'

abbrev pub is_upper : ℕ → Bool
is_upper c = leb b'A' c && leb c b'Z'

-- `toUpperCase` on ASCII; other characters are left alone.
abbrev pub upper_char : ℕ → ℕ
upper_char c = if is_lower c then c - 32 else c

unfoldable pub to_upper_case : Text → Text
to_upper_case = map upper_char

abbrev pub is_letter : ℕ → Bool
is_letter c = is_upper c || is_lower c

-- /^[A-Za-z]{3}$/
unfoldable pub is_currency_code : Text → Bool
is_currency_code (a ∷ b ∷ c ∷ []) = is_letter a && (is_letter b && is_letter c)
is_currency_code _ = false

abbrev pub CurrencyTable : Type 0
CurrencyTable = List (Text × ℕ)

-- MINOR_UNIT_DIGITS
abbrev pub minor_unit_table : CurrencyTable
minor_unit_table =
    (codes "BIF", 0)
    ∷ (codes "CLP", 0)
    ∷ (codes "DJF", 0)
    ∷ (codes "GNF", 0)
    ∷ (codes "JPY", 0)
    ∷ (codes "KMF", 0)
    ∷ (codes "KRW", 0)
    ∷ (codes "MGA", 0)
    ∷ (codes "PYG", 0)
    ∷ (codes "RWF", 0)
    ∷ (codes "UGX", 0)
    ∷ (codes "VND", 0)
    ∷ (codes "VUV", 0)
    ∷ (codes "XAF", 0)
    ∷ (codes "XOF", 0)
    ∷ (codes "XPF", 0)
    ∷ (codes "BHD", 3)
    ∷ (codes "IQD", 3)
    ∷ (codes "JOD", 3)
    ∷ (codes "KWD", 3)
    ∷ (codes "LYD", 3)
    ∷ (codes "OMR", 3)
    ∷ (codes "TND", 3)
    ∷ []

-- `table[key] ?? 2`
pub digits_in : CurrencyTable → Text → ℕ
digits_in [] key = 2
digits_in ((k, d) ∷ table) key = if text_eq k key then d else digits_in table key

-- `minorUnitDigits`
unfoldable pub minor_unit_digits : Text → ℕ
unfolding to_upper_case digits_in
minor_unit_digits currency = digits_in minor_unit_table (to_upper_case currency)

upper_char_twice : (c : ℕ) → upper_char (upper_char c) ≡ upper_char c
upper_char_twice c = ground arith

pub to_upper_case_twice : (t : Text) → to_upper_case (to_upper_case t) ≡ to_upper_case t
unfolding to_upper_case
to_upper_case_twice [] = refl
to_upper_case_twice (c ∷ t) = ground (arith, upper_char_twice c, to_upper_case_twice t)

is_letter-upper_char : (c : ℕ) → is_letter (upper_char c) ≡ is_letter c
is_letter-upper_char c = ground arith

pub is_currency_code-to_upper_case :
    (t : Text) → is_currency_code (to_upper_case t) ≡ is_currency_code t
unfolding is_currency_code to_upper_case
is_currency_code-to_upper_case [] = refl
is_currency_code-to_upper_case (a ∷ []) = refl
is_currency_code-to_upper_case (a ∷ b ∷ []) = refl
is_currency_code-to_upper_case (a ∷ b ∷ c ∷ []) = simp is_letter-upper_char
is_currency_code-to_upper_case (a ∷ b ∷ c ∷ d ∷ t) = refl
