-- ===== src/Money.antt =====
-- packages/shared/src/money/index.ts: money as whole minor units with a currency code.
-- A JavaScript number is `int` of an integer, or `fraction` for every value that is not one (NaN and
-- the infinities too). The arithmetic is exact while results stay within 2^53 - 1 in magnitude; the
-- columns that hold amounts are 32-bit integers. A text is its list of character codes.
pub mod Tests
pub mod Currency
pub mod Laws
pub mod Order
pub mod Rounding
pub mod Allocate
use dohost.Base.{ℕ, Bool, true, false, not, List, [], ◌∷◌, if◌then◌else◌, Text, text_eq}
use dohost.Base.Int.{ℤ, pos, negsuc, ◌+ℤ◌, ◌-ℤ◌, ◌*ℤ◌, floor_div, eqb_ℤ, ltb_ℤ, leb_ℤ}
use dohost.Errors.{
  Result, ok, err, ◌>>=◌, ◌>>◌, guard, Error, money_error, MoneyError, amount_not_integer,
  quantity_not_integer, invalid_currency, currency_mismatch, invalid_bps,
}
use Currency.{to_upper_case, is_currency_code}

-- `fraction` stands for every value that `Number.isInteger` refuses.
pub data Number : Type 0 where
  int : ℤ → Number
  fraction : Number

pub record Money : Type 0 where
  pub amount : ℤ
  pub currency : Text

-- `assertInteger`, which hands the integer on.
abbrev pub assert_integer : Number → MoneyError → Result ℤ
assert_integer (int n) label = ok n
assert_integer fraction label = err (money_error label)

-- `money` after its first check.
unfoldable pub money_of : ℤ → Text → Result Money
money_of amount currency =
    if is_currency_code currency
    then ok (record { amount = amount; currency = to_upper_case currency })
    else err (money_error invalid_currency)

unfoldable pub money : Number → Text → Result Money
unfolding money_of
money amount currency = do n ← assert_integer amount amount_not_integer; money_of n currency

-- `zero`
unfoldable pub zero_money : Text → Result Money
unfolding money
zero_money currency = money (int (pos 0)) currency

abbrev pub assert_same_currency : Money → Money → Result (Unit {0})
assert_same_currency a b = guard (text_eq a.currency b.currency) (money_error currency_mismatch)

unfoldable pub add : Money → Money → Result Money
unfolding money
add a b = do assert_same_currency a b; money (int (a.amount +ℤ b.amount)) a.currency

unfoldable pub subtract : Money → Money → Result Money
unfolding money
subtract a b = do assert_same_currency a b; money (int (a.amount -ℤ b.amount)) a.currency

unfoldable pub multiply : Money → Number → Result Money
unfolding money
multiply a quantity = do
  n ← assert_integer quantity quantity_not_integer
  money (int (a.amount *ℤ n)) a.currency

-- `Math.round(x / 10000)`: the nearest integer, a tie goes up.
abbrev pub round_bps : ℤ → ℤ
round_bps x = floor_div (x +ℤ pos 5000) 10_000

-- The check on `bps`, which hands the integer on.
abbrev pub assert_bps : Number → Result ℤ
assert_bps (int (pos n)) = ok (pos n)
assert_bps _ = err (money_error invalid_bps)

unfoldable pub percentage_bps : Money → Number → Result Money
unfolding money
percentage_bps a bps = do n ← assert_bps bps; money (int (round_bps (a.amount *ℤ n))) a.currency

unfoldable pub is_zero : Money → Bool
is_zero a = eqb_ℤ a.amount (pos 0)

unfoldable pub is_negative : Money → Bool
is_negative a = ltb_ℤ a.amount (pos 0)

unfoldable pub is_positive : Money → Bool
is_positive a = ltb_ℤ (pos 0) a.amount

unfoldable pub negate : Money → Result Money
unfolding money
negate a = money (int (pos 0 -ℤ a.amount)) a.currency

unfoldable pub compare : Money → Money → Result ℤ
compare a b = do
  assert_same_currency a b
  if eqb_ℤ a.amount b.amount
      then ok (pos 0)
      else ok (if ltb_ℤ b.amount a.amount then pos 1 else negsuc 0)

unfoldable pub max : Money → Money → Result Money
unfolding compare
max a b = do c ← compare a b; ok (if leb_ℤ (pos 0) c then a else b)

unfoldable pub min : Money → Money → Result Money
unfolding compare
min a b = do c ← compare a b; ok (if leb_ℤ c (pos 0) then a else b)

-- The `reduce` of `sum`.
unfoldable pub sum_from : Result Money → List Money → Result Money
sum_from acc [] = acc
sum_from acc (m ∷ items) = sum_from (acc >>= λ a. add a m) items

unfoldable pub sum : Text → List Money → Result Money
unfolding zero_money sum_from
sum currency items = sum_from (zero_money currency) items
