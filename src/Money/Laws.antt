-- ===== src/Money/Laws.antt =====
-- The arithmetic of money: which calls succeed, with what amount, and the group laws.
use dohost.Base.{
  ◌≡◌, refl, Bool, true, List, [], ◌∷◌, arith, if◌then◌else◌, Text, text_eq, text_eq_iff,
  Bool-cases, inl, inr, ◌∙◌, ap, sym, ◌&&◌,
}
use dohost.Base.Int.{
  ℤ, pos, ◌+ℤ◌, ◌-ℤ◌, ◌*ℤ◌, +ℤ_assoc, +ℤ_comm, +ℤ_zero, zero_+ℤ, -ℤ_cancel, -ℤ_neg,
}
use dohost.Errors.{Result, Error, ok, err, ◌>>=◌, money_error, currency_mismatch}
use dohost.Money.{
  Money, Number, int, fraction, money, money_of, add, subtract, negate, zero_money, sum, sum_from,
  multiply,
}
use dohost.Money.Currency.{
  to_upper_case, is_currency_code, to_upper_case_twice, is_currency_code-to_upper_case,
}

-- What `money` establishes of every value that it returns.
pub record IsMoney (m : Money) : Type 0 where
  pub coded : is_currency_code m.currency ≡ true
  pub upper : to_upper_case m.currency ≡ m.currency

-- A value of type `Money` with this amount and currency.
abbrev pub of_parts : ℤ → Text → Money
of_parts n c = record { amount = n; currency = c }

money_of-IsMoney : (n : ℤ) (c : Text) {m : Money} → money_of n c ≡ ok m → IsMoney m
unfolding money_of
money_of-IsMoney n c h = ground (arith, is_currency_code-to_upper_case c, to_upper_case_twice c)

pub money_of-amount : (n : ℤ) (c : Text) {m : Money} → money_of n c ≡ ok m → m.amount ≡ n
unfolding money_of
money_of-amount n c h = ground arith

-- Whatever `money` returns has a three-letter code in upper case, the upper-case form of a
-- three-letter code that it was given, and carries the integer that it was given.
pub money_lem :
    (n : Number) (c : Text) {m : Money}
    → money n c ≡ ok m
    → IsMoney m × (n ≡ int m.amount) × (is_currency_code c ≡ true) × (m.currency ≡ to_upper_case c)
unfolding money
money_lem fraction c h = cc
money_lem (int n) c h = (
  money_of-IsMoney n c h,
  ap int (sym (money_of-amount n c h)),
  unfold money_of in ground arith,
  unfold money_of in ground arith,
)

pub money_of-IsMoney_value :
    (n : ℤ) (m : Money) → IsMoney m → money_of n m.currency ≡ ok (of_parts n m.currency)
unfolding money_of
money_of-IsMoney_value n m v = ground arith

-- What `assertSameCurrency` lets through.
abbrev pub checked : Money → Money → Money → Result Money
checked a b m = if text_eq a.currency b.currency then ok m else err (money_error currency_mismatch)

pub add_value :
    (a b : Money) → IsMoney a → add a b ≡ checked a b (of_parts (a.amount +ℤ b.amount) a.currency)
unfolding add
add_value a b v = ground (arith, money_of-IsMoney_value (a.amount +ℤ b.amount) a v)

pub subtract_value :
    (a b : Money)
    → IsMoney a
    → subtract a b ≡ checked a b (of_parts (a.amount -ℤ b.amount) a.currency)
unfolding subtract
subtract_value a b v = ground (arith, money_of-IsMoney_value (a.amount -ℤ b.amount) a v)

pub multiply_value :
    (a : Money) (n : ℤ) → IsMoney a → multiply a (int n) ≡ ok (of_parts (a.amount *ℤ n) a.currency)
unfolding multiply
multiply_value a n v = money_of-IsMoney_value (a.amount *ℤ n) a v

pub negate_value : (a : Money) → IsMoney a → negate a ≡ ok (of_parts (pos 0 -ℤ a.amount) a.currency)
unfolding negate
negate_value a v = money_of-IsMoney_value (pos 0 -ℤ a.amount) a v

pub add-IsMoney : (a b : Money) {m : Money} → add a b ≡ ok m → IsMoney m
unfolding add
add-IsMoney a b {m} h = elim (Bool-cases (text_eq a.currency b.currency)) [
  | inl same ↦ money_of-IsMoney (a.amount +ℤ b.amount) a.currency (rw same at h)
  | inr other ↦ cc (rw other at h)
]

pub add-amount : (a b : Money) {m : Money} → add a b ≡ ok m → m.amount ≡ a.amount +ℤ b.amount
unfolding add
add-amount a b {m} h = elim (Bool-cases (text_eq a.currency b.currency)) [
  | inl same ↦ money_of-amount (a.amount +ℤ b.amount) a.currency (rw same at h)
  | inr other ↦ cc (rw other at h)
]

pub multiply-amount :
    (a : Money) (q : Number) {m : Money}
    → multiply a q ≡ ok m
    → (n : ℤ) × (q ≡ int n) × (m.amount ≡ a.amount *ℤ n)
unfolding multiply
multiply-amount a (int n) h = (n, refl, money_of-amount (a.amount *ℤ n) a.currency h)
multiply-amount a fraction h = cc

of_parts-IsMoney : (n : ℤ) (m : Money) → IsMoney m → IsMoney (of_parts n m.currency)
of_parts-IsMoney n m v = ground arith

-- Addition of two well-formed amounts is commutative, also in how it fails.
pub add_comm : (a b : Money) → IsMoney a → IsMoney b → add a b ≡ add b a
add_comm a b va vb =
    rw (add_value a b va, add_value b a vb)
      (ground (
        arith,
        text_eq_iff a.currency b.currency,
        text_eq_iff b.currency a.currency,
        +ℤ_comm a.amount b.amount,
      ))

-- Addition of well-formed amounts is associative, also in how it fails.
pub add_assoc :
    (a b c : Money)
    → IsMoney a
    → IsMoney b
    → (add a b >>= λ x. add x c) ≡ (add b c >>= λ y. add a y)
add_assoc a b c va vb =
    let n = a.amount +ℤ b.amount in
    rw (add_value a b va, add_value b c vb)
      (ground (
        arith,
        text_eq_iff a.currency b.currency,
        text_eq_iff b.currency c.currency,
        text_eq_iff a.currency c.currency,
        add_value (of_parts n a.currency) c (of_parts-IsMoney n a va),
        add_value a (of_parts (b.amount +ℤ c.amount) b.currency) va,
        +ℤ_assoc a.amount b.amount c.amount,
      ))

-- What is subtracted and added back leaves the amount; in two currencies both calls throw.
pub add-subtract : (a b : Money) → IsMoney a → (subtract a b >>= λ d. add d b) ≡ checked a b a
add-subtract a b va =
    let n = a.amount -ℤ b.amount in
    rw (subtract_value a b va) (
      ground (
        arith,
        add_value (of_parts n a.currency) b (of_parts-IsMoney n a va),
        -ℤ_cancel a.amount b.amount,
      ))

-- `negate` twice gives the amount back.
pub negate-negate : (a : Money) → IsMoney a → (negate a >>= negate) ≡ ok a
negate-negate a va =
    let n = pos 0 -ℤ a.amount in
    rw (negate_value a va) (
      ground
        (arith, negate_value (of_parts n a.currency) (of_parts-IsMoney n a va), -ℤ_neg a.amount))

-- The total of the amounts of a list.
abbrev pub amounts : List Money → ℤ
amounts [] = pos 0
amounts (m ∷ items) = m.amount +ℤ amounts items

abbrev pub all_in : Text → List Money → Bool
all_in c [] = true
all_in c (m ∷ items) = text_eq c m.currency && all_in c items

sum_from_err : (e : Error) (items : List Money) → sum_from (err e) items ≡ err e
unfolding sum_from
sum_from_err e [] = refl
sum_from_err e (m ∷ items) = sum_from_err e items

sum_from_lem :
    (acc : Money) (items : List Money)
    → IsMoney acc
    → sum_from (ok acc) items ≡ (
        if all_in acc.currency items
        then ok (of_parts (acc.amount +ℤ amounts items) acc.currency)
        else err (money_error currency_mismatch))
unfolding sum_from
sum_from_lem acc [] v = ground (arith, +ℤ_zero acc.amount)
sum_from_lem acc (m ∷ items) v =
    let next = of_parts (acc.amount +ℤ m.amount) acc.currency in
    rw (add_value acc m v) (
      ground (
        arith,
        sum_from_err (money_error currency_mismatch) items,
        sum_from_lem next items (of_parts-IsMoney (acc.amount +ℤ m.amount) acc v),
        +ℤ_assoc acc.amount m.amount (amounts items),
      ))

-- `sum` of a list in a valid currency is the total of its amounts, or throws a currency mismatch
-- when some item is not in that currency.
pub sum_lem :
    (c : Text) (items : List Money)
    → is_currency_code c ≡ true
    → sum c items ≡ (
        if all_in (to_upper_case c) items
        then ok (of_parts (amounts items) (to_upper_case c))
        else err (money_error currency_mismatch))
unfolding sum zero_money money_of
sum_lem c items v =
    let start = of_parts (pos 0) (to_upper_case c) in
    rw v (
      sum_from_lem start items
        (record { coded = is_currency_code-to_upper_case c ∙ v; upper = to_upper_case_twice c })
      ∙ rw (zero_+ℤ (amounts items)))
