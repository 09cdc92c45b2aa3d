-- ===== src/Numbering/Fresh.antt =====
-- Numbers taken from one counter of packages/billing/src/numbering.ts: its value and what is printed.
use mathlib.Core.Option.{some-injective}
use dohost.Base.{
  ℕ, ◌+◌, ◌≡◌, refl, ◌∙◌, ap, sym, true, Option, none, some, [], ◌∷◌, ◌++◌, Text, text_eq_refl, inl,
  inr, ◌==◌, ==_refl, ==_iff, Bool-cases, Option-cases,
}
use dohost.Errors.{ok}
use dohost.Store.{RowId, Tables, IsLawful}
use dohost.Data.{Db, Counter}
use dohost.Numbering.{is_counter, count_up, increment_counter, next_sequence_number}
use dohost.Numbering.Digits.{to_decimal, pad_start, value_from, value_from-pad_start}

-- The value of the counter, or nothing where no number was taken yet.
abbrev value_of : Option (RowId × Counter) → ℕ
value_of none = 0
value_of (some (_, c)) = c.value

unfoldable pub counter_value : (T : Tables) → RowId → Text → T.Table Counter → ℕ
counter_value T tenant key counters = value_of (T.find_first counters (is_counter tenant key))

-- `@@id([tenantId, key])`: one row at most for this tenant and key.
abbrev pub IsKeyed : (T : Tables) → RowId → Text → T.Table Counter → Type 0
IsKeyed T tenant key counters =
    (i j : RowId) (c d : Counter)
    → T.find counters i ≡ some c
    → T.find counters j ≡ some d
    → is_counter tenant key c ≡ true
    → is_counter tenant key d ≡ true
    → i ≡ j

-- The printed number.
abbrev pub printed : Text → ℕ → ℕ → Text
printed prefix padding value = prefix ++ pad_start padding b'0' (to_decimal value)

drop_prefix : Text → Text → Text
drop_prefix [] t = t
drop_prefix (c ∷ p) [] = []
drop_prefix (c ∷ p) (d ∷ t) = drop_prefix p t

drop_prefix-append : (p t : Text) → drop_prefix p (p ++ t) ≡ t
unfolding drop_prefix
drop_prefix-append [] t = refl
drop_prefix-append (c ∷ p) t = drop_prefix-append p t

-- Printed with the same prefix and padding, different values give different numbers, also where a
-- value has more digits than the padding.
pub printed-injective :
    (prefix : Text) (padding m n : ℕ) → printed prefix padding m ≡ printed prefix padding n → m ≡ n
printed-injective prefix padding m n h =
    let same : pad_start padding b'0' (to_decimal m) ≡ pad_start padding b'0' (to_decimal n) =
      sym (drop_prefix-append prefix _) ∙ ap (drop_prefix prefix) h ∙ drop_prefix-append prefix _ in
    sym (value_from-pad_start padding m) ∙ ap (value_from 0) same ∙ value_from-pad_start padding n

module _ (T : Tables) (laws : IsLawful T) (tenant : RowId) (key : Text) where
  open laws use {find-write, create_fresh, find-create, find_first-some, find_first-none}

  -- A table in which exactly one row is the counter, with this value.
  the_counter :
      (counters : T.Table Counter) (i : RowId) (c : Counter)
      → T.find counters i ≡ some c
      → is_counter tenant key c ≡ true
      → ((j : RowId) (d : Counter)
          → T.find counters j ≡ some d
          → is_counter tenant key d ≡ true
          → j ≡ i)
      → counter_value T tenant key counters ≡ c.value
  unfolding counter_value
  the_counter counters i c found fits only =
      elim (Option-cases (T.find_first counters (is_counter tenant key))) [
        | inl missing ↦
            cc (find_first-none counters (is_counter tenant key) i c missing found, fits)
        | inr ((j, d), e) ↦
            let (there, fits') = find_first-some counters (is_counter tenant key) j d e in
            let same : some d ≡ some c =
              sym there ∙ ap (T.find counters) (only j d there fits') ∙ found in
            rw e (ap (λ r. r.value) (some-injective _ _ same))
      ]

  counted_up :
      (counters : T.Table Counter) (i : RowId) (c : Counter)
      → IsKeyed T tenant key counters
      → T.find_first counters (is_counter tenant key) ≡ some (i, c)
      → counter_value T tenant key (T.write counters i (record c { value = c.value + 1 }))
        ≡ c.value + 1
  counted_up counters i c keyed e =
      let row = record c { value = c.value + 1 } in
      let (there, fits) = find_first-some counters (is_counter tenant key) i c e in
      let written = λ (j : RowId). find-write counters i j row c there in
      the_counter (T.write counters i row) i row (written i ∙ rw (==_refl i)) fits
        (λ j d found fits_d. elim (Bool-cases (j == i)) [
          | inl same ↦ (==_iff j i).0 same
          | inr other ↦ keyed j i d c (sym (written j ∙ rw other) ∙ found) there fits_d fits
        ])

  counted_first :
      (counters : T.Table Counter)
      → T.find_first counters (is_counter tenant key) ≡ none
      → let row : Counter = record { tenant_id = tenant; key = key; value = 1 } in
        counter_value T tenant key (T.create counters row).1 ≡ 1
  counted_first counters e =
      let row : Counter = record { tenant_id = tenant; key = key; value = 1 } in
      let new = (T.create counters row).0 in
      the_counter (T.create counters row).1 new row
        (find-create counters row new ∙ rw (==_refl new)) (rw (==_refl tenant, text_eq_refl key))
        (λ j d found fits_d. elim (Bool-cases (j == new)) [
          | inl same ↦ (==_iff j new).0 same
          | inr other ↦ cc (
            find_first-none counters (is_counter tenant key) j d e
                (sym (find-create counters row j ∙ rw other) ∙ found),
            fits_d,
          )
        ])

  abbrev first_counter : Counter
  first_counter = record { tenant_id = tenant; key = key; value = 1 }

  increment-none :
      (counters : T.Table Counter)
      → T.find_first counters (is_counter tenant key) ≡ none
      → (increment_counter T tenant key counters ≡ (1, (T.create counters first_counter).1))
        × (counter_value T tenant key counters ≡ 0)
  unfolding increment_counter count_up counter_value
  increment-none counters missing =
      (ap (λ r. count_up T r tenant key counters) missing, ap value_of missing)

  increment-some :
      (counters : T.Table Counter) (i : RowId) (c : Counter)
      → T.find_first counters (is_counter tenant key) ≡ some (i, c)
      → (increment_counter T tenant key counters
          ≡ (c.value + 1, T.write counters i (record c { value = c.value + 1 })))
        × (counter_value T tenant key counters ≡ c.value)
  unfolding increment_counter count_up counter_value
  increment-some counters i c found =
      (ap (λ r. count_up T r tenant key counters) found, ap value_of found)

  -- The value that comes of the counter's value, and the value that the new table holds.
  increment_counter-counts :
      (counters : T.Table Counter)
      → IsKeyed T tenant key counters
      → let next = counter_value T tenant key counters + 1 in
        ((increment_counter T tenant key counters).0 ≡ next)
        × (counter_value T tenant key (increment_counter T tenant key counters).1 ≡ next)
  increment_counter-counts counters keyed =
      let up = λ (m : ℕ) (n : ℕ) (e : m ≡ n). ap (λ k. k + 1) (sym e) in
      elim (Option-cases (T.find_first counters (is_counter tenant key))) [
        | inl missing ↦
            let (step, before) = increment-none counters missing in
            (
              ap (λ p. p.0) step ∙ up _ _ before,
              ap (λ p. counter_value T tenant key p.1) step
                  ∙ counted_first counters missing
                  ∙ up _ _ before,
            )
        | inr ((i, c), e) ↦
            let (step, before) = increment-some counters i c e in
            (
              ap (λ p. p.0) step ∙ up _ _ before,
              ap (λ p. counter_value T tenant key p.1) step
                  ∙ counted_up counters i c keyed e
                  ∙ up _ _ before,
            )
      ]

  -- Where the tenant has one counter row at most for the key, a call of `nextSequenceNumber` returns
  -- the number printed for one more than the counter's value, which is the value afterwards.
  pub next_sequence_number-counts :
      (prefix : Text) (padding : ℕ) (db : Db T)
      → IsKeyed T tenant key db.counters
      → let next = counter_value T tenant key db.counters + 1 in
        let (result, after) = next_sequence_number T tenant key prefix padding db in
        (result ≡ ok (printed prefix padding next))
        × (counter_value T tenant key after.counters ≡ next)
  unfolding next_sequence_number
  next_sequence_number-counts prefix padding db keyed =
      let (value, counted) = increment_counter-counts db.counters keyed in
      (ap (λ v. ok (printed prefix padding v)) value, counted)
