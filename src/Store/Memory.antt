-- ===== src/Store/Memory.antt =====
-- Tables in memory: the interface can be met. A table is the list of its rows, and a row's id is its
-- position.
use mathlib.Core.Option
use dohost.Base.{
  ℕ, zero, suc, ◌+◌, ◌≤◌, ◌≡◌, refl, Bool, true, false, Option, none, some, List, [], ◌∷◌, ◌++◌,
  map, length, ◌==◌, ltb, if◌then◌else◌, arith, Option-cases, inl, inr, All, All-imp, any,
  Bool-cases, ◌-◌, ◌||◌, sym, ap, ◌∙◌,
}
use dohost.Store.{Tables, IsLawful}

module _ {R : Type 0} where
  abbrev get : List R → ℕ → Option R
  get [] i = none
  get (x ∷ xs) zero = some x
  get (x ∷ xs) (suc i) = get xs i

  abbrev put : List R → ℕ → R → List R
  put [] i v = []
  put (x ∷ xs) zero v = v ∷ xs
  put (x ∷ xs) (suc i) v = x ∷ put xs i v

  abbrev shift : Option (ℕ × R) → Option (ℕ × R)
  shift none = none
  shift (some (i, r)) = some (suc i, r)

  abbrev first : List R → (R → Bool) → Option (ℕ × R)
  first [] p = none
  first (x ∷ xs) p = let rest = first xs p in if p x then some (0, x) else shift rest

  abbrev later : (R → ℕ) → R → Option (ℕ × R) → Option (ℕ × R)
  later key x none = some (0, x)
  later key x (some (i, r)) = if ltb (key x) (key r) then some (suc i, r) else some (0, x)

  abbrev latest : List R → (R → Bool) → (R → ℕ) → Option (ℕ × R)
  latest [] p key = none
  latest (x ∷ xs) p key = let rest = latest xs p key in if p x then later key x rest else shift rest

  abbrev number : List R → (R → Bool) → ℕ
  number [] p = 0
  number (x ∷ xs) p = number xs p + (if p x then 1 else 0)

  abbrev change : List R → (R → Bool) → (R → R) → List R
  change xs p f = map (λ r. if p r then f r else r) xs

  abbrev place : (R → R → Bool) → ℕ × R → List (ℕ × R) → List (ℕ × R)
  place before e [] = e ∷ []
  place before e (x ∷ xs) =
      let rest = place before e xs in if before x.1 e.1 then x ∷ rest else e ∷ x ∷ xs

  -- The rows that fit from position `n` on, in their order.
  abbrev many_from : ℕ → List R → (R → Bool) → (R → R → Bool) → List (ℕ × R)
  many_from n [] p before = []
  many_from n (x ∷ xs) p before =
      let rest = many_from (suc n) xs p before in if p x then place before (n, x) rest else rest

abbrev pub memory : Tables
memory = record {
  Table = List;
  find = get;
  write = put;
  create = λ t r. (length t, t ++ (r ∷ []));
  find_first = first;
  find_latest = latest;
  find_many = λ t. many_from 0 t;
  count = number;
  update_many = change;
}

module _ {R : Type 0} where
  get-put :
      (t : List R) (i j : ℕ) (r old : R)
      → get t i ≡ some old
      → get (put t i r) j ≡ (if j == i then some r else get t j)
  get-put [] i j r old h = cc
  get-put (x ∷ t) zero zero r old h = refl
  get-put (x ∷ t) zero (suc j) r old h = ground arith
  get-put (x ∷ t) (suc i) zero r old h = ground arith
  get-put (x ∷ t) (suc i) (suc j) r old h = ground (arith, get-put t i j r old h)

  get-length : (t : List R) → get t (length t) ≡ none
  get-length [] = refl
  get-length (x ∷ t) = get-length t

  get-append :
      (t : List R) (r : R) (j : ℕ)
      → get (t ++ (r ∷ [])) j ≡ (if j == length t then some r else get t j)
  get-append [] r zero = refl
  get-append [] r (suc j) = ground arith
  get-append (x ∷ t) r zero = ground arith
  get-append (x ∷ t) r (suc j) = ground (arith, get-append t r j)

  first-some :
      (t : List R) (p : R → Bool) (i : ℕ) (r : R)
      → first t p ≡ some (i, r)
      → (get t i ≡ some r) × (p r ≡ true)
  first-some [] p i r h = cc
  first-some (x ∷ t) p zero r h = ground arith
  first-some (x ∷ t) p (suc i) r h = ground (arith, first-some t p i r)

  first-none :
      (t : List R) (p : R → Bool) (i : ℕ) (r : R)
      → first t p ≡ none
      → get t i ≡ some r
      → p r ≡ false
  first-none [] p i r h g = cc
  first-none (x ∷ t) p zero r h g = ground arith
  first-none (x ∷ t) p (suc i) r h g = ground (arith, first-none t p i r)

  number-append :
      (t : List R) (r : R) (p : R → Bool)
      → number (t ++ (r ∷ [])) p ≡ number t p + (if p r then 1 else 0)
  number-append [] r p = refl
  number-append (x ∷ t) r p = omega (arith, number-append t r p)

  number-zero :
      (t : List R) (p : R → Bool) (i : ℕ) (r : R) → number t p ≡ 0 → get t i ≡ some r → p r ≡ false
  number-zero [] p i r h g = cc
  number-zero (x ∷ t) p zero r h g = ground arith
  number-zero (x ∷ t) p (suc i) r h g = number-zero t p i r (omega arith) g

  get-change :
      (t : List R) (p : R → Bool) (f : R → R) (i : ℕ)
      → get (change t p f) i ≡ Option.map (λ r. if p r then f r else r) (get t i)
  get-change [] p f i = refl
  get-change (x ∷ t) p f zero = refl
  get-change (x ∷ t) p f (suc i) = get-change t p f i

  latest-some :
      (t : List R) (p : R → Bool) (key : R → ℕ) (i : ℕ) (r : R)
      → latest t p key ≡ some (i, r)
      → (get t i ≡ some r) × (p r ≡ true)
  latest-some [] p key i r h = cc
  latest-some (x ∷ t) p key zero r h = ground arith
  latest-some (x ∷ t) p key (suc i) r h = ground (arith, latest-some t p key i r)

  latest-none :
      (t : List R) (p : R → Bool) (key : R → ℕ) (i : ℕ) (r : R)
      → latest t p key ≡ none
      → get t i ≡ some r
      → p r ≡ false
  latest-none [] p key i r h g = cc
  latest-none (x ∷ t) p key zero r h g = ground arith
  latest-none (x ∷ t) p key (suc i) r h g = ground (arith, latest-none t p key i r)

  latest-greatest :
      (t : List R) (p : R → Bool) (key : R → ℕ) (i j : ℕ) (r other : R)
      → latest t p key ≡ some (i, r)
      → get t j ≡ some other
      → p other ≡ true
      → key other ≤ key r
  latest-greatest [] p key i j r other h g q = cc
  latest-greatest (x ∷ t) p key i zero r other h g q = ground arith
  latest-greatest (x ∷ t) p key i (suc j) r other h g q = elim (Option-cases (latest t p key)) [
    | inl e ↦ cc (latest-none t p key j other e g)
    | inr ((k, best), e) ↦ ground (arith, latest-greatest t p key k j best other e g q)
  ]

module _ {R : Type 0} where
  All-place :
      (P : ℕ × R → Type 0) (before : R → R → Bool) (e : ℕ × R) (xs : List (ℕ × R))
      → P e
      → All P xs
      → All P (place before e xs)
  All-place P before e [] h hs = (h, tt)
  All-place P before e (x ∷ xs) h (hx, hs) = elim (Bool-cases (before x.1 e.1)) [
    | inl first ↦ rw first (hx, All-place P before e xs h hs)
    | inr last ↦ rw last (h, (hx, hs))
  ]

  any-place :
      (q : ℕ × R → Bool) (before : R → R → Bool) (e : ℕ × R) (xs : List (ℕ × R))
      → any q (place before e xs) ≡ (q e || any q xs)
  any-place q before e [] = refl
  any-place q before e (x ∷ xs) = ground (arith, any-place q before e xs)

  -- The row at a position, counted from `n`.
  abbrev at : List R → ℕ → ℕ → Option R
  at t n i = if ltb i n then none else get t (i - n)

  at-suc :
      (x : R) (t : List R) (n i : ℕ) (r : R) → at t (suc n) i ≡ some r → at (x ∷ t) n i ≡ some r
  at-suc x t n i r h = elim (Bool-cases (ltb i (suc n))) [
    | inl low ↦ cc (rw low at h)
    | inr high ↦
        let step : i - n ≡ suc (i - suc n) = ground arith in
        let above : ltb i n ≡ false = ground arith in rw (above, step) (rw high at h)
  ]

  at_zero : (t : List R) (i : ℕ) → at t 0 i ≡ get t i
  at_zero t i =
      let same : i - 0 ≡ i = omega arith in
      let above : ltb i 0 ≡ false = ground arith in rw (above, same)

  many_from_sound :
      (n : ℕ) (t : List R) (p : R → Bool) (before : R → R → Bool)
      → All (λ (e : ℕ × R). (at t n e.0 ≡ some e.1) × (p e.1 ≡ true)) (many_from n t p before)
  many_from_sound n [] p before = tt
  many_from_sound n (x ∷ t) p before =
      let zero_here : n - n ≡ 0 = omega arith in
      let not_below : ltb n n ≡ false = ground arith in
      let rest =
        All-imp (λ (e : ℕ × R) h. (at-suc x t n e.0 e.1 h.0, h.1)) (many_from (suc n) t p before)
          (many_from_sound (suc n) t p before) in
      elim (Bool-cases (p x)) [
        | inl fits ↦ rw fits (All-place _ before (n, x) _ (rw (not_below, zero_here), fits) rest)
        | inr unfit ↦ rw unfit rest
      ]

  many_from_complete :
      (n : ℕ) (t : List R) (p : R → Bool) (before : R → R → Bool) (i : ℕ) (r : R)
      → get t i ≡ some r
      → p r ≡ true
      → any (λ (e : ℕ × R). e.0 == n + i) (many_from n t p before) ≡ true
  many_from_complete n [] p before i r h fits = cc
  many_from_complete n (x ∷ t) p before zero r h fits =
      let fits_x : p x ≡ true = ground arith in
      rw fits_x (any-place (λ (e : ℕ × R). e.0 == n + 0) before (n, x) _ ∙ ground arith)
  many_from_complete n (x ∷ t) p before (suc i) r h fits =
      let ih : any (λ (e : ℕ × R). e.0 == suc n + i) (many_from (suc n) t p before) ≡ true =
        many_from_complete (suc n) t p before i r h fits in
      let same : suc n + i ≡ n + suc i = omega arith in
      let ih' = rw same at ih in
      elim (Bool-cases (p x)) [
        | inl placed ↦
            rw placed
              (any-place (λ (e : ℕ × R). e.0 == n + suc i) before (n, x) _ ∙ rw ih' (ground arith))
        | inr skipped ↦ rw skipped ih'
      ]

zero_plus : (i : ℕ) → 0 + i ≡ i
zero_plus i = omega arith

pub memory-IsLawful : IsLawful memory
memory-IsLawful = record {
  find-write = get-put;
  create_fresh = λ t r. get-length t;
  find-create = get-append;
  find_first-some = first-some;
  find_first-none = first-none;
  find_latest-some = latest-some;
  find_latest-none = latest-none;
  find_latest-greatest = latest-greatest;
  find_many-sound = λ t p before.
      All-imp (λ e h. (sym (at_zero t e.0) ∙ h.0, h.1)) (many_from 0 t p before)
        (many_from_sound 0 t p before);
  find_many-complete = λ t p before i r h fits.
      ap (λ k. any (λ e. e.0 == k) (many_from 0 t p before)) (sym (zero_plus i))
      ∙ many_from_complete 0 t p before i r h fits;
  count-create = number-append;
  count-zero = number-zero;
  find-update_many = get-change;
}
