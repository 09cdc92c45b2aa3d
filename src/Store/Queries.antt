-- ===== src/Store/Queries.antt =====
-- Queries by a key on tables that have changed.
use mathlib.Core.Option.{some-injective}
use dohost.Base.{
  ◌≡◌, ◌∙◌, ap, sym, Bool, true, false, none, some, inl, inr, ◌==◌, ==_refl, ==_iff, Bool-cases,
  Option-cases,
}
use dohost.Store.{RowId, Tables, IsLawful}

module _ (T : Tables) (laws : IsLawful T) {R : Type 0} (t : T.Table R) (p : R → Bool) where
  -- The row that was created is there.
  pub find-create_new : (r : R) → T.find (T.create t r).1 (T.create t r).0 ≡ some r
  find-create_new r = laws.find-create t r (T.create t r).0 ∙ rw (==_refl (T.create t r).0)

  -- A query that found nothing finds the row that is created then, if that fits.
  pub find_first-create :
      (r : R)
      → p r ≡ true
      → T.find_first t p ≡ none
      → T.find_first (T.create t r).1 p ≡ some ((T.create t r).0, r)
  find_first-create r fits before =
      let new = (T.create t r).0 in
      let after = (T.create t r).1 in
      elim (Option-cases (T.find_first after p)) [
        | inl missing ↦ cc (laws.find_first-none after p new r missing (find-create_new r), fits)
        | inr ((j, s), e) ↦
            let (found, also) = laws.find_first-some after p j s e in
            elim (Bool-cases (j == new)) [
              | inl same ↦
                  let one = (==_iff j new).0 same in
                  let row : r ≡ s =
                    some-injective _ _
                      (sym (find-create_new r) ∙ (ap (T.find after) (sym one) ∙ found)) in
                  rw (e, one, ← row)
              | inr other ↦
                  let old : T.find t j ≡ some s = sym (laws.find-create t r j ∙ rw other) ∙ found in
                  cc (laws.find_first-none t p j s before old, also)
            ]
      ]

  -- A query that finds a row still does after a row is created.
  pub find_first-create_some :
      (r : R) {i : RowId} {s : R}
      → T.find_first t p ≡ some (i, s)
      → (T.find_first (T.create t r).1 p ≡ none → ◌≡◌ {A = Bool} true false)
  find_first-create_some r {i = i} {s = s} e missing =
      let (found, fits) = laws.find_first-some t p i s e in
      let fresh = laws.create_fresh t r in
      elim (Bool-cases (i == (T.create t r).0)) [
        | inl same ↦ cc (ap (T.find t) ((==_iff i (T.create t r).0).0 same), fresh, found)
        | inr other ↦
            let still : T.find (T.create t r).1 i ≡ some s =
              laws.find-create t r i ∙ (rw other found) in
            cc (laws.find_first-none (T.create t r).1 p i s missing still, fits)
      ]

-- At most one row fits.
abbrev pub Unique : (T : Tables) {R : Type 0} → T.Table R → (R → Bool) → Type 0
Unique T {R} t p =
    (i j : RowId) (r s : R)
    → T.find t i ≡ some r
    → T.find t j ≡ some s
    → p r ≡ true
    → p s ≡ true
    → i ≡ j

module _ (T : Tables) (laws : IsLawful T) {R : Type 0} (t : T.Table R) (p : R → Bool) where
  -- A query finds the one row that fits.
  pub find_first-only :
      Unique T t p
      → (i : RowId) (r : R) → T.find t i ≡ some r
      → p r ≡ true
      → T.find_first t p ≡ some (i, r)
  find_first-only only i r there fits = elim (Option-cases (T.find_first t p)) [
    | inl missing ↦ cc (laws.find_first-none t p i r missing there, fits)
    | inr ((j, s), e) ↦
        let (found, also) = laws.find_first-some t p j s e in
        let one : j ≡ i = only j i s r found there also fits in
        let row : s ≡ r = some-injective _ _ (sym found ∙ (ap (T.find t) one ∙ there)) in
        rw (e, one, row)
  ]

  -- A query finds nothing where nothing fits.
  pub find_first-nothing :
      ((i : RowId) (r : R) → T.find t i ≡ some r → p r ≡ false) → T.find_first t p ≡ none
  find_first-nothing nothing = elim (Option-cases (T.find_first t p)) [
    | inl missing ↦ missing
    | inr ((j, s), e) ↦
        let (found, also) = laws.find_first-some t p j s e in cc (nothing j s found, also)
  ]
