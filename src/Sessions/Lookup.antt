-- ===== src/Sessions/Lookup.antt =====
-- What a query for the hash of a session finds in a table that has changed.
use mathlib.Core.Option
use mathlib.Core.Option.{some-injective}
use dohost.Base.{
  none, text_eq_iff, ◌≡◌, ◌∙◌, ap, sym, Bool, true, false, some, Text, text_eq, inl, inr, ◌==◌,
  ==_iff, Bool-cases, Option-cases,
}
use dohost.Store.{RowId, Tables, IsLawful}
use dohost.Store.Queries.{Unique, find_first-only, find_first-nothing}
use dohost.Data.{StaffSession}

abbrev pub has_hash : Text → StaffSession → Bool
has_hash h s = text_eq s.token_hash h

module _ (T : Tables) where
  -- `tokenHash` is `@unique` in the schema.
  abbrev pub SessionsUnique : T.Table StaffSession → Type 0
  SessionsUnique sessions = (h : Text) → Unique T sessions (has_hash h)

module _ (T : Tables) (laws : IsLawful T) (sessions : T.Table StaffSession) where
  -- A row of another hash than that of a new row was there before.
  old_row :
      (row : StaffSession) (h : Text) (i : RowId) (r : StaffSession)
      → has_hash h row ≡ false
      → T.find (T.create sessions row).1 i ≡ some r
      → has_hash h r ≡ true
      → T.find sessions i ≡ some r
  old_row row h i r other at fits = elim (Bool-cases (i == (T.create sessions row).0)) [
    | inr old ↦ sym (laws.find-create sessions row i ∙ rw old) ∙ at
    | inl new ↦
        let same : row ≡ r =
          some-injective _ _ (sym (laws.find-create sessions row i ∙ rw new) ∙ at) in
        cc (ap (has_hash h) same, other, fits)
  ]

  still :
      (row : StaffSession) (i : RowId) (s : StaffSession)
      → T.find sessions i ≡ some s
      → T.find (T.create sessions row).1 i ≡ some s
  still row i s found = elim (Bool-cases (i == (T.create sessions row).0)) [
    | inr old ↦ laws.find-create sessions row i ∙ rw old found
    | inl new ↦ cc (
      ap (T.find sessions) ((==_iff i (T.create sessions row).0).0 new),
      laws.create_fresh sessions row,
      found,
    )
  ]

  -- A query for another hash than that of a new row.
  pub find-create_other :
      SessionsUnique T sessions
      → (row : StaffSession) (h : Text) → has_hash h row ≡ false
      → T.find_first (T.create sessions row).1 (has_hash h) ≡ T.find_first sessions (has_hash h)
  find-create_other only row h other =
      let after = (T.create sessions row).1 in
      elim (Option-cases (T.find_first sessions (has_hash h))) [
        | inl missing ↦
            find_first-nothing T laws after (has_hash h) (λ i r at.
              elim (Bool-cases (has_hash h r)) [
                | inr other_hash ↦ other_hash
                | inl fits ↦ cc (
                  laws.find_first-none sessions (has_hash h) i r missing
                      (old_row row h i r other at fits),
                  fits,
                )
              ])
            ∙ sym missing
        | inr ((i, s), e) ↦
            let (found, fits) = laws.find_first-some sessions (has_hash h) i s e in
            find_first-only T laws after (has_hash h)
              (λ a b r q at at' fits fits'.
                only h a b r q (old_row row h a r other at fits) (old_row row h b q other at' fits')
                  fits fits')
              i s (still row i s found) fits
            ∙ sym e
      ]

  -- With no row of a hash before, one that has it is the new one.
  is_new :
      (row : StaffSession) (h : Text) (i : RowId) (r : StaffSession)
      → T.find_first sessions (has_hash h) ≡ none
      → T.find (T.create sessions row).1 i ≡ some r
      → has_hash h r ≡ true
      → i ≡ (T.create sessions row).0
  is_new row h i r missing at fits = elim (Bool-cases (i == (T.create sessions row).0)) [
    | inl new ↦ (==_iff i (T.create sessions row).0).0 new
    | inr old ↦
        let before : T.find sessions i ≡ some r =
          sym (laws.find-create sessions row i ∙ rw old) ∙ at in
        cc (laws.find_first-none sessions (has_hash h) i r missing before, fits)
  ]

  -- A new row with a new hash leaves the hashes unique.
  pub create-SessionsUnique :
      SessionsUnique T sessions
      → (row : StaffSession) → T.find_first sessions (has_hash row.token_hash) ≡ none
      → SessionsUnique T (T.create sessions row).1
  create-SessionsUnique only row fresh h i j r s at at' fits fits' =
      elim (Bool-cases (has_hash h row)) [
        | inr other ↦
            only h i j r s (old_row row h i r other at fits) (old_row row h j s other at' fits')
              fits fits'
        | inl same ↦
            let one : row.token_hash ≡ h = (text_eq_iff row.token_hash h).0 same in
            let missing : T.find_first sessions (has_hash h) ≡ none =
              ap (λ x. T.find_first sessions (has_hash x)) (sym one) ∙ fresh in
            is_new row h i r missing at fits ∙ sym (is_new row h j s missing at' fits')
      ]

-- A table whose rows are changed in place, with their hashes kept.
module _ (T : Tables) (laws : IsLawful T) (sessions after : T.Table StaffSession)
    (change : RowId → StaffSession → StaffSession)
    (row : (i : RowId) → T.find after i ≡ Option.map (change i) (T.find sessions i))
    (keeps : (i : RowId) (s : StaffSession) → (change i s).token_hash ≡ s.token_hash) where
  old_of :
      (i : RowId) (r : StaffSession)
      → T.find after i ≡ some r
      → (s : StaffSession) × (T.find sessions i ≡ some s) × (change i s ≡ r)
  old_of i r at = elim (Option-cases (T.find sessions i)) [
    | inl missing ↦ cc (row i, at, missing)
    | inr (s, found) ↦ (s, found, some-injective _ _ (sym (row i ∙ rw found) ∙ at))
  ]

  same_hash : (h : Text) (i : RowId) (s : StaffSession) → has_hash h (change i s) ≡ has_hash h s
  same_hash h i s = ap (λ t. text_eq t h) (keeps i s)

  -- A query for a hash finds the changed row.
  pub find-change :
      SessionsUnique T sessions
      → (h : Text)
      → T.find_first after (has_hash h)
        ≡ Option.map
            (λ (e : RowId × StaffSession). (e.0, change e.0 e.1))
            (T.find_first sessions (has_hash h))
  find-change only h =
      let fits_before =
        λ (i : RowId) (s r : StaffSession) (same : change i s ≡ r) (fits : has_hash h r ≡ true).
          sym (same_hash h i s) ∙ (ap (has_hash h) same ∙ fits) in
      elim (Option-cases (T.find_first sessions (has_hash h))) [
        | inl missing ↦
            find_first-nothing T laws after (has_hash h) (λ i r at.
              let (s, found, same) = old_of i r at in
              sym (ap (has_hash h) same)
              ∙ (same_hash h i s ∙ laws.find_first-none sessions (has_hash h) i s missing found))
            ∙ ap (Option.map (λ (e : RowId × StaffSession). (e.0, change e.0 e.1))) (sym missing)
        | inr ((i, s), e) ↦
            let (found, fits) = laws.find_first-some sessions (has_hash h) i s e in
            find_first-only T laws after (has_hash h)
              (λ a b r q at at' fits fits'.
                let (r', found_r, same_r) = old_of a r at in
                let (q', found_q, same_q) = old_of b q at' in
                only h a b r' q' found_r found_q (fits_before a r' r same_r fits)
                  (fits_before b q' q same_q fits'))
              i (change i s) (row i ∙ ap (Option.map (change i)) found) (same_hash h i s ∙ fits)
            ∙ ap (Option.map (λ (x : RowId × StaffSession). (x.0, change x.0 x.1))) (sym e)
      ]

  -- The hashes stay unique.
  pub change-SessionsUnique : SessionsUnique T sessions → SessionsUnique T after
  change-SessionsUnique only h i j r s at at' fits fits' =
      let (r', found, same) = old_of i r at in
      let (s', found', same') = old_of j s at' in
      only h i j r' s' found found' (sym (same_hash h i r') ∙ (ap (has_hash h) same ∙ fits))
        (sym (same_hash h j s') ∙ (ap (has_hash h) same' ∙ fits'))
