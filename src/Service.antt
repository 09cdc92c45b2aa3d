-- ===== src/Service.antt =====
-- A call of a domain service: it reads and changes the state and returns a value or throws. The
-- state comes back after a throw too, since what was written outside a transaction stays written.
use dohost.Base.{
  ◌∙◌, Bool, true, false, Option, none, some, if◌then◌else◌, ◌≡◌, refl, ◌⊎◌, inl, inr,
}
use dohost.Errors.{Result, ok, err, Error, record_not_found}

abbrev pub Action : Type 0 → Type 0 → Type 0
Action S A = S → Result A × S

module _ {S A : Type 0} where
  abbrev pub pure : A → Action S A
  pure a s = (ok a, s)

  abbrev pub throw : Error → Action S A
  throw e s = (err e, s)

  -- A computation that may throw and touches no state.
  abbrev pub lift : Result A → Action S A
  lift r s = (r, s)

  abbrev pub gets : (S → A) → Action S A
  gets f s = (ok (f s), s)

  -- `findUniqueOrThrow`: the value, or the error for a missing row.
  abbrev pub or_throw : Option A → Action S A
  or_throw none s = (err record_not_found, s)
  or_throw (some a) s = (ok a, s)

  -- What is left of a transaction that began at `s`.
  abbrev pub commit : S → Result A × S → Result A × S
  commit s (ok a, s') = (ok a, s')
  commit s (err e, s') = (err e, s)

  -- `prisma.$transaction`: what a transaction has written is undone when it throws.
  abbrev pub transaction : Action S A → Action S A
  transaction m s = commit s (m s)

-- How a call goes on after a part of it has ended.
abbrev pub continue : {S A B : Type 0} → Result A × S → (A → Action S B) → Result B × S
continue (ok a, s) f = f a s
continue (err e, s) f = (err e, s)

infixl 5 ◌>>=◌ ◌>>◌
abbrev pub ◌>>=◌ : {S A B : Type 0} → Action S A → (A → Action S B) → Action S B
◌>>=◌ m f s = continue (m s) f

abbrev pub ◌>>◌ : {S A B : Type 0} → Action S A → Action S B → Action S B
m >> k = m >>= λ _. k

abbrev pub modify : {S : Type 0} → (S → S) → Action S (Unit {0})
modify f s = (ok tt, f s)

-- `if (test) throw error`
abbrev pub throw_if : {S : Type 0} → Bool → Error → Action S (Unit {0})
throw_if test e s = (if test then err e else ok tt, s)

-- `if (test) await action`
abbrev pub when : {S : Type 0} → Bool → Action S (Unit {0}) → Action S (Unit {0})
when true m = m
when false m = pure tt

-- To split on how a call ended, keeping the state that it left.
pub outcome-cases :
    {S A : Type 0} (x : Result A × S)
    → ((a : A) × (s : S) × (x ≡ (ok a, s))) ⊎ ((e : Error) × (s : S) × (x ≡ (err e, s)))
outcome-cases (ok a, s) = inl (a, s, refl)
outcome-cases (err e, s) = inr (e, s, refl)

-- A transaction that throws leaves the state alone.
pub transaction_err :
    {S A : Type 0} (m : Action S A) (s : S) {e : Error}
    → (transaction m s).0 ≡ err e
    → (transaction m s).1 ≡ s
transaction_err m s h = elim (outcome-cases (m s)) [
  | inl (a, s', e) ↦ cc (rw e at h)
  | inr (x, s', e) ↦ rw e
]

-- A transaction that returns has run to its end.
pub transaction_ok :
    {S A : Type 0} (m : Action S A) (s : S) {a : A} {s' : S}
    → transaction m s ≡ (ok a, s')
    → m s ≡ (ok a, s')
transaction_ok m s h = elim (outcome-cases (m s)) [
  | inl (b, t, e) ↦ e ∙ rw e at h
  | inr (x, t, e) ↦ cc (rw e at h)
]

-- A transaction after a check: what is known when the whole returns, and what is left when it throws.
pub checked-ok :
    {S A B : Type 0} (r : Result A) (f : A → Action S B) (s : S) {b : B} {s' : S}
    → (lift r >>= f) s ≡ (ok b, s')
    → (a : A) × (r ≡ ok a) × (f a s ≡ (ok b, s'))
checked-ok (ok a) f s h = (a, refl, h)
checked-ok (err e) f s h = cc

pub checked_err :
    {S A B : Type 0} (r : Result A) (f : A → Action S B) (s : S) {e : Error}
    → ((a : A) → (f a s).0 ≡ err e → (f a s).1 ≡ s)
    → ((lift r >>= f) s).0 ≡ err e
    → ((lift r >>= f) s).1 ≡ s
checked_err (ok a) f s atomic h = atomic a h
checked_err (err x) f s atomic h = refl
