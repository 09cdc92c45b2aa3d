-- ===== src/Store.antt =====
-- The database client (Prisma over PostgreSQL) as an interface: the calls that the services make of
-- a table, and what its documentation promises of them. A row is known by its id; `R` is the type of
-- the columns besides the id.
pub mod Memory
pub mod Queries
use mathlib.Core.Option
use dohost.Base.{
  ℕ, ◌+◌, ◌≤◌, ◌≡◌, Bool, true, false, Option, none, some, ◌==◌, if◌then◌else◌, List, All, any,
}

abbrev pub RowId : Type 0
RowId = ℕ

-- Milliseconds since the epoch.
abbrev pub Time : Type 0
Time = ℕ

pub record Tables : Type 1 where
  pub Table : Type 0 → Type 0
  -- `findUnique({ where: { id } })`
  pub find : {R : Type 0} → Table R → RowId → Option R
  -- `update({ where: { id }, data })`, given the whole new row
  pub write : {R : Type 0} → Table R → RowId → R → Table R
  -- `create({ data })`, with the id that the database gives the row
  pub create : {R : Type 0} → Table R → R → RowId × Table R
  -- `findFirst({ where })`, and `findUnique` by another unique key
  pub find_first : {R : Type 0} → Table R → (R → Bool) → Option (RowId × R)
  -- `findFirst({ where, orderBy: { key: "desc" } })`
  pub find_latest : {R : Type 0} → Table R → (R → Bool) → (R → ℕ) → Option (RowId × R)
  -- `findMany({ where, orderBy })`, with the test for the row that comes first
  pub find_many : {R : Type 0} → Table R → (R → Bool) → (R → R → Bool) → List (RowId × R)
  -- `count({ where })`
  pub count : {R : Type 0} → Table R → (R → Bool) → ℕ
  -- `updateMany({ where, data })`
  pub update_many : {R : Type 0} → Table R → (R → Bool) → (R → R) → Table R

-- What the services rely on.
pub record IsLawful (T : Tables) : Type 1 where
  -- an update changes the row of its id, if there is one, and no other
  pub find-write :
      {R : Type 0} (t : T.Table R) (i j : RowId) (r old : R)
      → T.find t i ≡ some old
      → T.find (T.write t i r) j ≡ (if j == i then some r else T.find t j)
  -- a created row has an id of its own, and no other row changes
  pub create_fresh : {R : Type 0} (t : T.Table R) (r : R) → T.find t (T.create t r).0 ≡ none
  pub find-create :
      {R : Type 0} (t : T.Table R) (r : R) (j : RowId)
      → T.find (T.create t r).1 j ≡ (if j == (T.create t r).0 then some r else T.find t j)
  -- a query returns a row that fits, if there is one
  pub find_first-some :
      {R : Type 0} (t : T.Table R) (p : R → Bool) (i : RowId) (r : R)
      → T.find_first t p ≡ some (i, r)
      → (T.find t i ≡ some r) × (p r ≡ true)
  pub find_first-none :
      {R : Type 0} (t : T.Table R) (p : R → Bool) (i : RowId) (r : R)
      → T.find_first t p ≡ none
      → T.find t i ≡ some r
      → p r ≡ false
  pub find_latest-some :
      {R : Type 0} (t : T.Table R) (p : R → Bool) (key : R → ℕ) (i : RowId) (r : R)
      → T.find_latest t p key ≡ some (i, r)
      → (T.find t i ≡ some r) × (p r ≡ true)
  pub find_latest-none :
      {R : Type 0} (t : T.Table R) (p : R → Bool) (key : R → ℕ) (i : RowId) (r : R)
      → T.find_latest t p key ≡ none
      → T.find t i ≡ some r
      → p r ≡ false
  -- ordered from the greatest key down, the first row has the greatest key
  pub find_latest-greatest :
      {R : Type 0} (t : T.Table R) (p : R → Bool) (key : R → ℕ) (i j : RowId) (r other : R)
      → T.find_latest t p key ≡ some (i, r)
      → T.find t j ≡ some other
      → p other ≡ true
      → key other ≤ key r
  -- `findMany` returns the rows that fit and no other
  pub find_many-sound :
      {R : Type 0} (t : T.Table R) (p : R → Bool) (before : R → R → Bool)
      → All (λ (e : RowId × R). (T.find t e.0 ≡ some e.1) × (p e.1 ≡ true)) (T.find_many t p before)
  pub find_many-complete :
      {R : Type 0} (t : T.Table R) (p : R → Bool) (before : R → R → Bool) (i : RowId) (r : R)
      → T.find t i ≡ some r
      → p r ≡ true
      → any (λ (e : RowId × R). e.0 == i) (T.find_many t p before) ≡ true
  pub count-create :
      {R : Type 0} (t : T.Table R) (r : R) (p : R → Bool)
      → T.count (T.create t r).1 p ≡ T.count t p + (if p r then 1 else 0)
  pub count-zero :
      {R : Type 0} (t : T.Table R) (p : R → Bool) (i : RowId) (r : R)
      → T.count t p ≡ 0
      → T.find t i ≡ some r
      → p r ≡ false
  pub find-update_many :
      {R : Type 0} (t : T.Table R) (p : R → Bool) (f : R → R) (i : RowId)
      → T.find (T.update_many t p f) i ≡ Option.map (λ r. if p r then f r else r) (T.find t i)
