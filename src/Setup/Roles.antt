-- ===== src/Setup/Roles.antt =====
-- The roles of `bootstrapSuperAdmin`: what an `upsert` does to a table, and the role that the loop notes
-- for the super admins.
use mathlib.Core.Option.{some-injective}
use dohost.Base.{
  ◌≡◌, ◌∙◌, ap, sym, Bool, true, some, List, [], ◌∷◌, text_eq, text_eq_iff, text_eq_refl, inl, inr,
  ◌==◌, ==_iff, ==_refl, Bool-cases, Option-cases, ◌&&◌, arith,
}
use dohost.Errors.{ok}
use dohost.Permissions.{StaffRoleKey, super_admin}
use dohost.Store.{RowId, Tables, IsLawful}
use dohost.Store.Queries.{find_first-create}
use dohost.Data.{Db, Role}
use dohost.Staff.Create.{role_text, is_role_of}
use dohost.Setup.{RoleIds, role_id_of, upsert, ensure_role, ensure_roles, role_row}

-- After an `upsert` the row is found.
pub upsert-found :
    (T : Tables) (laws : IsLawful T) {R : Type 0} (t : T.Table R) (p : R → Bool) (row : R)
    → p row ≡ true
    → (s : R) × (T.find_first (upsert T (T.find_first t p) row t).1 p
        ≡ some ((upsert T (T.find_first t p) row t).0, s))
unfolding upsert
upsert-found T laws t p row fits = elim (Option-cases (T.find_first t p)) [
  | inl missing ↦ (row, rw missing (find_first-create T laws t p row fits missing))
  | inr ((i, s), found) ↦ (s, rw found found)
]

-- A row that is there stays there through an `upsert`.
upsert-kept :
    (T : Tables) (laws : IsLawful T) {R : Type 0} (t : T.Table R) (p : R → Bool) (row s : R)
    (i : RowId)
    → T.find t i ≡ some s
    → T.find (upsert T (T.find_first t p) row t).1 i ≡ some s
unfolding upsert
upsert-kept T laws t p row s i there = elim (Option-cases (T.find_first t p)) [
  | inr ((j, r), found) ↦ rw found there
  | inl missing ↦ elim (Bool-cases (i == (T.create t row).0)) [
    | inl same ↦
        cc (ap (T.find t) ((==_iff i (T.create t row).0).0 same), laws.create_fresh t row, there)
    | inr other ↦ rw missing (laws.find-create t row i ∙ rw other there)
  ]
]

-- The id is that of a row of the role of super admins of the tenant.
pub record IsSuperAdmins (T : Tables) (tenant : RowId) (roles : T.Table Role) (i : RowId)
    : Type 0 where
  pub role : Role
  pub there : T.find roles i ≡ some role
  pub fits : is_role_of tenant super_admin role ≡ true

-- The id that is noted for the super admins, if any, is that of their role.
abbrev pub IsNoted : (T : Tables) → RowId → T.Table Role → RoleIds → Type 0
IsNoted T tenant roles ids =
    (i : RowId) → role_id_of super_admin ids ≡ some i → IsSuperAdmins T tenant roles i

role_row-fits :
    (tenant : RowId) (key : StaffRoleKey) → is_role_of tenant key (role_row tenant key) ≡ true
role_row-fits tenant key = rw (==_refl tenant, text_eq_refl (role_text key))

module _ (T : Tables) (laws : IsLawful T) (tenant : RowId) where
  -- One round of the loop notes the row of its role.
  round-IsNoted :
      (key : StaffRoleKey) (roles : T.Table Role) (ids : RoleIds)
      → IsNoted T tenant roles ids
      → let made =
          upsert T (T.find_first roles (is_role_of tenant key)) (role_row tenant key) roles in
        IsNoted T tenant made.1 ((key, made.0) ∷ ids)
  round-IsNoted key roles ids noted i h =
      let p = is_role_of tenant key in
      let made = upsert T (T.find_first roles p) (role_row tenant key) roles in
      elim (Bool-cases (text_eq (role_text key) (role_text super_admin))) [
        | inl same ↦
            let (s, found) =
              upsert-found T laws roles p (role_row tenant key) (role_row-fits tenant key) in
            let (row, of_key) = laws.find_first-some made.1 p made.0 s found in
            let is_i : made.0 ≡ i = some-injective _ _ (rw same at h) in
            let one = (text_eq_iff (role_text key) (role_text super_admin)).0 same in
            record {
              role = s;
              there = rw (← is_i) row;
              fits =
                  ap (λ t. (s.tenant_id == tenant) && text_eq (role_text s.key) t) (sym one)
                  ∙ of_key;
            }
        | inr other ↦
            let before = noted i (rw other at h) in
            record {
              role = before.role;
              there = upsert-kept T laws roles p (role_row tenant key) before.role i before.there;
              fits = before.fits;
            }
      ]

  -- So does the loop.
  pub ensure_roles-IsNoted :
      (keys : List StaffRoleKey) (ids : RoleIds) (db : Db T) (ids' : RoleIds) (after : Db T)
      → IsNoted T tenant db.roles ids
      → ensure_roles T tenant keys ids db ≡ (ok ids', after)
      → IsNoted T tenant after.roles ids'
  unfolding ensure_roles ensure_role
  ensure_roles-IsNoted [] ids db ids' after noted h = λ i there.
      let is_db : db ≡ after = ap (λ r. r.1) h in
      let is_ids : ids ≡ ids' = ground (arith, ap (λ r. r.0) h) in
      rw (← is_db) (noted i (rw is_ids there))
  ensure_roles-IsNoted (key ∷ keys) ids db ids' after noted h =
      let id =
        (upsert T (T.find_first db.roles (is_role_of tenant key)) (role_row tenant key)
          db.roles).0 in
      ensure_roles-IsNoted keys ((key, id) ∷ ids) (ensure_role T tenant key db).1 ids' after
        (round-IsNoted key db.roles ids noted) h
