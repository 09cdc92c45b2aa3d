-- ===== src/Sessions/Holders.antt =====
-- Sessions as a map: what the table of staff sessions means, and what the changes of a row mean.
use mathlib.Core.Option
use mathlib.Core.Option.{some-injective}
use dohost.Base.{
  ◌+◌, ◌≡◌, refl, ◌∙◌, ap, sym, Bool, true, false, not, Option, none, some, Text, text_eq,
  text_eq_iff, text_eq_refl, inl, inr, ◌==◌, Bool-cases, ◌&&◌, ltb, if◌then◌else◌,
}
use dohost.Store.{RowId, Tables, Time}
use dohost.Data.{StaffSession}
use dohost.Sessions.{session_ttl, StaffSessionInput, is_some, is_live}
use dohost.Sessions.Revoked.{revoked, revoked-dead}
use dohost.Sessions.Lookup.{has_hash}

-- Who holds the session of a hash at a time.
abbrev pub Holders : Type 0
Holders = Text → Time → Option RowId

-- The operations on the map.
abbrev pub hold : Text → RowId → Time → Holders → Holders
hold hash user until holders h t =
    if text_eq h hash then (if ltb until t then none else some user) else holders h t

abbrev pub release : Text → Holders → Holders
release hash holders h t = if text_eq h hash then none else holders h t

-- Who holds a row at a time.
abbrev pub holder_of : Time → Option (RowId × StaffSession) → Option RowId
holder_of t none = none
holder_of t (some (i, s)) = if is_live s.revoked_at s.expires_at t then some s.user_id else none

module _ (T : Tables) where
  -- The map that a table stands for.
  abbrev pub holders_of : T.Table StaffSession → Holders
  holders_of sessions h t = holder_of t (T.find_first sessions (has_hash h))

-- The row that `createStaffSession` adds.
abbrev pub opened : Text → Time → StaffSessionInput → StaffSession
opened hash now input = record {
  tenant_id = input.tenant_id;
  user_id = input.user_id;
  token_hash = hash;
  ip = input.ip;
  user_agent = input.user_agent;
  last_seen_at = now;
  expires_at = now + session_ttl;
  revoked_at = none;
  revoked_reason = none;
}

pub both_none : (b : Bool) → ◌≡◌ {A = Option RowId} (if b then none else none) none
both_none true = refl
both_none false = refl

-- A comparison of texts in the other order.
pub text_eq-swap : (a b : Text) (v : Bool) → text_eq a b ≡ v → text_eq b a ≡ v
text_eq-swap a b v h = elim (Bool-cases (text_eq b a)) [
  | inl same ↦
      let one : b ≡ a = (text_eq_iff b a).0 same in
      same ∙ (sym (ap (text_eq a) one ∙ text_eq_refl a) ∙ h)
  | inr other ↦ elim (Bool-cases (text_eq a b)) [
    | inr also ↦ other ∙ (sym also ∙ h)
    | inl same ↦
        let one : a ≡ b = (text_eq_iff a b).0 same in cc (ap (text_eq b) one, text_eq_refl b, other)
  ]
]

-- A live session of the user until a time.
pub holder_of-live :
    (t until : Time) (i user : RowId) (s : StaffSession)
    → s.revoked_at ≡ none
    → s.expires_at ≡ until
    → s.user_id ≡ user
    → holder_of t (some (i, s)) ≡ (if ltb until t then none else some user)
holder_of-live t until i user s live end of_user = elim (Bool-cases (ltb until t)) [
  | inl over ↦ rw (live, end, over)
  | inr not_over ↦ rw (live, end, not_over, of_user)
]

holder_of-dead :
    (t : Time) (i : RowId) (s : StaffSession)
    → is_live s.revoked_at s.expires_at t ≡ false
    → holder_of t (some (i, s)) ≡ none
holder_of-dead t i s dead = rw dead

pub revoked-hash :
    (now : Time) (hash reason : Text) (s : StaffSession)
    → (revoked now hash reason s).token_hash ≡ s.token_hash
revoked-hash now hash reason s =
    elim (Bool-cases (text_eq s.token_hash hash && not (is_some s.revoked_at))) [
      | inl hit ↦ rw hit
      | inr miss ↦ rw miss
    ]

-- What a revocation does to the holder of a session.
pub revoked-holder :
    (now t : Time) (hash reason h : Text) (i : RowId) (s : StaffSession)
    → has_hash h s ≡ true
    → holder_of t (some (i, revoked now hash reason s))
      ≡ (if text_eq h hash then none else holder_of t (some (i, s)))
revoked-holder now t hash reason h i s fits =
    let one : s.token_hash ≡ h = (text_eq_iff s.token_hash h).0 fits in
    elim (Bool-cases (text_eq h hash)) [
      | inl hit ↦
          holder_of-dead t i (revoked now hash reason s) (
            revoked-dead now t hash reason s
              (ap (λ x. text_eq x hash) (revoked-hash now hash reason s ∙ one) ∙ hit))
          ∙ rw hit
      | inr miss ↦
          let same : text_eq s.token_hash hash ≡ false = ap (λ x. text_eq x hash) one ∙ miss in
          ap
            (λ b. holder_of t (
              some (
                i,
                (if b && not (is_some s.revoked_at)
                    then record s { revoked_at = some now; revoked_reason = some reason }
                    else s),
              )))
            same
          ∙ rw miss
    ]

-- What a look-up changes of a row.
abbrev pub seen : Time → RowId → RowId → StaffSession → StaffSession
seen now i j r = if j == i then record r { last_seen_at = now } else r

pub seen-hash :
    (now : Time) (i j : RowId) (r : StaffSession) → (seen now i j r).token_hash ≡ r.token_hash
seen-hash now i j r = elim (Bool-cases (j == i)) [ inl hit ↦ rw hit | inr miss ↦ rw miss ]

pub seen-other :
    (now : Time) (i j : RowId)
    → (j == i) ≡ false
    → (o : Option StaffSession) → o ≡ Option.map (seen now i j) o
seen-other now i j miss none = refl
seen-other now i j miss (some r) = rw miss

pub seen-holder :
    (now : Time) (i : RowId) (t : Time) (o : Option (RowId × StaffSession))
    → holder_of t (Option.map (λ (e : RowId × StaffSession). (e.0, seen now i e.0 e.1)) o)
      ≡ holder_of t o
seen-holder now i t none = refl
seen-holder now i t (some (j, r)) = elim (Bool-cases (j == i)) [
  | inl hit ↦ rw hit
  | inr miss ↦ rw miss
]
