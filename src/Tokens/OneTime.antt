-- ===== src/Tokens/OneTime.antt =====
-- A token that has been used.
use mathlib.Core.Option.{some-injective}
use dohost.Base.{
  ◌≡◌, refl, ◌∙◌, ap, sym, true, false, Option, none, some, Text, text_eq, text_eq_iff, inl, inr,
  ◌==◌, ==_refl, Bool-cases, Option-cases, ltb, arith,
}
use dohost.Errors.{ok, err}
use dohost.Store.{RowId, Tables, Time, IsLawful}
use dohost.Data.{Db, AuthActor, PasswordResetToken}
use dohost.LoginGuard.{same_actor_type}
use dohost.Tokens.{is_set, is_usable, invalid_token, check_reset, find_reset, consume_reset}

-- The hash is `@unique` in the schema.
abbrev pub HashesUnique : (T : Tables) → Db T → Type 0
HashesUnique T db =
    (i j : RowId) (r s : PasswordResetToken)
    → T.find db.reset_tokens i ≡ some r
    → T.find db.reset_tokens j ≡ some s
    → r.token_hash ≡ s.token_hash
    → i ≡ j

-- What a link was found to be, when it passes the check.
pub check_reset-ok :
    (wanted : AuthActor) (now : Time) (found : Option (RowId × PasswordResetToken))
    (e : RowId × PasswordResetToken)
    → check_reset wanted now found ≡ ok e
    → (found ≡ some e)
      × (same_actor_type e.1.actor_type wanted ≡ true)
      × (is_set e.1.consumed_at ≡ false)
      × (ltb e.1.expires_at now ≡ false)
unfolding check_reset is_usable
check_reset-ok wanted now none e h = cc h
check_reset-ok wanted now (some (i, r)) e h = ground (arith, h)

-- A link that is not there or that has been used is refused.
consumed-refused :
    (wanted : AuthActor) (now : Time) (i : RowId) (r : PasswordResetToken)
    → is_set r.consumed_at ≡ true
    → check_reset wanted now (some (i, r)) ≡ err invalid_token
unfolding check_reset is_usable
consumed-refused wanted now i r used = ground (arith, used)

module _ (T : Tables) (laws : IsLawful T) where
  -- After a link was used, a look-up by the same hash finds nothing that passes, for an account of
  -- either kind.
  pub consume_reset-refuses :
      (now later : Time) (wanted : AuthActor) (hash : Text) (i : RowId) (r : PasswordResetToken)
      (db : Db T)
      → HashesUnique T db
      → find_reset T hash db ≡ some (i, r)
      → check_reset wanted later (find_reset T hash (consume_reset T now i r db).1)
        ≡ err invalid_token
  unfolding consume_reset
  consume_reset-refuses now later wanted hash i r db unique found =
      let test = λ (x : PasswordResetToken). text_eq x.token_hash hash in
      let used : PasswordResetToken = record r { consumed_at = some now } in
      let after = T.write db.reset_tokens i used in
      let (there, fits) = laws.find_first-some db.reset_tokens test i r found in
      elim (Option-cases (T.find_first after test)) [
        | inl missing ↦ ap (check_reset wanted later) missing ∙ unfold check_reset in refl
        | inr ((j, s), e) ↦
            let (at, also) = laws.find_first-some after test j s e in
            let row = laws.find-write db.reset_tokens i j used r there in
            elim (Bool-cases (j == i)) [
              | inl same ↦
                  let is_used : used ≡ s = some-injective _ _ (sym (row ∙ rw same) ∙ at) in
                  ap (check_reset wanted later) e
                  ∙ consumed-refused wanted later j s (ap (λ x. is_set x.consumed_at) (sym is_used))
              | inr other ↦
                  let old : T.find db.reset_tokens j ≡ some s = sym (row ∙ rw other) ∙ at in
                  let one : j ≡ i = unique j i s r old there (
                    (text_eq_iff s.token_hash hash).0 also
                    ∙ sym ((text_eq_iff r.token_hash hash).0 fits)) in
                  cc (other, one, ==_refl i)
            ]
      ]
