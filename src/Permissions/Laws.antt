-- ===== src/Permissions/Laws.antt =====
-- Equality of permission keys.
use dohost.Base.{
  ◌≡◌, refl, ◌↔◌, true, Option, none, some, List, [], ◌∷◌, Text, text_eq, text_eq_iff, text_eq_refl,
  if◌then◌else◌, ap, sym, ◌∙◌,
}
use mathlib.Core.Option.{some-injective}
use dohost.Permissions.{PermissionKey, key_text, permission_eq, all_permissions, clients_read}

decode_in : List PermissionKey → Text → Option PermissionKey
decode_in [] t = none
decode_in (k ∷ ks) t = if text_eq (key_text k) t then some k else decode_in ks t

decode_key : (k : PermissionKey) → decode_in all_permissions (key_text k) ≡ some k
unfolding decode_in
decode_key clients_read = refl
decode_key _ = refl

-- Two keys are one exactly when their strings are equal.
pub permission_eq_iff : (a b : PermissionKey) → (permission_eq a b ≡ true) ↔ (a ≡ b)
unfolding permission_eq
permission_eq_iff a b = (
  λ h. some-injective _ _ (
      sym (decode_key a)
      ∙ ap (decode_in all_permissions) ((text_eq_iff (key_text a) (key_text b)).0 h)
      ∙ decode_key b),
  λ e. rw e (text_eq_refl (key_text b)),
)
