-- ===== src/Texts.antt =====
-- The string methods that the services call, on character codes.
use mathlib.Core.List.{reverse}
use dohost.Base.{Option, none, some, ℕ, Bool, [], ◌∷◌, Text, ◌==◌, leb, ◌&&◌, ◌||◌, if◌then◌else◌}
use dohost.LoginGuard.{to_lower_case}

-- White space and line ends, as ECMAScript has them.
abbrev pub is_space : ℕ → Bool
is_space c =
    (leb 9 c && leb c 13)
    || ((c == 32)
        || ((c == 0xA0)
            || ((c == 0x1680)
                || ((leb 0x2000 c && leb c 0x200A)
                    || ((c == 0x2028)
                        || ((c == 0x2029)
                            || ((c == 0x202F)
                                || ((c == 0x205F) || ((c == 0x3000) || (c == 0xFEFF))))))))))

unfoldable pub trim_start : Text → Text
trim_start [] = []
trim_start (c ∷ t) = let rest = trim_start t in if is_space c then rest else c ∷ t

-- `text.trim()`
unfoldable pub trim : Text → Text
unfolding trim_start
trim t = reverse (trim_start (reverse (trim_start t)))

-- `email.toLowerCase().trim()`
unfoldable pub normalize_email : Text → Text
unfolding trim to_lower_case
normalize_email t = trim (to_lower_case t)

-- `text ?? ""`
abbrev pub or_empty : Option Text → Text
or_empty none = []
or_empty (some t) = t
