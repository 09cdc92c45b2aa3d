-- ===== src/Crypto.antt =====
-- packages/auth/src/crypto.ts: secrets that are encrypted at rest. The initial vector is drawn at
-- random and is an argument; the cipher, UTF-8 and base64 are those of dohost.Outside.
pub mod RoundTrip
pub mod Tests
use dohost.Base.{
  ℕ, Bool, true, false, Option, none, some, List, [], ◌∷◌, ◌++◌, Text, length, ◌==◌, if◌then◌else◌,
}
use dohost.Errors.{Result, ok, err, Error, plain, ◌>>=◌}
use dohost.Outside.{Outside}

-- `getKey`
unfoldable pub get_key : Outside → Result Text
get_key outside =
    let key = outside.from_base64 outside.encryption_key in
    if length key == 32 then ok key else err plain

-- `[iv, authTag, encrypted].map(toString("base64")).join(".")`
unfoldable pub join_parts : Outside → (iv tag bytes : Text) → Text
join_parts outside iv tag bytes =
    outside.to_base64 iv ++ (b'.' ∷ (outside.to_base64 tag ++ (b'.' ∷ outside.to_base64 bytes)))

-- `encryptSecret`, with the initial vector that is drawn.
unfoldable pub encrypt_secret : Outside → Text → Text → Result Text
encrypt_secret outside iv plaintext = get_key outside >>= λ key.
    let (encrypted, tag) = outside.encipher key iv (outside.to_utf8 plaintext) in
    ok (join_parts outside iv tag encrypted)

-- A character before the first of the parts.
abbrev pub before_first : ℕ → List Text → List Text
before_first c [] = (c ∷ []) ∷ []
before_first c (part ∷ parts) = (c ∷ part) ∷ parts

-- `text.split(".")`
unfoldable pub split_dots : Text → List Text
split_dots [] = [] ∷ []
split_dots (c ∷ t) = let rest = split_dots t in if c == b'.' then [] ∷ rest else before_first c rest

-- The three parts, none of them empty.
abbrev pub three_parts : List Text → Option (Text × Text × Text)
three_parts ((a ∷ iv) ∷ (b ∷ tag) ∷ (c ∷ bytes) ∷ []) = some (a ∷ iv, b ∷ tag, c ∷ bytes)
three_parts _ = none

-- What follows the split.
unfoldable pub decrypt_parts : Outside → Option (Text × Text × Text) → Result Text
decrypt_parts outside none = err plain
decrypt_parts outside (some (iv, tag, bytes)) = get_key outside >>= λ key.
    outside.decipher key (outside.from_base64 iv) (outside.from_base64 tag)
      (outside.from_base64 bytes)
    >>= λ decrypted. ok (outside.from_utf8 decrypted)

-- `decryptSecret`
unfoldable pub decrypt_secret : Outside → Text → Result Text
decrypt_secret outside ciphertext = decrypt_parts outside (three_parts (split_dots ciphertext))
