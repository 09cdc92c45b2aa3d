-- ===== src/Crypto/RoundTrip.antt =====
-- A secret that was encrypted, and its decryption.
use dohost.Base.{
  ℕ, suc, ltb, leb, ◌&&◌, ◌≡◌, ◌≢◌, refl, ◌∙◌, ap, sym, Bool, true, false, some, [], ◌∷◌, ◌++◌,
  Text, length, all, not, ◌==◌, inl, inr, Bool-cases, arith,
}
use dohost.Errors.{ok, ◌>>=◌}
use dohost.Outside.{Outside}
use dohost.Crypto.{
  get_key, join_parts, encrypt_secret, split_dots, three_parts, decrypt_parts, decrypt_secret,
}

abbrev pub has_no_dot : Text → Bool
has_no_dot t = all (λ c. not (c == b'.')) t

-- A text that `split` leaves whole and that is not empty.
abbrev pub is_part : Text → Bool
is_part [] = false
is_part (c ∷ t) = has_no_dot (c ∷ t)

abbrev pub is_bytes : Text → Bool
is_bytes t = all (λ c. ltb c 256) t

abbrev is_high : ℕ → Bool
is_high c = leb 55296 c && ltb c 56320

abbrev is_low : ℕ → Bool
is_low c = leb 56320 c && ltb c 57344

-- Whether UTF-16 code units, after the first half of a surrogate pair or not, are whole characters.
abbrev are_whole : Bool → Text → Bool
are_whole half [] = not half
are_whole true (c ∷ t) = is_low c && are_whole false t
are_whole false (c ∷ t) = not (is_low c) && ltb c 65536 && are_whole (is_high c) t

-- `text.isWellFormed()`: no surrogate stands alone.
abbrev pub is_well_formed : Text → Bool
is_well_formed t = are_whole false t

-- What AES-256-GCM is given here: a key of 32 bytes, a vector of 12, and bytes.
pub record IsFit (key iv bytes : Text) : Type 0 where
  pub key_length : length key ≡ 32
  pub key_bytes : is_bytes key ≡ true
  pub iv_length : length iv ≡ 12
  pub iv_bytes : is_bytes iv ≡ true
  pub data_bytes : is_bytes bytes ≡ true

-- What the code relies on of base64, of UTF-8 and of AES-256-GCM.
pub record IsCipher (outside : Outside) : Type 0 where
  -- the base64 of bytes has no dot and gives them back, and what it gives is bytes
  pub base64_plain : (t : Text) → is_bytes t ≡ true → has_no_dot (outside.to_base64 t) ≡ true
  pub base64_back : (t : Text) → is_bytes t ≡ true → outside.from_base64 (outside.to_base64 t) ≡ t
  pub base64_bytes : (t : Text) → is_bytes (outside.from_base64 t) ≡ true
  pub base64_empty : outside.from_base64 [] ≡ []
  -- the UTF-8 of a well-formed text is bytes, and gives the text back
  pub utf8_bytes : (t : Text) → is_well_formed t ≡ true → is_bytes (outside.to_utf8 t) ≡ true
  pub utf8_back : (t : Text) → is_well_formed t ≡ true → outside.from_utf8 (outside.to_utf8 t) ≡ t
  pub utf8_empty : outside.from_utf8 [] ≡ []
  -- there are as many bytes as before, and a tag of 16
  pub data_bytes :
      (key iv t : Text) → IsFit key iv t → is_bytes (outside.encipher key iv t).0 ≡ true
  pub data_length :
      (key iv t : Text) → IsFit key iv t → length (outside.encipher key iv t).0 ≡ length t
  pub tag_bytes : (key iv t : Text) → IsFit key iv t → is_bytes (outside.encipher key iv t).1 ≡ true
  pub tag_length : (key iv t : Text) → IsFit key iv t → length (outside.encipher key iv t).1 ≡ 16
  -- the tag fits the data that it was made with
  pub decipher-encipher :
      (key iv t : Text)
      → IsFit key iv t
      → outside.decipher key iv (outside.encipher key iv t).1 (outside.encipher key iv t).0 ≡ ok t

split_dots-part :
    (t rest : Text) → has_no_dot t ≡ true → split_dots (t ++ (b'.' ∷ rest)) ≡ t ∷ split_dots rest
unfolding split_dots
split_dots-part [] rest h = refl
split_dots-part (c ∷ t) rest h = elim (Bool-cases (c == b'.')) [
  | inl dot ↦ cc (rw dot at h)
  | inr other ↦
      let tail : has_no_dot t ≡ true = rw other at h in rw (other, split_dots-part t rest tail)
]

split_dots-whole : (t : Text) → has_no_dot t ≡ true → split_dots t ≡ t ∷ []
unfolding split_dots
split_dots-whole [] h = refl
split_dots-whole (c ∷ t) h = elim (Bool-cases (c == b'.')) [
  | inl dot ↦ cc (rw dot at h)
  | inr other ↦
      let tail : has_no_dot t ≡ true = rw other at h in rw (other, split_dots-whole t tail)
]

split-join :
    (a b c : Text)
    → has_no_dot a ≡ true
    → has_no_dot b ≡ true
    → has_no_dot c ≡ true
    → split_dots (a ++ (b'.' ∷ (b ++ (b'.' ∷ c)))) ≡ a ∷ b ∷ c ∷ []
split-join a b c p q r =
    split_dots-part a _ p
    ∙ ap (λ x. a ∷ x) (split_dots-part b c q ∙ ap (λ x. b ∷ x) (split_dots-whole c r))

three_parts-nonempty :
    (a b c : Text) → a ≢ [] → b ≢ [] → c ≢ [] → three_parts (a ∷ b ∷ c ∷ []) ≡ some (a, b, c)
three_parts-nonempty [] b c p q r = elim (p refl) [ ]
three_parts-nonempty (x ∷ a) [] c p q r = elim (q refl) [ ]
three_parts-nonempty (x ∷ a) (y ∷ b) [] p q r = elim (r refl) [ ]
three_parts-nonempty (x ∷ a) (y ∷ b) (z ∷ c) p q r = refl

-- Data as long as a text that is not empty is not empty either.
nonempty : (t s : Text) → length t ≡ length s → s ≢ [] → t ≢ []
nonempty t [] same some_s no_t = some_s refl
nonempty t (x ∷ s) same some_s no_t = ground (arith, rw no_t at same)

-- Nor is data of some length.
sized : {n : ℕ} (t : Text) → length t ≡ suc n → t ≢ []
sized t h no_t = ground (arith, rw no_t at h)

get_key-ok :
    (outside : Outside)
    → length (outside.from_base64 outside.encryption_key) ≡ 32
    → get_key outside ≡ ok (outside.from_base64 outside.encryption_key)
unfolding get_key
get_key-ok outside h = rw h

module _ (outside : Outside) (cipher : IsCipher outside) where
  base64-nonempty : (t : Text) → is_bytes t ≡ true → t ≢ [] → outside.to_base64 t ≢ []
  base64-nonempty t bytes some_t none_left =
      some_t (
        sym (cipher.base64_back t bytes) ∙ (ap outside.from_base64 none_left ∙ cipher.base64_empty))

  utf8-nonempty : (t : Text) → is_well_formed t ≡ true → t ≢ [] → outside.to_utf8 t ≢ []
  utf8-nonempty t whole some_t none_left =
      some_t (sym (cipher.utf8_back t whole) ∙ (ap outside.from_utf8 none_left ∙ cipher.utf8_empty))

  -- Three parts of bytes, none of them empty, are taken apart again and deciphered.
  decrypt-join :
      (iv tag bytes : Text)
      → length (outside.from_base64 outside.encryption_key) ≡ 32
      → is_bytes iv ≡ true
      → is_bytes tag ≡ true
      → is_bytes bytes ≡ true
      → iv ≢ []
      → tag ≢ []
      → bytes ≢ []
      → decrypt_secret outside (join_parts outside iv tag bytes) ≡ (
          outside.decipher (outside.from_base64 outside.encryption_key) iv tag bytes
          >>= λ decrypted. ok (outside.from_utf8 decrypted))
  unfolding decrypt_secret decrypt_parts join_parts
  decrypt-join iv tag bytes key p q r some_iv some_tag some_bytes = rw (
    split-join _ _ _ (cipher.base64_plain iv p) (cipher.base64_plain tag q)
        (cipher.base64_plain bytes r),
    three_parts-nonempty _ _ _ (base64-nonempty iv p some_iv) (base64-nonempty tag q some_tag)
        (base64-nonempty bytes r some_bytes),
    get_key-ok outside key,
    cipher.base64_back iv p,
    cipher.base64_back tag q,
    cipher.base64_back bytes r,
  )

  -- Under a key of 32 bytes and with an initial vector of 12, `encryptSecret` returns for a well-formed
  -- text of at least one character, and `decryptSecret` gives the text back.
  pub decrypt_secret-encrypt_secret :
      (iv plaintext : Text)
      → length (outside.from_base64 outside.encryption_key) ≡ 32
      → length iv ≡ 12
      → is_bytes iv ≡ true
      → is_well_formed plaintext ≡ true
      → plaintext ≢ []
      → (ciphertext : Text) × (encrypt_secret outside iv plaintext ≡ ok ciphertext)
        × (decrypt_secret outside ciphertext ≡ ok plaintext)
  unfolding encrypt_secret
  decrypt_secret-encrypt_secret iv plaintext long iv_long iv_bytes whole some_text =
      let key = outside.from_base64 outside.encryption_key in
      let text_bytes = outside.to_utf8 plaintext in
      let fit : IsFit key iv text_bytes = record {
        key_length = long;
        key_bytes = cipher.base64_bytes outside.encryption_key;
        iv_length = iv_long;
        iv_bytes = iv_bytes;
        data_bytes = cipher.utf8_bytes plaintext whole;
      } in
      let (bytes, tag) = outside.encipher key iv text_bytes in
      (
        join_parts outside iv tag bytes,
        rw (get_key-ok outside long),
        decrypt-join iv tag bytes long iv_bytes (cipher.tag_bytes key iv text_bytes fit)
              (cipher.data_bytes key iv text_bytes fit) (sized iv iv_long)
              (sized tag (cipher.tag_length key iv text_bytes fit))
              (nonempty bytes text_bytes (cipher.data_length key iv text_bytes fit)
                (utf8-nonempty plaintext whole some_text))
            ∙ rw (cipher.decipher-encipher key iv text_bytes fit, cipher.utf8_back plaintext whole),
      )
