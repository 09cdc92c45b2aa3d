-- ===== src/Crypto/Tests.antt =====
-- The round trip of a secret under the cryptography of the samples.
use dohost.Base.{
  ℕ, zero, suc, ◌+◌, ◌≡◌, refl, ◌∙◌, ap, true, [], ◌∷◌, ◌++◌, Text, codes, map, replicate, ltb,
  arith,
}
use dohost.Errors.{ok}
use dohost.Sample.{outside_world, tally, count_tally, byte_of}
use dohost.Crypto.{encrypt_secret, decrypt_secret}
use dohost.Crypto.RoundTrip.{IsCipher, is_bytes, has_no_dot, decrypt_secret-encrypt_secret}

shifted_plain : (t : Text) → has_no_dot (map (λ c. c + 100) t) ≡ true
shifted_plain [] = refl
shifted_plain (c ∷ t) = ground (arith, shifted_plain t)

shifted_back : (t : Text) → is_bytes t ≡ true → map byte_of (map (λ c. c + 100) t) ≡ t
shifted_back [] h = refl
shifted_back (c ∷ t) h =
    let here : byte_of (c + 100) ≡ c = ground arith in
    let rest : is_bytes t ≡ true = ground arith in
    ap (λ x. x ∷ map byte_of (map (λ c. c + 100) t)) here ∙ ap (λ x. c ∷ x) (shifted_back t rest)

bytes_only : (t : Text) → is_bytes (map byte_of t) ≡ true
bytes_only [] = refl
bytes_only (c ∷ t) = let here : ltb (byte_of c) 256 ≡ true = ground arith in rw (here, bytes_only t)

ones-bytes : (c : ℕ) (t : Text) → is_bytes t ≡ true → is_bytes (replicate c 1 ++ t) ≡ true
ones-bytes zero t h = h
ones-bytes (suc c) t h = ones-bytes c t h

tally-bytes : (t : Text) → is_bytes (tally t) ≡ true
tally-bytes [] = refl
tally-bytes (c ∷ t) = ones-bytes c (0 ∷ tally t) (tally-bytes t)

count-ones :
    (n c : ℕ) (t : Text) → count_tally n (replicate c 1 ++ (0 ∷ t)) ≡ (n + c) ∷ count_tally 0 t
count-ones n zero t = ap (λ m. m ∷ count_tally 0 t) (omega arith)
count-ones n (suc c) t = count-ones (n + 1) c t ∙ ap (λ m. m ∷ count_tally 0 t) (omega arith)

count-tally : (t : Text) → count_tally 0 (tally t) ≡ t
count-tally [] = refl
count-tally (c ∷ t) =
    count-ones 0 c (tally t)
    ∙ (ap (λ m. m ∷ count_tally 0 (tally t)) (omega arith) ∙ ap (λ x. c ∷ x) (count-tally t))

outside_world-IsCipher : IsCipher outside_world
outside_world-IsCipher = record {
  base64_plain = λ t bytes. shifted_plain t;
  base64_back = shifted_back;
  base64_bytes = bytes_only;
  base64_empty = refl;
  utf8_bytes = λ t whole. tally-bytes t;
  utf8_back = λ t whole. count-tally t;
  utf8_empty = refl;
  data_bytes = λ key iv t fit. fit.data_bytes;
  data_length = λ key iv t fit. refl;
  tag_bytes = λ key iv t fit. refl;
  tag_length = λ key iv t fit. refl;
  decipher-encipher = λ key iv t fit. refl;
}

abbrev vector : Text
vector = replicate 12 7

decrypt_secret-encrypt_secret_example :
    (ciphertext : Text) × (encrypt_secret outside_world vector (codes "JBSW") ≡ ok ciphertext)
    × (decrypt_secret outside_world ciphertext ≡ ok (codes "JBSW"))
decrypt_secret-encrypt_secret_example =
    decrypt_secret-encrypt_secret outside_world outside_world-IsCipher vector (codes "JBSW") refl
      refl refl refl (λ h. cc h)
