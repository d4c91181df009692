-- ===== src/Crypt/RoundTrip.antt =====
-- Encryption and decryption of src/crypt.c.
use nose.Common.{
  ℕ, ◌+◌, ◌%◌, ◌≤◌, ◌<◌, ◌≡◌, refl, ap, ◌∙◌, some, List, length, take, drop, arith, length-append,
  length-take, length-drop, take-length, take-append_length,
}
use nose.Common.Strings.{memcpy}
use nose.Crypt.{AesCbc, output_len, encrypt_by_aes_256, decrypt_by_aes_256, iv}

-- The plain text fills whole blocks, and no block more than it needs.
pub output_len_bounds :
    (n : ℕ) → (output_len n % 16 ≡ 0) × (n ≤ output_len n) × (output_len n < n + 16)
unfolding output_len
output_len_bounds n = ground arith

-- What is encrypted: the text, and what stood behind it in its last block.
abbrev pub filled : List ℕ → List ℕ → List ℕ
filled stack text = memcpy (take (output_len (length text)) stack) text (length text)

pub length-filled :
    (stack text : List ℕ)
    → output_len (length text) ≤ length stack
    → length (filled stack text) ≡ output_len (length text)
length-filled stack text h = omega (
  arith,
  output_len_bounds (length text),
  length-append (take (length text) text)
      (drop (length text) (take (output_len (length text)) stack)),
  length-take (length text) text,
  length-drop (length text) (take (output_len (length text)) stack),
  length-take (output_len (length text)) stack,
)

pub take-filled : (stack text : List ℕ) → take (length text) (filled stack text) ≡ text
take-filled stack text = rw (take-length text) (
    take-append_length text (drop (length text) (take (output_len (length text)) stack))
      (length text) refl)

pub decrypt_by_aes_256-encrypt :
    (aes : AesCbc) (stack text key : List ℕ)
    → output_len (length text) ≤ length stack
    → (crypted : List ℕ) × (back : List ℕ) × (encrypt_by_aes_256 aes stack text (length text) key
        ≡ some crypted)
      × (length crypted ≡ output_len (length text))
      × (decrypt_by_aes_256 aes crypted (length crypted) key ≡ some back)
      × (length back ≡ output_len (length text))
      × (take (length text) back ≡ text)
unfolding encrypt_by_aes_256 decrypt_by_aes_256
decrypt_by_aes_256-encrypt aes stack text key h =
    let whole = length-filled stack text h in
    let (c, e, l, d) =
      aes.decrypt-encrypt (take 32 key) iv (filled stack text)
        (ap (λ n. n % 16) whole ∙ (output_len_bounds (length text)).0) in
    let blocks : length c % 16 ≡ 0 =
      ap (λ n. n % 16) (l ∙ whole) ∙ (output_len_bounds (length text)).0 in
    (
      c,
      filled stack text,
      e,
      l ∙ whole,
      rw (blocks, take-length c) d,
      whole,
      take-filled stack text,
    )
