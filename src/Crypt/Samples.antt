-- ===== src/Crypt/Samples.antt =====
-- A cipher that stands for AES in tests: it keeps whole blocks as they are.
use nose.Common.{ℕ, ◌%◌, ◌==◌, ◌≡◌, refl, if◌then◌else◌, Option, none, some, List, length}
use nose.Crypt.{AesCbc}

abbrev pub plain_cbc : List ℕ → List ℕ → List ℕ → Option (List ℕ)
plain_cbc key iv input = if length input % 16 == 0 then some input else none

pub plain_cbc-some :
    (key iv input : List ℕ) → length input % 16 ≡ 0 → plain_cbc key iv input ≡ some input
plain_cbc-some key iv input h = rw h

abbrev pub plain_aes : AesCbc
plain_aes = record {
  encrypt = plain_cbc;
  decrypt = plain_cbc;
  decrypt-encrypt =
      λ key iv input h. (input, plain_cbc-some key iv input h, refl, plain_cbc-some key iv input h);
}
