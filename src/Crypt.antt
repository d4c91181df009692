-- ===== src/Crypt.antt =====
-- src/crypt.h, src/crypt.c and src/vpn_def.h: encryption by AES-256 in CBC mode, and the packet of
-- application data. The cipher is mbedtls's, an interface here.
pub mod RoundTrip
pub mod Samples
mod Tests
use nose.Common.{
  ℕ, zero, suc, ◌+◌, ◌*◌, ◌/◌, ◌%◌, ◌^◌, ◌≡◌, Bool, ◌==◌, if◌then◌else◌, Option, none, some, List,
  [], ◌∷◌, ◌++◌, length, take, Status,
}
use nose.Common.Strings.{memcpy}
use nose.Common.Words.{htons, bytes16}

-- mbedtls_aes_crypt_cbc for a key of 32 bytes, an initial vector and an input: the output, or an
-- error. It is documented to take inputs of whole blocks of 16 bytes, and decryption undoes
-- encryption under the same key and vector.
pub record AesCbc : Type 0 where
  pub encrypt : List ℕ → List ℕ → List ℕ → Option (List ℕ)
  pub decrypt : List ℕ → List ℕ → List ℕ → Option (List ℕ)
  pub decrypt-encrypt :
      (key iv input : List ℕ)
      → length input % 16 ≡ 0
      → (output : List ℕ) × (encrypt key iv input ≡ some output)
        × (length output ≡ length input)
        × (decrypt key iv output ≡ some input)

-- vpn_def.h
abbrev pub auth : ℕ
auth = 0

abbrev pub key_neg : ℕ
key_neg = 1

abbrev pub app_data : ℕ
app_data = 2

abbrev pub auth_req : ℕ
auth_req = 0

abbrev pub auth_rsp : ℕ
auth_rsp = 1

pub record VpnProtoHeader : Type 0 where
  pub type : ℕ
  pub code : ℕ
  pub id : ℕ
  pub length_field : ℕ
  pub reversed : ℕ

abbrev pub vpn_proto_header_bytes : VpnProtoHeader → List ℕ
vpn_proto_header_bytes h =
    h.type ∷ h.code ∷ (bytes16 h.id ++ (bytes16 h.length_field ++ bytes16 h.reversed))

-- `sizeof(struct vpn_proto_header)`
abbrev pub vpn_proto_header_len : ℕ
vpn_proto_header_len = 8

-- An empty payload is an error.
unfoldable pub app_data_pkt : Bool → ℕ → List ℕ → ℕ → Option (List ℕ)
app_data_pkt mem id payload zero = none
app_data_pkt mem id payload (suc n) =
    if mem
    then some (
        vpn_proto_header_bytes (record {
          type = app_data;
          code = 0;
          id = htons (id % 2 ^ 16);
          length_field = htons ((vpn_proto_header_len + suc n) % 2 ^ 16);
          reversed = 0;
        })
        ++ take (suc n) payload)
    else none

-- The fixed initial vector of both functions.
abbrev pub iv : List ℕ
iv = 14 ∷ 31 ∷ 6 ∷ 126 ∷ 18 ∷ 12 ∷ 36 ∷ 70 ∷ 100 ∷ 9 ∷ 42 ∷ 51 ∷ 111 ∷ 84 ∷ 3 ∷ 25 ∷ []

-- The number of bytes that a plain text takes when it is filled up to whole blocks.
unfoldable pub output_len : ℕ → ℕ
output_len plain_text_len =
    if plain_text_len % 16 == 0 then plain_text_len else (plain_text_len / 16 + 1) * 16

module _ (aes : AesCbc) where
  -- `input` is an array of `output_len` bytes on the stack; what stands behind the plain text in it
  -- is encrypted along.
  unfoldable pub encrypt_by_aes_256 : List ℕ → List ℕ → ℕ → List ℕ → Option (List ℕ)
  encrypt_by_aes_256 stack plain_text plain_text_len key =
      let input = take (output_len plain_text_len) stack in
      aes.encrypt (take 32 key) iv (memcpy input plain_text plain_text_len)

  unfoldable pub decrypt_by_aes_256 : List ℕ → ℕ → List ℕ → Option (List ℕ)
  decrypt_by_aes_256 cipher_text cipher_text_len key =
      if cipher_text_len % 16 == 0
      then aes.decrypt (take 32 key) iv (take cipher_text_len cipher_text)
      else none
