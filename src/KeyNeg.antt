-- ===== src/KeyNeg.antt =====
-- src/key_neg.h and src/key_neg.c: the agreement on a key by Diffie-Hellman on the curve 25519, and
-- the packet that carries a public key. The computations are mbedtls's, an interface here.
pub mod Agreement
mod Tests
use nose.Common.{
  ℕ, zero, suc, ◌+◌, ◌%◌, ◌^◌, ◌<◌, ◌≡◌, Bool, true, false, ◌==◌, if◌then◌else◌, Option, none, some,
  List, [], ◌∷◌, ◌++◌, length, take, replicate, Status, ok, error,
}
use nose.Common.Strings.{memcpy}
use nose.Common.Words.{htons, u8_at, bytes_at}
use nose.Crypt.{VpnProtoHeader, vpn_proto_header_bytes, vpn_proto_header_len, key_neg}

-- The calls of mbedtls: the seeded generator, whether the curve is there, a private number with the
-- coordinate of its public point, room for the point that comes from the other side, the shared
-- number, and numbers as 32 bytes. A call that takes memory depends on the heap at its time, the
-- shared number also on the generator, which blinds it, so each of them may fail at one side alone.
-- Where both sides compute the shared number it is documented to be the same, and a number that is
-- read to be the one that was written.
pub record Ecdh : Type 0 where
  pub seed : List ℕ → Option ℕ
  pub group_load : Bool
  pub gen_public : ℕ → Option (ℕ × ℕ)
  pub lset : ℕ → Bool
  pub compute_shared : ℕ → ℕ → ℕ → ℕ → Option ℕ
  pub write_binary : ℕ → Option (List ℕ)
  pub read_binary : ℕ → List ℕ → Option ℕ
  pub write_length : (n : ℕ) (bytes : List ℕ) → write_binary n ≡ some bytes → length bytes ≡ 32
  pub read-write :
      (heap n m : ℕ) (bytes : List ℕ)
      → write_binary n ≡ some bytes
      → read_binary heap bytes ≡ some m
      → m ≡ n
  pub shared_same :
      (heap heap' rng rng' r r' d q d' q' z z' : ℕ)
      → gen_public r ≡ some (d, q)
      → gen_public r' ≡ some (d', q')
      → compute_shared heap rng d q' ≡ some z
      → compute_shared heap' rng' d' q ≡ some z'
      → z ≡ z'

-- Of the contexts, the private number and the public one.
pub record KeyNeg : Type 0 where
  pub d : ℕ
  pub q : ℕ
  pub pub_key : List ℕ
  pub sec_key : List ℕ

-- After memset, and after the contexts are freed.
abbrev pub no_keys : KeyNeg
no_keys = record { d = 0; q = 0; pub_key = replicate 32 0; sec_key = replicate 32 0 }

module _ (ecdh : Ecdh) where
  -- What stood in the structure is overwritten.
  unfoldable pub key_neg_make_public : List ℕ → KeyNeg → Status × KeyNeg
  key_neg_make_public entropy neg = elim (ecdh.seed entropy) [
    | none ↦ (error, no_keys)
    | some ctr_drbg ↦
        if ecdh.group_load
        then elim (ecdh.gen_public ctr_drbg) [
          | none ↦ (error, no_keys)
          | some (d, q) ↦ elim (ecdh.write_binary q) [
            | none ↦ (error, no_keys)
            | some bytes ↦ (ok, record no_keys { d = d; q = q; pub_key = bytes })
          ]
        ]
        else (error, no_keys)
  ]

  -- The contexts are freed in any case; a failure gives mbedtls's own negative number. `heap` is
  -- the memory and `rng` the state of the generator that the calls find.
  unfoldable pub key_neg_make_secret : ℕ → ℕ → KeyNeg → List ℕ → ℕ → Status × KeyNeg
  key_neg_make_secret heap rng neg public_key pklen =
      let freed : KeyNeg = record neg { d = 0; q = 0 } in
      if ecdh.lset heap
      then elim (ecdh.read_binary heap (take pklen public_key)) [
        | none ↦ (error, freed)
        | some other ↦ elim (ecdh.compute_shared heap rng neg.d other) [
          | none ↦ (error, freed)
          | some z ↦ elim (ecdh.write_binary z) [
            | none ↦ (error, freed)
            | some bytes ↦ (ok, record freed { sec_key = bytes })
          ]
        ]
      ]
      else (error, freed)

unfoldable pub key_neg_pkt : Bool → ℕ → List ℕ → ℕ → Option (List ℕ)
key_neg_pkt mem id pub_key key_len =
    if mem
    then some (
        vpn_proto_header_bytes (record {
          type = key_neg;
          code = 0;
          id = htons (id % 2 ^ 16);
          length_field = htons ((vpn_proto_header_len + key_len) % 2 ^ 16);
          reversed = 0;
        })
        ++ take key_len pub_key)
    else none

-- Only the type is looked at, and `key_len` bytes are taken from the buffer, whatever was received.
unfoldable pub key_neg_pkt_validate : List ℕ → List ℕ → ℕ → Status × List ℕ
key_neg_pkt_validate buffer pub_key key_len =
    if u8_at buffer 0 == key_neg
    then (ok, memcpy pub_key (bytes_at buffer vpn_proto_header_len key_len) key_len)
    else (error, pub_key)
