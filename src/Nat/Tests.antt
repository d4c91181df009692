-- ===== src/Nat/Tests.antt =====
-- Concrete runs of src/stun/nat_test.c.
use nose.Common.{
  ℕ, ◌≡◌, ◌≢◌, ◌==◌, refl, List, [], ◌∷◌, ◌++◌, replicate, some, arith, done, blocked, ok, true,
  false, ◌<◌, length, inl, inr,
}
use nose.Pmp.Samples.{plain_inet}
use nose.Pmp.Build.{NatType}
use nose.Nat.{External, stun_rsp_unpack}
use nose.Nat.Attributes.{stun_rsp_unpack-returns}
use nose.Nat.Client.{Memory, do_test}
use nose.Nat.Messages.{Attr, message, attrs_bytes}
use nose.Nat.Reading.{stun_rsp_unpack-message, IsFound, last_mapped}
use nose.Nat.Kinds.{nat_server, IsPlenty, address_value}
use nose.Nat.Classify.{do_test-kind, kind}

abbrev ext : External
ext = (replicate 16 0, 9)

stun_rsp_unpack-returns_example :
    stun_rsp_unpack plain_inet (replicate 20 0 ++ 0 ∷ []) 21 ext ≢ blocked
stun_rsp_unpack-returns_example =
    stun_rsp_unpack-returns plain_inet (replicate 20 0 ++ 0 ∷ []) 21 ext

-- A server name, and a mapped address behind it.
abbrev two_attrs : List Attr
two_attrs = (32802, 65 ∷ 66 ∷ 0 ∷ []) ∷ (1, address_value 84281096 4660) ∷ []

abbrev id : List ℕ
id = replicate 16 7

stun_rsp_unpack-message_example :
    (ext' : External) × (stun_rsp_unpack plain_inet (message 257 id two_attrs ++ 5 ∷ []) 39 ext
      ≡ done (ok, ext'))
    × IsFound plain_inet ext (last_mapped two_attrs) ext'
    × (15 < length ext'.0)
unfolding attrs_bytes
stun_rsp_unpack-message_example =
    stun_rsp_unpack-message plain_inet 257 id two_attrs (5 ∷ []) 39 ext refl
      (
        record { type_fits = omega arith; length_fits = omega arith; whole = inl refl },
        (
          record { type_fits = omega arith; length_fits = omega arith; whole = inr (omega arith) },
          tt,
        ),
      )
      (omega arith) (omega arith) (omega arith)

abbrev memory : ℕ → Memory
memory n = record { header = some (replicate 20 n); attribute = true; buf = replicate 40 3 }

plenty : IsPlenty memory
plenty = record { header = λ n. (replicate 20 n, refl, refl); attribute = λ n. refl }

abbrev type : NatType
type = record { nat_type = 9; port = 9; ipv4 = replicate 16 1 }

-- A client at 0.0.0.1 behind a NAT at 5.6.8.8 that lets no other answers pass.
do_test-kind_example :
    (found : NatType) × (sent : List (List ℕ)) × (do_test plain_inet
        (nat_server id 84281096 4660 false)
        memory
        id
        (some 3)
        (1 ∷ 0 ∷ [])
        type
      ≡ done (some 3, found, sent))
    × (found.nat_type ≡ kind (plain_inet.inet_addr (1 ∷ 0 ∷ []) == 84281096) false)
    × (plain_inet.inet_addr found.ipv4 ≡ 84281096)
    × (found.port ≡ 4660)
do_test-kind_example =
    do_test-kind plain_inet memory id id 84281096 4660 false plenty refl refl (omega arith)
      (omega arith) 3 (1 ∷ 0 ∷ []) type (omega arith)
