-- ===== src/Utils.antt =====
-- src/utils.h and src/utils.c: random names, hashes, and small helpers. The numbers of successive
-- calls of rand are an argument.
pub mod Names
mod Tests
use nose.Common.{
  ltb, ℕ, zero, suc, ◌+◌, ◌-◌, ◌*◌, ◌/◌, ◌%◌, ◌^◌, ◌==◌, Bool, true, false, not, if◌then◌else◌,
  Option, none, some, List, [], ◌∷◌, ◌++◌, length, get_or, set, take, drop, Outcome, done, blocked,
  fault, ◌>>=◌, Status, ok, failed, error,
}
use nose.Common.Strings.{c_str, memcpy, strncpy}
use nose.Common.Words.{htons}

-- "0123456789abcdefghijklmnopqrstuvwxyz"
abbrev pub base : List ℕ
base =
    48 ∷ 49 ∷ 50 ∷ 51 ∷ 52 ∷ 53 ∷ 54 ∷ 55 ∷ 56 ∷ 57 ∷ 97 ∷ 98 ∷ 99 ∷ 100 ∷ 101 ∷ 102 ∷ 103 ∷ 104
    ∷ 105 ∷ 106 ∷ 107 ∷ 108 ∷ 109 ∷ 110 ∷ 111 ∷ 112 ∷ 113 ∷ 114 ∷ 115 ∷ 116 ∷ 117 ∷ 118 ∷ 119 ∷ 120
    ∷ 121 ∷ 122 ∷ []

-- `for (; i < 20; i++) node_id[i] = base[rand() % strlen(base)];` with the rounds left.
unfoldable pub node_id_chars : (ℕ → ℕ) → ℕ → ℕ → List ℕ → List ℕ
node_id_chars rand zero i node_id = node_id
node_id_chars rand (suc rounds) i node_id =
    node_id_chars rand rounds (i + 1) (set node_id i (get_or base (rand i % 36) 0))

unfoldable pub gen_random_node_id : (ℕ → ℕ) → List ℕ → List ℕ
unfolding node_id_chars
gen_random_node_id rand node_id = set (node_id_chars rand 20 0 node_id) 20 0

-- `for (; i < 16; i++) trans_id[i] = rand() % 255;`
unfoldable pub trans_id_bytes : (ℕ → ℕ) → ℕ → ℕ → List ℕ → List ℕ
trans_id_bytes rand zero i trans_id = trans_id
trans_id_bytes rand (suc rounds) i trans_id =
    trans_id_bytes rand rounds (i + 1) (set trans_id i (rand i % 255))

unfoldable pub gen_random_trans_id : (ℕ → ℕ) → List ℕ → List ℕ
unfolding trans_id_bytes
gen_random_trans_id rand trans_id = trans_id_bytes rand 16 0 trans_id

-- `1 << length` for a length below 31.
unfoldable pub gen_random_int : (ℕ → ℕ) → ℕ → Outcome ℕ
gen_random_int rand length =
    let max = 2 ^ length - 1 in if max == 0 then fault else done (rand 0 % max)

-- The assertion is that malloc gave no memory. `asserts` says whether the program was built with
-- assertions, `mem` whether malloc gives memory.
unfoldable pub swap : Bool → Bool → List ℕ → List ℕ → ℕ → Outcome (List ℕ × List ℕ)
swap asserts mem a b size =
    if mem then (if asserts then fault else done (memcpy a b size, memcpy b a size)) else fault

-- The two hexadecimal digits of a byte.
abbrev hex_digit : ℕ → ℕ
hex_digit d = get_or base d 0

unfoldable pub hex : List ℕ → List ℕ
hex [] = []
hex (c ∷ cs) = hex_digit (c / 16 % 16) ∷ hex_digit (c % 16) ∷ hex cs

-- `sha256` is the digest of mbedtls, 32 bytes.
unfoldable pub gen_sha256 : (List ℕ → List ℕ) → List ℕ → ℕ → List ℕ
unfolding hex
gen_sha256 sha256 input len = hex (sha256 (take len input)) ++ 0 ∷ []

-- The numbers are taken for pointers: `peek` gives the two bytes that stand at such an address, or
-- a fault. `output` has to have the room.
unfoldable pub combine_ser_chall_id :
    (ℕ → Outcome (List ℕ)) → List ℕ → ℕ → ℕ → List ℕ → Outcome (List ℕ × ℕ)
combine_ser_chall_id peek s_key challenge id output =
    let n = length (c_str s_key) in
    if ltb (length output) (n + 4)
    then fault
    else (peek (htons (challenge % 2 ^ 16)) >>= λ chall. peek (htons (id % 2 ^ 16)) >>= λ i.
        done (take n s_key ++ (take 2 chall ++ (take 2 i ++ drop (n + 4) output)), n + 4))

-- The addresses that gethostbyname gives: none if the name is unknown, and otherwise those of type
-- AF_INET, as texts; the first is copied without its NUL.
unfoldable pub gethostbyname1 :
    (List ℕ → Option (List (List ℕ))) → List ℕ → List ℕ → Status × List ℕ
gethostbyname1 lookup domain ipv4 = elim (lookup domain) [
  | none ↦ (error, ipv4)
  | some [] ↦ (ok, ipv4)
  | some (a ∷ rest) ↦ (ok, strncpy ipv4 a (length (c_str a)))
]

-- `inet_pton` of the C library answers 1 for an address and 0 for another text.
unfoldable pub is_valid_ip_address : (List ℕ → ℕ) → List ℕ → Bool
is_valid_ip_address inet_pton ip = not (inet_pton (c_str ip) == 0)
