-- ===== src/Utils/Tests.antt =====
-- Concrete runs of src/utils.c.
use nose.Common.{ℕ, ◌+◌, ◌*◌, ◌≡◌, refl, true, none, List, [], ◌∷◌, replicate, fault, error}
use nose.Pmp.Fields.{IsNodeId}
use nose.Utils.{gen_random_node_id, swap, gethostbyname1, hex}
use nose.Utils.Names.{all_name_chars, gen_random_node_id-IsNodeId}

-- Numbers for rand.
abbrev counting : ℕ → ℕ
counting i = 7 * i + 11

gen_random_node_id-IsNodeId_here :
    (name : List ℕ) × IsNodeId (gen_random_node_id counting (replicate 21 0)) name
    × (all_name_chars name ≡ true)
gen_random_node_id-IsNodeId_here = gen_random_node_id-IsNodeId counting (replicate 21 0) refl

hex_of_two_bytes : hex (10 ∷ 255 ∷ []) ≡ 48 ∷ 97 ∷ 102 ∷ 102 ∷ []
unfolding hex
hex_of_two_bytes = refl

swap_asserts : swap true true (1 ∷ []) (2 ∷ []) 1 ≡ fault
unfolding swap
swap_asserts = refl

gethostbyname1_unknown : gethostbyname1 (λ d. none) [] (1 ∷ []) ≡ (error, 1 ∷ [])
unfolding gethostbyname1
gethostbyname1_unknown = refl
