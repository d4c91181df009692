-- ===== src/Utils/Names.antt =====
-- The names that gen_random_node_id of src/utils.c draws.
use nose.Common.{
  ℕ, zero, suc, ◌+◌, ◌%◌, ◌≤◌, ◌<◌, ◌≡◌, refl, sym, ap, ◌∙◌, Bool, true, ◌&&◌, ◌||◌, leb, List, [],
  ◌∷◌, ◌++◌, length, get_or, set, take, drop, arith, length-set, take-append-drop, take-set_end,
  drop-set,
}
use mathlib.Core.List.{append_assoc}
use nose.Pmp.Fields.{IsNodeId, set-append_length, last_of}
use nose.Utils.{base, node_id_chars, gen_random_node_id}

-- A digit or a small letter.
abbrev pub is_name_char : ℕ → Bool
is_name_char c = (leb 48 c && leb c 57) || (leb 97 c && leb c 122)

abbrev pub all_name_chars : List ℕ → Bool
all_name_chars [] = true
all_name_chars (c ∷ cs) = is_name_char c && all_name_chars cs

pub get_or-char :
    (xs : List ℕ) (i d : ℕ)
    → all_name_chars xs ≡ true
    → i < length xs
    → is_name_char (get_or xs i d) ≡ true
get_or-char [] i d v h = absurd (omega arith)
get_or-char (x ∷ xs) zero d v h = ground arith
get_or-char (x ∷ xs) (suc i) d v h = get_or-char xs i d (ground arith) (omega arith)

-- The characters of `n` rounds from round `i` on.
abbrev pub drawn : (ℕ → ℕ) → ℕ → ℕ → List ℕ
drawn rand zero i = []
drawn rand (suc n) i = get_or base (rand i % 36) 0 ∷ drawn rand n (i + 1)

length-drawn : (rand : ℕ → ℕ) (n i : ℕ) → length (drawn rand n i) ≡ n
length-drawn rand zero i = refl
length-drawn rand (suc n) i = ap suc (length-drawn rand n (i + 1))

pub drawn-chars : (rand : ℕ → ℕ) (n i : ℕ) → all_name_chars (drawn rand n i) ≡ true
drawn-chars rand zero i = refl
drawn-chars rand (suc n) i =
    rw (get_or-char base (rand i % 36) 0 refl (omega arith), drawn-chars rand n (i + 1)) refl

node_id_chars_lem :
    (rand : ℕ → ℕ) (n i : ℕ) (xs : List ℕ)
    → i + n ≤ length xs
    → node_id_chars rand n i xs ≡ take i xs ++ (drawn rand n i ++ drop (i + n) xs)
unfolding node_id_chars
node_id_chars_lem rand zero i xs h =
    let same : i + 0 ≡ i = omega arith in rw (same, take-append-drop i xs) refl
node_id_chars_lem rand (suc n) i xs h =
    let c = get_or base (rand i % 36) 0 in
    let one : i + 1 ≡ suc i = omega arith in
    let far : i + 1 + n ≡ i + suc n = omega arith in
    node_id_chars_lem rand n (i + 1) (set xs i c) (omega (arith, length-set xs i c))
    ∙ (rw
        (
          far,
          drop-set (i + suc n) xs i c (omega arith),
          ap (λ k. take k (set xs i c)) one,
          take-set_end xs i c (omega arith),
        )
        (append_assoc (take i xs) (c ∷ []) (drawn rand n (i + 1) ++ drop (i + suc n) xs)))

-- In an array of 21 characters, gen_random_node_id writes the 20 characters that rand chooses and a
-- NUL.
pub gen_random_node_id-drawn :
    (rand : ℕ → ℕ) (node_id : List ℕ)
    → length node_id ≡ 21
    → IsNodeId (gen_random_node_id rand node_id) (drawn rand 20 0)
unfolding gen_random_node_id
gen_random_node_id-drawn rand node_id h =
    let (x, e) = last_of 20 node_id h in
    let n = length-drawn rand 20 0 in
    record {
      wide = n;
      ended =
          ap (λ xs. set xs 20 0)
            (node_id_chars_lem rand 20 0 node_id (omega arith) ∙ ap (λ r. drawn rand 20 0 ++ r) e)
          ∙ set-append_length (drawn rand 20 0) [] x 0 20 (sym n);
    }

-- These are digits and small letters, whatever rand answers: a name that the packets carry
-- unchanged.
pub gen_random_node_id-IsNodeId :
    (rand : ℕ → ℕ) (node_id : List ℕ)
    → length node_id ≡ 21
    → (name : List ℕ) × IsNodeId (gen_random_node_id rand node_id) name
      × (all_name_chars name ≡ true)
gen_random_node_id-IsNodeId rand node_id h =
    (drawn rand 20 0, gen_random_node_id-drawn rand node_id h, drawn-chars rand 20 0)
