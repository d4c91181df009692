-- ===== src/Pmp/Fields.antt =====
-- The parts of a packet of src/pmp.h: what is read back from a field that was written.
use nose.Common.{
  ℕ, zero, suc, ◌<◌, ◌≡◌, refl, sym, ap, ◌∙◌, List, [], ◌∷◌, ◌++◌, length, set, take, drop, arith,
  take-append_length, drop-append_length, length-drop, length-append, length-take, length-set,
}
use mathlib.Core.List.{append_assoc, append-nil}
use nose.Common.Strings.{
  c_str, memcpy, padded, IsText, c_str-append_nul, c_str-padded, length-padded, length-c_str,
  IsText-c_str,
}
use nose.Common.Words.{IsU32}
use nose.Pmp.{Inet}
use nose.Pmp.Parse.{id_copied, id_taken, put_text}

-- A node's name in an array of 21 characters: 20 of them and a NUL.
pub record IsNodeId (id s : List ℕ) : Type 0 where
  pub wide : length s ≡ 20
  pub ended : id ≡ s ++ 0 ∷ []

pub first_of_two : (n : ℕ) (a b rest : List ℕ) → n ≡ length a → take n ((a ++ b) ++ rest) ≡ a
first_of_two n a b rest h = rw (append_assoc a b rest) (take-append_length a (b ++ rest) n h)

pub second_of_two :
    (m n : ℕ) (a b rest : List ℕ)
    → m ≡ length a
    → n ≡ length b
    → take n (drop m ((a ++ b) ++ rest)) ≡ b
second_of_two m n a b rest h k =
    rw (append_assoc a b rest, drop-append_length a (b ++ rest) m h) (take-append_length b rest n k)

pub drop-length : (n : ℕ) (xs : List ℕ) → n ≡ length xs → drop n xs ≡ []
drop-length zero [] h = refl
drop-length zero (x ∷ xs) h = absurd (omega arith)
drop-length (suc n) [] h = refl
drop-length (suc n) (x ∷ xs) h = drop-length n xs (omega arith)

-- A name copied into a field of 20 bytes is the field's whole content.
pub memcpy-id : (field id s : List ℕ) → IsNodeId id s → length field ≡ 20 → memcpy field id 20 ≡ s
memcpy-id field id s v h =
    rw (v.ended, take-append_length s (0 ∷ []) 20 (sym v.wide), drop-length 20 field (sym h))
      (append-nil s)

pub set-append_length :
    (xs ys : List ℕ) (y v n : ℕ) → n ≡ length xs → set (xs ++ y ∷ ys) n v ≡ xs ++ v ∷ ys
set-append_length [] ys y v zero h = refl
set-append_length [] ys y v (suc n) h = absurd (omega arith)
set-append_length (x ∷ xs) ys y v zero h = absurd (omega arith)
set-append_length (x ∷ xs) ys y v (suc n) h =
    ap (◌∷◌ x) (set-append_length xs ys y v n (omega arith))

pub last_of : (n : ℕ) (xs : List ℕ) → length xs ≡ suc n → (x : ℕ) × (drop n xs ≡ x ∷ [])
last_of n [] h = absurd (omega arith)
last_of zero (x ∷ []) h = (x, refl)
last_of zero (x ∷ y ∷ xs) h = absurd (omega arith)
last_of (suc n) (x ∷ xs) h = last_of n xs (omega arith)

-- The text of a name that strncpy brought back.
pub c_str-id_copied :
    (id s : List ℕ) → length id ≡ 21 → length s ≡ 20 → c_str (id_copied id s) ≡ c_str s
c_str-id_copied id s h k =
    let (x, e) = last_of 20 id h in
    rw (e, set-append_length (padded 20 (c_str s)) [] x 0 20 (sym (length-padded 20 (c_str s))))
      (c_str-padded 20 (c_str s) [] (IsText-c_str s) (omega (arith, length-c_str s)))

-- The array of a name that memcpy brought back.
pub id_taken_lem : (id s : List ℕ) → length id ≡ 21 → length s ≡ 20 → id_taken id s ≡ s ++ 0 ∷ []
id_taken_lem id s h k =
    let (x, e) = last_of 20 id h in
    let all : take 20 s ≡ s = rw (append-nil s) at (take-append_length s [] 20 (sym k)) in
    rw (e, all) (set-append_length s [] x 0 20 (sym k))

room_after : (n : ℕ) (xs : List ℕ) → n < length xs → (x : ℕ) × (ys : List ℕ) × (drop n xs ≡ x ∷ ys)
room_after n [] h = absurd (omega arith)
room_after zero (x ∷ xs) h = (x, xs, refl)
room_after (suc n) (x ∷ xs) h = room_after n xs (omega arith)

-- The text of an address that was written into an array with room for it.
pub c_str-put_text :
    (field text : List ℕ)
    → IsText text
    → length text < length field
    → c_str (put_text field text) ≡ text
c_str-put_text field text t h =
    let (x, ys, e) = room_after (length text) field h in
    let all : take (length text) text ≡ text =
      rw (append-nil text) at (take-append_length text [] (length text) refl) in
    rw (e, all, set-append_length text ys x 0 (length text) refl) (c_str-append_nul text ys t)

pub length-put_text :
    (field text : List ℕ) → length text < length field → length (put_text field text) ≡ length field
length-put_text field text h = omega (
  arith,
  length-set (memcpy field text (length text)) (length text) 0,
  length-append (take (length text) text) (drop (length text) field),
  length-take (length text) text,
  length-drop (length text) field,
)

-- An address is the same after it went through a packet.
pub addr-put_text :
    (net : Inet) (field : List ℕ) (a : ℕ)
    → IsU32 a
    → 15 < length field
    → net.inet_addr (put_text field (net.inet_ntoa a)) ≡ a
addr-put_text net field a h k =
    net.addr_text (put_text field (net.inet_ntoa a))
    ∙ ap net.inet_addr
        (c_str-put_text field (net.inet_ntoa a) (net.ntoa_text a) (omega (arith, net.ntoa_short a)))
    ∙ net.addr-ntoa a h

-- The same for a field that has the NUL already.
pub id_taken-ended :
    (id s : List ℕ) → length id ≡ 21 → length s ≡ 20 → id_taken id (s ++ 0 ∷ []) ≡ s ++ 0 ∷ []
id_taken-ended id s h k =
    let all : take 20 s ≡ s = rw (append-nil s) at (take-append_length s [] 20 (sym k)) in
    rw (take-append_length s (0 ∷ []) 20 (sym k)) (rw all at (id_taken_lem id s h k))
