-- ===== src/Common/Strings.antt =====
-- Character arrays as the bytes in them, and the string functions of C on them.
use nose.Common.{
  Bool-cases, inl, inr, ap, ℕ, zero, suc, ◌-◌, ◌≤◌, ◌≡◌, ◌≢◌, refl, ◌==◌, if◌then◌else◌, Bool, true,
  false, ◌&&◌, List, [], ◌∷◌, ◌++◌, take, drop, length, replicate, arith, All, length-append,
  length-take, length-replicate,
}

-- The text of an array: what stands before its first NUL.
unfoldable pub c_str : List ℕ → List ℕ
c_str [] = []
c_str (c ∷ cs) = if c == 0 then [] else c ∷ c_str cs

unfoldable pub bytes_eq : List ℕ → List ℕ → Bool
bytes_eq [] [] = true
bytes_eq [] (y ∷ ys) = false
bytes_eq (x ∷ xs) [] = false
bytes_eq (x ∷ xs) (y ∷ ys) = x == y && bytes_eq xs ys

-- `strcmp(a, b) == 0`
abbrev pub same_str : List ℕ → List ℕ → Bool
same_str a b = bytes_eq (c_str a) (c_str b)

-- `memcpy(dst, src, n)`
abbrev pub memcpy : List ℕ → List ℕ → ℕ → List ℕ
memcpy dst src n = take n src ++ drop n dst

-- The `n` bytes that `strncpy` writes: the text, cut at `n`, and NULs up to `n`.
unfoldable pub padded : ℕ → List ℕ → List ℕ
padded n s = take n s ++ replicate (n - length s) 0

-- `strncpy(dst, src, n)`
abbrev pub strncpy : List ℕ → List ℕ → ℕ → List ℕ
strncpy dst src n = padded n (c_str src) ++ drop n dst

pub bytes_eq_refl : (xs : List ℕ) → bytes_eq xs xs ≡ true
unfolding bytes_eq
bytes_eq_refl [] = refl
bytes_eq_refl (x ∷ xs) = ground (arith, bytes_eq_refl xs)

pub bytes_eq→eq : (xs ys : List ℕ) → bytes_eq xs ys ≡ true → xs ≡ ys
unfolding bytes_eq
bytes_eq→eq [] [] h = refl
bytes_eq→eq [] (y ∷ ys) h = cc
bytes_eq→eq (x ∷ xs) [] h = cc
bytes_eq→eq (x ∷ xs) (y ∷ ys) h = ground (arith, bytes_eq→eq xs ys)

-- A text with no NUL in it.
abbrev pub IsText : List ℕ → Type 0
IsText = All (λ c. c ≢ 0)

pub c_str-append_nul : (s rest : List ℕ) → IsText s → c_str (s ++ 0 ∷ rest) ≡ s
unfolding c_str
c_str-append_nul [] rest h = refl
c_str-append_nul (c ∷ cs) rest h = ground (arith, c_str-append_nul cs rest h.1)

pub length-c_str : (s : List ℕ) → length (c_str s) ≤ length s
unfolding c_str
length-c_str [] = omega arith
length-c_str (c ∷ cs) = ground (arith, length-c_str cs)

pub IsText-c_str : (s : List ℕ) → IsText (c_str s)
unfolding c_str
IsText-c_str [] = tt
IsText-c_str (c ∷ cs) = ground (arith, IsText-c_str cs)

pub length-padded : (n : ℕ) (s : List ℕ) → length (padded n s) ≡ n
unfolding padded
length-padded n s = omega (
  arith,
  length-append (take n s) (replicate (n - length s) 0),
  length-take n s,
  length-replicate {A = ℕ} (n - length s) 0,
)

c_str-zeros : (k : ℕ) (rest : List ℕ) → c_str (replicate k 0 ++ 0 ∷ rest) ≡ []
unfolding c_str
c_str-zeros zero rest = refl
c_str-zeros (suc k) rest = refl

c_str-suffix : (c : ℕ) (xs ys : List ℕ) → c ≢ 0 → c_str xs ≡ ys → c_str (c ∷ xs) ≡ c ∷ ys
unfolding c_str
c_str-suffix c xs ys h e = ground arith

-- `strncpy` followed by a NUL at the end keeps a text that is short enough.
pub c_str-padded :
    (n : ℕ) (s rest : List ℕ) → IsText s → length s ≤ n → c_str (padded n s ++ 0 ∷ rest) ≡ s
unfolding padded
c_str-padded zero [] rest h k = c_str-zeros (0 - 0) rest
c_str-padded zero (c ∷ cs) rest h k = absurd (omega arith)
c_str-padded (suc n) [] rest h k = c_str-zeros (suc n - 0) rest
c_str-padded (suc n) (c ∷ cs) rest h k =
    let e : suc n - suc (length cs) ≡ n - length cs = omega arith in
    rw e (c_str-suffix c _ cs h.0 (c_str-padded n cs rest h.1 (omega arith)))

-- A text is a prefix of its array.
pub take-c_str : (s : List ℕ) → take (length (c_str s)) s ≡ c_str s
unfolding c_str
take-c_str [] = refl
take-c_str (c ∷ cs) = elim (Bool-cases (c == 0)) [
  | inl z ↦ rw z
  | inr z ↦ rw z (ap (◌∷◌ c) (take-c_str cs))
]

pub c_str-eq_self : (s : List ℕ) → IsText s → c_str s ≡ s
unfolding c_str
c_str-eq_self [] h = refl
c_str-eq_self (c ∷ cs) h = ground (arith, c_str-eq_self cs h.1)
