-- ===== src/ConfReader/Line.antt =====
-- One line of a configuration file, from fgets to the item that src/conf/conf-reader.c makes of it.
use nose.Common.{
  ℕ, zero, suc, ◌+◌, ◌-◌, ◌≤◌, ◌<◌, ◌≡◌, ◌≢◌, refl, sym, ap, ◌∙◌, Bool, false, ◌==◌, List, [], ◌∷◌,
  ◌++◌, length, take, drop, replicate, done, All, arith, length-append, le→ltb, lt→ltb, take-length,
  take-append_length, length-take,
}
use mathlib.Core.List.{append-nil}
use nose.Common.Strings.{c_str, memcpy, strncpy, padded, IsText, c_str-append_nul, IsText-c_str}
use nose.ConfReader.{ConfItem, cleared, max, fgets, split_pos, line_item, add_line}

-- A key and a value that a line can hold.
pub record IsEntry (key value : List ℕ) : Type 0 where
  pub key_text : IsText key
  pub key_line : All (λ c. c ≢ 10) key
  pub key_whole : All (λ c. c ≢ 61) key
  pub value_text : IsText value
  pub value_line : All (λ c. c ≢ 10) value
  pub fits : length key + length value + 2 < max

abbrev pub line_of : List ℕ → List ℕ → List ℕ
line_of key value = key ++ 61 ∷ (value ++ 10 ∷ [])

pub All-append : (P : ℕ → Type 0) (xs ys : List ℕ) → All P xs → All P ys → All P (xs ++ ys)
All-append P [] ys p q = q
All-append P (x ∷ xs) ys p q = (p.0, All-append P xs ys p.1 q)

IsText-take : (n : ℕ) (xs : List ℕ) → IsText xs → IsText (take n xs)
IsText-take zero xs p = tt
IsText-take (suc n) [] p = tt
IsText-take (suc n) (x ∷ xs) p = (p.0, IsText-take n xs p.1)

pub fgets-line :
    (n : ℕ) (broken : Bool) (s rest : List ℕ)
    → All (λ c. c ≢ 10) s
    → length s < n
    → fgets n broken (s ++ 10 ∷ rest) ≡ (s ++ 10 ∷ [], rest, false)
unfolding fgets
fgets-line zero broken s rest p h = absurd (omega arith)
fgets-line (suc n) broken [] rest p h = refl
fgets-line (suc n) broken (c ∷ cs) rest p h =
    let more : (c == 10) ≡ false = ground arith in
    rw (more, fgets-line n broken cs rest p.1 (omega arith)) refl

split_pos-key :
    (key rest : List ℕ) → All (λ c. c ≢ 61) key → split_pos (key ++ 61 ∷ rest) ≡ length key
unfolding split_pos
split_pos-key [] rest p = refl
split_pos-key (c ∷ cs) rest p = ground (arith, split_pos-key cs rest p.1)

pub drop-replicate : (n m v : ℕ) → drop n (replicate (n + suc m) v) ≡ v ∷ replicate m v
drop-replicate zero m v = let e : 0 + suc m ≡ suc m = omega arith in rw e refl
drop-replicate (suc n) m v =
    let e : suc n + suc m ≡ suc (n + suc m) = omega arith in rw e (drop-replicate n m v)

pub drop-cleared : (n : ℕ) → n < max → drop n cleared ≡ 0 ∷ replicate (max - 1 - n) 0
unfolding cleared
drop-cleared n h =
    let e : 1024 ≡ n + suc (1023 - n) = omega arith in
    ap (λ k. drop n (replicate {A = ℕ} k 0)) e ∙ drop-replicate n (1023 - n) 0

-- The text of a cleared array after bytes that leave room for a NUL were written to its front.
pub c_str-written :
    (s : List ℕ) → IsText s → length s < max → c_str (s ++ drop (length s) cleared) ≡ s
c_str-written s t h = rw (drop-cleared (length s) h) (c_str-append_nul s _ t)

pub padded-short : (n : ℕ) (s : List ℕ) → n ≤ length s → padded n s ≡ take n s
unfolding padded
padded-short n s h = let z : n - length s ≡ 0 = omega arith in rw z (append-nil (take n s))

-- The text that strncpy leaves in a cleared array.
c_str-strncpy :
    (src : List ℕ) (n : ℕ)
    → n ≤ length (c_str src)
    → n < max
    → c_str (strncpy cleared src n) ≡ take n (c_str src)
c_str-strncpy src n h l =
    let long : length (take n (c_str src)) ≡ n = omega (arith, length-take n (c_str src)) in
    let w =
      c_str-written (take n (c_str src)) (IsText-take n (c_str src) (IsText-c_str src))
        (omega arith) in
    rw (padded-short n (c_str src) h)
      (ap (λ k. c_str (take n (c_str src) ++ drop k cleared)) (sym long) ∙ w)

line_item_lem :
    (tmp : List ℕ) (n split : ℕ)
    → length (c_str tmp) ≡ n
    → split_pos (c_str tmp) ≡ split
    → split + 2 ≤ n
    → line_item tmp
      ≡ done (record {
        key = strncpy cleared tmp split;
        value = strncpy cleared (drop (split + 1) tmp) (n - split - 2);
      })
unfolding line_item
line_item_lem tmp n split e f h = rw (e, f, le→ltb n (split + 2) h) refl

add_line_lem :
    (line tmp : List ℕ) (items : List ConfItem) (item : ConfItem)
    → memcpy cleared line (length line) ≡ tmp
    → 0 < length (c_str tmp)
    → line_item tmp ≡ done item
    → length items < max
    → add_line line items ≡ done (items ++ item ∷ [])
unfolding add_line
add_line_lem line tmp items item w h e l =
    let some_text : (length (c_str tmp) == 0) ≡ false = ground arith in
    rw (w, some_text, e, lt→ltb (length items) max l) refl

-- What stands behind the '='.
drop-line :
    (key w rest : List ℕ) (n : ℕ)
    → n ≡ suc (length key)
    → drop n ((key ++ 61 ∷ w) ++ rest) ≡ w ++ rest
drop-line [] w rest zero h = absurd (omega arith)
drop-line [] w rest (suc zero) h = refl
drop-line [] w rest (suc (suc n)) h = absurd (omega arith)
drop-line (c ∷ cs) w rest zero h = absurd (omega arith)
drop-line (c ∷ cs) w rest (suc n) h = drop-line cs w rest n (omega arith)

IsText-line : (key value : List ℕ) → IsEntry key value → IsText (line_of key value)
IsText-line key value v =
    All-append (λ c. c ≢ 0) key _ v.key_text
      (omega arith, All-append (λ c. c ≢ 0) value _ v.value_text (omega arith, tt))

pub length-line : (key value : List ℕ) → length (line_of key value) ≡ length key + length value + 2
length-line key value =
    omega (arith, length-append key (61 ∷ (value ++ 10 ∷ [])), length-append value (10 ∷ []))

-- What add_line appends for a line of the file.
pub add_line-entry :
    (key value : List ℕ) (items : List ConfItem)
    → IsEntry key value
    → length items < max
    → (item : ConfItem) × (add_line (line_of key value) items ≡ done (items ++ item ∷ []))
      × (c_str item.key ≡ key)
      × (c_str item.value ≡ value)
add_line-entry key value items v h =
    let line = line_of key value in
    let n = length-line key value in
    let t = IsText-line key value v in
    let tmp = line ++ drop (length line) cleared in
    let whole : memcpy cleared line (length line) ≡ tmp = rw (take-length line) refl in
    let text : c_str tmp ≡ line = c_str-written line t (omega (arith, v.fits)) in
    let split : split_pos (c_str tmp) ≡ length key =
      ap split_pos text ∙ split_pos-key key (value ++ 10 ∷ []) v.key_whole in
    let len : length (c_str tmp) ≡ length key + length value + 2 = ap length text ∙ n in
    let vlen : length key + length value + 2 - length key - 2 ≡ length value = omega arith in
    let behind : c_str (drop (length key + 1) tmp) ≡ value ++ 10 ∷ [] =
      ap c_str (
        drop-line key (value ++ 10 ∷ []) (drop (length line) cleared) (length key + 1) (omega arith)
        ∙ ap (λ r. (value ++ 10 ∷ []) ++ r) (drop-cleared (length line) (omega (arith, v.fits))))
      ∙ c_str-append_nul (value ++ 10 ∷ []) _
          (All-append (λ c. c ≢ 0) value _ v.value_text (omega arith, tt)) in
    (
      record {
        key = strncpy cleared tmp (length key);
        value = strncpy cleared (drop (length key + 1) tmp) (length value);
      },
      add_line_lem line tmp items _ whole (omega (arith, len))
          (line_item_lem tmp (length key + length value + 2) (length key) len split (omega arith)
            ∙ (rw vlen refl))
          h,
      c_str-strncpy tmp (length key) (omega (arith, len)) (omega (arith, v.fits))
          ∙ ap (take (length key)) text
          ∙ take-append_length key (61 ∷ (value ++ 10 ∷ [])) (length key) refl,
      c_str-strncpy (drop (length key + 1) tmp) (length value)
            (omega (arith, ap length behind, length-append value (10 ∷ []))) (omega (arith, v.fits))
          ∙ ap (take (length value)) behind
          ∙ take-append_length value (10 ∷ []) (length value) refl,
    )
