-- ===== src/ConfReader/Rounds.antt =====
-- Whether the loop of src/conf/conf-reader.c comes to an end.
use nose.Common.{
  ℕ, zero, suc, ◌+◌, ◌-◌, ◌<◌, ◌≡◌, refl, ◌⊎◌, inl, inr, Bool, true, false, if◌then◌else◌, List, [],
  ◌∷◌, length, Outcome, done, blocked, fault, ◌>>=◌, arith, Bool-cases, Status,
}
use nose.ConfReader.{
  ConfItem, ConfReader, readable, max, fgets, line_item, add_line, conf_loop, conf_parser,
}

-- A result, or undefined behaviour.
abbrev pub Returns {ℓ} : {A : Type ℓ} → Outcome A → Type ℓ
Returns {A = A} x = ((a : A) × (x ≡ done a)) ⊎ (x ≡ fault)

-- Unless it meets the end, fgets takes something from the file.
fgets-shorter :
    (n : ℕ) (file : List ℕ)
    → (fgets (suc n) false file).2 ≡ false
    → length (fgets (suc n) false file).1 < length file
unfolding fgets
fgets-shorter n [] h = cc
fgets-shorter zero (c ∷ cs) h = ground arith
fgets-shorter (suc n) (c ∷ cs) h = ground (arith, fgets-shorter n cs)

Returns-if {ℓ} :
    {A : Type ℓ} (b : Bool) {x y : Outcome A} → Returns x → Returns y → Returns (if b then x else y)
Returns-if true r q = r
Returns-if false r q = q

Returns-bind {ℓ κ} :
    {A : Type ℓ} {B : Type κ} {m : Outcome A} {f : A → Outcome B}
    → Returns m
    → ((a : A) → Returns (f a))
    → Returns (m >>= f)
Returns-bind {m = done a} r k = k a
Returns-bind {m = blocked} (inl (a, e)) k = cc
Returns-bind {m = blocked} (inr e) k = cc
Returns-bind {m = fault} r k = inr refl

line_item-Returns : (tmp : List ℕ) → Returns (line_item tmp)
unfolding line_item
line_item-Returns tmp = Returns-if _ (inr refl) (inl (_, refl))

add_line-Returns : (line : List ℕ) (items : List ConfItem) → Returns (add_line line items)
unfolding add_line
add_line-Returns line items =
    Returns-if _ (inl (items, refl))
      (Returns-bind (line_item-Returns _) (λ item. Returns-if _ (inl (_, refl)) (inr refl)))

conf_loop-Returns :
    (fuel : ℕ) (file : List ℕ) (items : List ConfItem)
    → length file < fuel
    → Returns (conf_loop fuel false file items)
unfolding conf_loop
conf_loop-Returns zero file items h = absurd (omega arith)
conf_loop-Returns (suc fuel) file items h =
    Returns-bind (add_line-Returns (fgets (max - 1) false file).0 items) (λ items'.
      elim (Bool-cases (fgets (max - 1) false file).2) [
        | inl eof ↦ rw eof (inl (items', refl))
        | inr more ↦ rw more (
            conf_loop-Returns fuel (fgets (max - 1) false file).1 items'
              (omega (arith, fgets-shorter 1022 file more)))
      ])

-- An error of the medium is never taken for the end.
fgets-broken : (n : ℕ) (file : List ℕ) → (fgets n true file).2 ≡ false
unfolding fgets
fgets-broken zero file = refl
fgets-broken (suc n) [] = refl
fgets-broken (suc n) (c ∷ cs) = ground (arith, fgets-broken n cs)

-- Not a result.
abbrev pub Hangs {ℓ} : {A : Type ℓ} → Outcome A → Type ℓ
Hangs x = (x ≡ blocked) ⊎ (x ≡ fault)

Hangs-bind {ℓ κ} :
    {A : Type ℓ} {B : Type κ} {m : Outcome A} {f : A → Outcome B}
    → Returns m
    → ((a : A) → Hangs (f a))
    → Hangs (m >>= f)
Hangs-bind {m = done a} r k = k a
Hangs-bind {m = blocked} (inl (a, e)) k = cc
Hangs-bind {m = blocked} (inr e) k = cc
Hangs-bind {m = fault} r k = inr refl

conf_loop-broken :
    (fuel : ℕ) (file : List ℕ) (items : List ConfItem) → Hangs (conf_loop fuel true file items)
unfolding conf_loop
conf_loop-broken zero file items = inl refl
conf_loop-broken (suc fuel) file items =
    Hangs-bind (add_line-Returns (fgets (max - 1) true file).0 items) (λ items'.
      rw (fgets-broken (max - 1) file) (conf_loop-broken fuel (fgets (max - 1) true file).1 items'))

-- With a file that can be read to its end, the loop of conf_parser comes to an end: the reader is
-- filled, or a line makes the program run into undefined behaviour. When an error of the medium
-- comes instead of the end, the loop never comes to an end with a result: after any number of
-- rounds it still runs, or has run into undefined behaviour.
pub conf_parser-Returns :
    (reader : ConfReader) (bytes : List ℕ) (rounds : ℕ)
    → (((r : Status × ConfReader) × (conf_parser reader (readable bytes) ≡ done r))
        ⊎ (conf_parser reader (readable bytes) ≡ fault))
      × ((conf_loop rounds true bytes reader.items ≡ blocked)
          ⊎ (conf_loop rounds true bytes reader.items ≡ fault))
unfolding conf_parser
conf_parser-Returns reader bytes rounds = (
  Returns-bind (conf_loop-Returns (length bytes + 1) bytes reader.items (omega arith))
      (λ items. inl (_, refl)),
  conf_loop-broken rounds bytes reader.items,
)
