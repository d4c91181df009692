-- ===== src/Nat/Messages.antt =====
-- The layout of STUN messages, written down apart from the code, and what stun_rsp_unpack of
-- src/stun/nat_test.c makes of them.
use nose.Common.{
  ℕ, zero, suc, ◌+◌, ◌≤◌, ◌<◌, ◌≡◌, refl, sym, ap, ◌∙◌, ◌⊎◌, inl, inr, Bool, false, ◌||◌, ◌==◌,
  if◌then◌else◌, List, [], ◌∷◌, ◌++◌, length, drop, get_or, done, arith, le→ltb, length-append,
  length-drop, drop-append_length, All,
}
use mathlib.Core.Path.{subst}
use mathlib.Core.List.{append_assoc}
use nose.Common.Words.{htons, bytes16, u16_at, u32_at, IsU16, htons-htons, htons-lt}
use nose.Pmp.{Inet}
use nose.Pmp.Parse.{put_text}
use nose.Nat.{
  External, attribute, attribute_at, unpack_loop, load16, load32, load_text, mapped_addr, src_addr,
  change_addr, xor_mapped_addr,
}
use nose.Nat.Attributes.{loop_end, loop_step}

-- An attribute: its type and its value.
abbrev pub Attr : Type 0
Attr = ℕ × List ℕ

abbrev pub is_address : ℕ → Bool
is_address t = t == mapped_addr || t == src_addr || t == change_addr || t == xor_mapped_addr

-- It fits its fields, and an address has room for family, port and number.
pub record IsAttr (a : Attr) : Type 0 where
  pub type_fits : IsU16 a.0
  pub length_fits : IsU16 (length a.1)
  pub whole : (is_address a.0 ≡ false) ⊎ (8 ≤ length a.1)

abbrev pub attr_bytes : Attr → List ℕ
attr_bytes a = bytes16 (htons a.0) ++ bytes16 (htons (length a.1)) ++ a.1

unfoldable pub attrs_bytes : List Attr → List ℕ
attrs_bytes [] = []
attrs_bytes (a ∷ attrs) = attr_bytes a ++ attrs_bytes attrs

-- Four bytes of type and length, and 16 of the transaction id, stand before the attributes.
abbrev pub message : ℕ → List ℕ → List Attr → List ℕ
message type id attrs =
    bytes16 (htons type) ++ bytes16 (htons (length (attrs_bytes attrs))) ++ id ++ attrs_bytes attrs

module _ (net : Inet) where
  open net use {inet_ntoa}

  -- What one attribute changes: a mapped address is taken over.
  unfoldable pub taken_over : External → Attr → External
  taken_over ext a =
      if a.0 == mapped_addr
      then (put_text ext.0 (inet_ntoa (u32_at a.1 4)), htons (u16_at a.1 2))
      else ext

  unfoldable pub all_taken_over : External → List Attr → External
  all_taken_over ext [] = ext
  all_taken_over ext (a ∷ attrs) = all_taken_over (taken_over ext a) attrs

get_or-drop : (b xs : List ℕ) (i k : ℕ) → drop i b ≡ xs → get_or b (i + k) 0 ≡ get_or xs k 0
get_or-drop b xs zero k h = let e : 0 + k ≡ k = omega arith in rw e (ap (λ l. get_or l k 0) h)
get_or-drop [] xs (suc i) k h = subst (λ l. 0 ≡ get_or l k 0) h refl
get_or-drop (x ∷ b) xs (suc i) k h =
    let e : suc i + k ≡ suc (i + k) = omega arith in rw e (get_or-drop b xs i k h)

pub get_or-append : (xs ys : List ℕ) (k : ℕ) → k < length xs → get_or (xs ++ ys) k 0 ≡ get_or xs k 0
get_or-append [] ys k h = absurd (omega arith)
get_or-append (x ∷ xs) ys zero h = refl
get_or-append (x ∷ xs) ys (suc k) h = get_or-append xs ys k (omega arith)

drop_nil : (n : ℕ) → drop {A = ℕ} n [] ≡ []
drop_nil zero = refl
drop_nil (suc n) = refl

drop-drop : (i n : ℕ) (b : List ℕ) → drop (i + n) b ≡ drop n (drop i b)
drop-drop zero n b = let e : 0 + n ≡ n = omega arith in rw e refl
drop-drop (suc i) n [] = drop_nil (suc i + n) ∙ sym (drop_nil n)
drop-drop (suc i) n (x ∷ b) =
    let e : suc i + n ≡ suc (i + n) = omega arith in rw e (drop-drop i n b)

-- An attribute at an index of a buffer, with what is behind it.
record AttrAt (buf : List ℕ) (index : ℕ) (a : Attr) (rest : List ℕ) : Type 0 where
  here : drop index buf ≡ attr_bytes a ++ rest
  within : index ≤ length buf
  valid : IsAttr a

AttrAt-length :
    (buf : List ℕ) (index : ℕ) (a : Attr) (rest : List ℕ)
    → AttrAt buf index a rest
    → index + 4 + length a.1 ≤ length buf
AttrAt-length buf index a rest h =
    omega (arith, h.within, length-drop index buf, ap length h.here, length-append a.1 rest)

-- A byte of the value, read from the buffer.
value_at :
    (buf : List ℕ) (index : ℕ) (a : Attr) (rest : List ℕ) (k : ℕ)
    → AttrAt buf index a rest
    → k < length a.1
    → get_or buf (index + 4 + k) 0 ≡ get_or a.1 k 0
value_at buf index a rest k h l =
    let e : index + 4 + k ≡ index + suc (suc (suc (suc k))) = omega arith in
    rw e (
      get_or-drop buf (attr_bytes a ++ rest) index (suc (suc (suc (suc k)))) h.here
      ∙ get_or-append a.1 rest k l)

load_type :
    (buf : List ℕ) (index : ℕ) (a : Attr) (rest : List ℕ)
    → AttrAt buf index a rest
    → load16 buf index ≡ done (htons a.0)
unfolding load16
load_type buf index a rest h = ground (
  arith,
  AttrAt-length buf index a rest h,
  get_or-drop buf (attr_bytes a ++ rest) index 0 h.here,
  get_or-drop buf (attr_bytes a ++ rest) index 1 h.here,
  htons-lt a.0,
)

load_length :
    (buf : List ℕ) (index : ℕ) (a : Attr) (rest : List ℕ)
    → AttrAt buf index a rest
    → load16 buf (index + 2) ≡ done (htons (length a.1))
unfolding load16
load_length buf index a rest h = ground (
  arith,
  AttrAt-length buf index a rest h,
  get_or-drop buf (attr_bytes a ++ rest) index 2 h.here,
  get_or-drop buf (attr_bytes a ++ rest) index 3 h.here,
  htons-lt (length a.1),
)

load_value32 :
    (buf : List ℕ) (index : ℕ) (a : Attr) (rest : List ℕ)
    → AttrAt buf index a rest
    → 8 ≤ length a.1
    → load32 buf (index + 4 + 4) ≡ done (u32_at a.1 4)
unfolding load32
load_value32 buf index a rest h l = ground (
  arith,
  AttrAt-length buf index a rest h,
  value_at buf index a rest 4 h,
  value_at buf index a rest 5 h,
  value_at buf index a rest 6 h,
  value_at buf index a rest 7 h,
)

load_value16 :
    (buf : List ℕ) (index : ℕ) (a : Attr) (rest : List ℕ)
    → AttrAt buf index a rest
    → 8 ≤ length a.1
    → load16 buf (index + 4 + 2) ≡ done (u16_at a.1 2)
unfolding load16
load_value16 buf index a rest h l = ground (
  arith,
  AttrAt-length buf index a rest h,
  value_at buf index a rest 2 h,
  value_at buf index a rest 3 h,
)

-- The switch on an attribute that is there.
attribute-taken_over :
    (net : Inet) (buf : List ℕ) (index : ℕ) (a : Attr) (rest : List ℕ) (ext : External)
    → AttrAt buf index a rest
    → attribute net buf a.0 (length a.1) (index + 4) ext ≡ done (taken_over net ext a)
unfolding attribute taken_over load_text
attribute-taken_over net buf index a rest ext h = elim h.valid.whole [
  | inl other ↦ ground (arith, AttrAt-length buf index a rest h)
  | inr wide ↦
      let word = load_value32 buf index a rest h wide in
      let half = load_value16 buf index a rest h wide in
      rw (word, half) (ground (arith, AttrAt-length buf index a rest h))
]

attribute_at-taken_over :
    (net : Inet) (buf : List ℕ) (index : ℕ) (a : Attr) (rest : List ℕ) (ext : External)
    → AttrAt buf index a rest
    → attribute_at net buf index ext ≡ done (index + 4 + length a.1, taken_over net ext a)
unfolding attribute_at
attribute_at-taken_over net buf index a rest ext h = rw (
  load_type buf index a rest h,
  load_length buf index a rest h,
  htons-htons a.0 h.valid.type_fits,
  htons-htons (length a.1) h.valid.length_fits,
  attribute-taken_over net buf index a rest ext h,
)

next_attr :
    (buf : List ℕ) (index : ℕ) (a : Attr) (rest : List ℕ)
    → AttrAt buf index a rest
    → drop (index + 4 + length a.1) buf ≡ rest
next_attr buf index a rest h =
    let e : index + 4 + length a.1 ≡ index + (4 + length a.1) = omega arith in
    rw (e, drop-drop index (4 + length a.1) buf, h.here)
      (drop-append_length (attr_bytes a) rest (4 + length a.1) (omega arith))

-- The loop from the first of the attributes on, where `stop` is behind the last.
pub unpack_loop-all_taken_over :
    (net : Inet) (fuel : ℕ) (buf : List ℕ) (stop index : ℕ) (attrs : List Attr) (rest : List ℕ)
    (ext : External)
    → drop index buf ≡ attrs_bytes attrs ++ rest
    → index ≤ length buf
    → stop ≡ index + length (attrs_bytes attrs)
    → length (attrs_bytes attrs) ≤ fuel
    → All IsAttr attrs
    → unpack_loop net fuel buf stop index ext ≡ done (all_taken_over net ext attrs)
unfolding attrs_bytes all_taken_over
unpack_loop-all_taken_over net fuel buf stop index [] rest ext d w e f v =
    loop_end net fuel buf stop index ext (le→ltb index stop (omega arith))
unpack_loop-all_taken_over net zero buf stop index (a ∷ attrs) rest ext d w e f v =
    absurd (omega arith)
unpack_loop-all_taken_over net (suc fuel) buf stop index (a ∷ attrs) rest ext d w e f v =
    let h : AttrAt buf index a (attrs_bytes attrs ++ rest) = record {
      here = d ∙ append_assoc (attr_bytes a) (attrs_bytes attrs) rest;
      within = w;
      valid = v.0;
    } in
    let long = length-append (attr_bytes a) (attrs_bytes attrs) in
    let n = 4 + length a.1 in
    let next : drop (index + 4 + length a.1) buf ≡ attrs_bytes attrs ++ rest =
      next_attr buf index a (attrs_bytes attrs ++ rest) h in
    loop_step net fuel buf stop index ext _ (omega (arith, long))
      (attribute_at-taken_over net buf index a (attrs_bytes attrs ++ rest) ext h)
    ∙ unpack_loop-all_taken_over net fuel buf stop (index + 4 + length a.1) attrs rest
        (taken_over net ext a) next (AttrAt-length buf index a (attrs_bytes attrs ++ rest) h)
        (omega (arith, long)) (omega (arith, long)) v.1
