-- ===== src/Nat/Reading.antt =====
-- What stun_rsp_unpack of src/stun/nat_test.c finds in a message: the last mapped address.
use nose.Common.{
  ℕ, ◌+◌, ◌≤◌, ◌<◌, ◌≡◌, refl, sym, ◌==◌, if◌then◌else◌, List, [], ◌∷◌, ◌++◌, length, drop, done,
  ok, arith, Bool-cases, inl, inr, le→ltb, length-append, drop-append_length, Option, none, some,
  All, Option-cases,
}
use nose.Common.Words.{htons, u16_at, u32_at, IsU16, htons-htons, htons-lt}
use nose.Common.Strings.{c_str}
use nose.Pmp.{Inet}
use nose.Pmp.Fields.{c_str-put_text, length-put_text}
use nose.Nat.{External, stun_rsp_unpack, mapped_addr, load16}
use nose.Nat.Messages.{
  Attr, IsAttr, attrs_bytes, message, taken_over, all_taken_over, unpack_loop-all_taken_over,
}
use mathlib.Core.List.{append_assoc}
use mathlib.Core.Path.{subst}

-- Number and port of the last mapped address.
unfoldable pub last_mapped : List Attr → Option (ℕ × ℕ)
last_mapped [] = none
last_mapped (a ∷ attrs) = elim (last_mapped attrs) [
  | some found ↦ some found
  | none ↦ if a.0 == mapped_addr then some (u32_at a.1 4, htons (u16_at a.1 2)) else none
]

-- What the caller has after the reader: a found address as a text, and its port.
abbrev pub IsFound : Inet → External → Option (ℕ × ℕ) → External → Type 0
IsFound net ext none ext' = ext' ≡ ext
IsFound net ext (some (number, port)) ext' = (c_str ext'.0 ≡ net.inet_ntoa number) × (ext'.1 ≡ port)

module _ (net : Inet) where
  open net use {inet_ntoa, ntoa_text, ntoa_short}

  length-taken_over :
      (ext : External) (a : Attr) → 15 < length ext.0 → 15 < length (taken_over net ext a).0
  unfolding taken_over
  length-taken_over ext a h = elim (Bool-cases (a.0 == mapped_addr)) [
    | inr other ↦ rw other h
    | inl mapped ↦
        rw mapped (
          omega
            (arith, ntoa_short (u32_at a.1 4), length-put_text ext.0 (inet_ntoa (u32_at a.1 4))))
  ]

  length-all_taken_over :
      (attrs : List Attr) (ext : External)
      → 15 < length ext.0
      → 15 < length (all_taken_over net ext attrs).0
  unfolding all_taken_over
  length-all_taken_over [] ext h = h
  length-all_taken_over (a ∷ attrs) ext h =
      length-all_taken_over attrs (taken_over net ext a) (length-taken_over ext a h)

  abbrev own : Attr → Option (ℕ × ℕ)
  own a = if a.0 == mapped_addr then some (u32_at a.1 4, htons (u16_at a.1 2)) else none

  taken_over-IsFound :
      (a : Attr) (ext : External)
      → 15 < length ext.0
      → IsFound net ext (own a) (taken_over net ext a)
  unfolding taken_over
  taken_over-IsFound a ext h = elim (Bool-cases (a.0 == mapped_addr)) [
    | inr other ↦ rw other refl
    | inl mapped ↦
        let short = ntoa_short (u32_at a.1 4) in
        rw mapped (
          c_str-put_text ext.0 (inet_ntoa (u32_at a.1 4)) (ntoa_text (u32_at a.1 4)) (omega arith),
          refl,
        )
  ]

  all_taken_over-IsFound :
      (attrs : List Attr) (ext : External)
      → 15 < length ext.0
      → IsFound net ext (last_mapped attrs) (all_taken_over net ext attrs)
  unfolding last_mapped all_taken_over taken_over
  all_taken_over-IsFound [] ext h = refl
  all_taken_over-IsFound (a ∷ attrs) ext h =
      let rest = all_taken_over-IsFound attrs (taken_over net ext a) (length-taken_over ext a h) in
      let end = all_taken_over net (taken_over net ext a) attrs in
      elim (Option-cases (last_mapped attrs)) [
        | inr (found, e) ↦ rw e (subst (λ o. IsFound net (taken_over net ext a) o end) e rest)
        | inl e ↦
            let last = subst (λ o. IsFound net (taken_over net ext a) o end) e rest in
            rw e (subst (IsFound net ext (own a)) (sym last) (taken_over-IsFound a ext h))
      ]

  behind_id :
      (type : ℕ) (id : List ℕ) (attrs : List Attr) (rest : List ℕ)
      → length id ≡ 16
      → drop 20 (message type id attrs ++ rest) ≡ attrs_bytes attrs ++ rest
  behind_id type id attrs rest i =
      rw (append_assoc id (attrs_bytes attrs) rest)
        (drop-append_length id (attrs_bytes attrs ++ rest) 16 (sym i))

  load_total :
      (type : ℕ) (id : List ℕ) (attrs : List Attr) (rest : List ℕ)
      → load16 (message type id attrs ++ rest) 2 ≡ done (htons (length (attrs_bytes attrs)))
  unfolding load16
  load_total type id attrs rest = ground (arith, htons-lt (length (attrs_bytes attrs)))

  -- A message with its type, a transaction id of 16 bytes and well-formed attributes in fewer than
  -- 2 ^ 16 bytes, which has arrived whole, is accepted: the caller's array of at least 16 bytes
  -- then holds the text of the last mapped address, and the port is its port; without a mapped
  -- address both are unchanged. The array keeps its room. What else stands in the buffer does not matter.
  pub stun_rsp_unpack-message :
      (type : ℕ) (id : List ℕ) (attrs : List Attr) (rest : List ℕ) (size : ℕ) (ext : External)
      → length id ≡ 16
      → All IsAttr attrs
      → IsU16 (length (attrs_bytes attrs))
      → length (message type id attrs) ≤ size
      → 15 < length ext.0
      → (ext' : External) × (stun_rsp_unpack net (message type id attrs ++ rest) size ext
          ≡ done (ok, ext'))
        × IsFound net ext (last_mapped attrs) ext'
        × (15 < length ext'.0)
  unfolding stun_rsp_unpack
  stun_rsp_unpack-message type id attrs rest size ext i v s l h =
      let total = length (attrs_bytes attrs) in
      let buf = message type id attrs ++ rest in
      let long = length-append id (attrs_bytes attrs) in
      let loop =
        unpack_loop-all_taken_over net (20 + total) buf (20 + total) 20 attrs rest ext
          (behind_id type id attrs rest i)
          (omega (arith, long, length-append (id ++ attrs_bytes attrs) rest)) refl (omega arith)
          v in
      (
        all_taken_over net ext attrs,
        rw (
          le→ltb size 20 (omega (arith, long)),
          load_total type id attrs rest,
          htons-htons total s,
          le→ltb size (20 + total) (omega (arith, long)),
          loop,
        ),
        all_taken_over-IsFound attrs ext h,
        length-all_taken_over attrs ext h,
      )
