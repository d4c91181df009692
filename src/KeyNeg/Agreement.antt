-- ===== src/KeyNeg/Agreement.antt =====
-- Two sides of src/key_neg.c that exchange their public keys.
use nose.Common.{
  ℕ, ◌≡◌, refl, sym, ap, ◌∙◌, Bool, true, false, some, List, ◌++◌, length, take, replicate, ok,
  arith, Option-cases, inl, inr, take-length, eq_of_some, take-append_length,
}
use mathlib.Core.List.{append-nil}
use nose.Pmp.Fields.{drop-length}
use mathlib.Core.Path.{subst}
use nose.KeyNeg.{
  Ecdh, KeyNeg, key_neg_make_public, key_neg_make_secret, key_neg_pkt, key_neg_pkt_validate,
}

-- What a successful key_neg_make_public leaves.
record Made (ecdh : Ecdh) (neg : KeyNeg) : Type 0 where
  ctr_drbg : ℕ
  generated : ecdh.gen_public ctr_drbg ≡ some (neg.d, neg.q)
  put : ecdh.write_binary neg.q ≡ some neg.pub_key
  blank : neg.sec_key ≡ replicate 32 0

make_public-Made :
    (ecdh : Ecdh) (entropy : List ℕ) (neg a : KeyNeg)
    → key_neg_make_public ecdh entropy neg ≡ (ok, a)
    → Made ecdh a
unfolding key_neg_make_public
make_public-Made ecdh entropy neg a e = elim (Option-cases (ecdh.seed entropy)) [
  | inl unseeded ↦ absurd (ground arith)
  | inr (r, p) ↦ record {
    ctr_drbg = r;
    generated = ground arith;
    put = ground arith;
    blank = ground arith;
  }
]

-- The packet of a public key of 32 bytes brings it over.
pkt_validate-pkt :
    (mem : Bool) (id : ℕ) (key bytes rest blank : List ℕ)
    → length key ≡ 32
    → length blank ≡ 32
    → key_neg_pkt mem id key 32 ≡ some bytes
    → key_neg_pkt_validate (bytes ++ rest) blank 32 ≡ (ok, key)
unfolding key_neg_pkt key_neg_pkt_validate
pkt_validate-pkt true id key bytes rest blank l k e =
    let all : take 32 key ≡ key = rw (sym l) (take-length key) in
    subst (λ b. key_neg_pkt_validate (b ++ rest) blank 32 ≡ (ok, key)) (eq_of_some e)
      (rw
        (
          all,
          take-append_length key rest 32 (sym l),
          all,
          drop-length 32 blank (sym k),
          append-nil key,
        )
        refl)
pkt_validate-pkt false id key bytes rest blank l k e = cc

-- What key_neg_make_secret computes at one side, from its private number and the other's bytes.
record Computed (ecdh : Ecdh) (heap rng : ℕ) (neg neg' : KeyNeg) (key : List ℕ) : Type 0 where
  other : ℕ
  z : ℕ
  taken : ecdh.read_binary heap key ≡ some other
  shared : ecdh.compute_shared heap rng neg.d other ≡ some z
  put : ecdh.write_binary z ≡ some neg'.sec_key

make_secret-Computed :
    (ecdh : Ecdh) (heap rng : ℕ) (neg neg' : KeyNeg) (key : List ℕ)
    → length key ≡ 32
    → key_neg_make_secret ecdh heap rng neg key 32 ≡ (ok, neg')
    → Computed ecdh heap rng neg neg' key
unfolding key_neg_make_secret
make_secret-Computed ecdh heap rng neg neg' key l e =
    let all : take 32 key ≡ key = rw (sym l) (take-length key) in
    let e' = rw (all, key_neg_make_secret) at e in
    elim (Option-cases (ecdh.read_binary heap key)) [
      | inl unread ↦ absurd (ground arith)
      | inr (other, p) ↦ elim (Option-cases (ecdh.compute_shared heap rng neg.d other)) [
        | inl none_left ↦ absurd (ground arith)
        | inr (z, q) ↦ record { other = other; z = z; taken = p; shared = q; put = ground arith }
      ]
    ]

-- When two sides have made their keys and send each other their public keys of 32 bytes in packets,
-- with memory for these, each takes the other's key from its packet. Where both then compute a
-- secret from the key taken, with whatever memory and generator, the secrets are the same 32 bytes.
pub make_secret-same :
    (ecdh : Ecdh) (entropy entropy' : List ℕ) (neg neg' a b a' b' : KeyNeg)
    (id id' heap heap' rng rng' : ℕ) (bytes bytes' rest rest' blank blank' : List ℕ)
    → key_neg_make_public ecdh entropy neg ≡ (ok, a)
    → key_neg_make_public ecdh entropy' neg' ≡ (ok, b)
    → key_neg_pkt true id a.pub_key 32 ≡ some bytes
    → key_neg_pkt true id' b.pub_key 32 ≡ some bytes'
    → length blank ≡ 32
    → length blank' ≡ 32
    → key_neg_make_secret ecdh heap rng a b.pub_key 32 ≡ (ok, a')
    → key_neg_make_secret ecdh heap' rng' b a.pub_key 32 ≡ (ok, b')
    → (key_neg_pkt_validate (bytes ++ rest) blank 32 ≡ (ok, a.pub_key))
      × (key_neg_pkt_validate (bytes' ++ rest') blank' 32 ≡ (ok, b.pub_key))
      × (a'.sec_key ≡ b'.sec_key)
      × (length a'.sec_key ≡ 32)
make_secret-same ecdh entropy entropy' neg neg' a b a' b' id id' heap heap' rng rng' bytes bytes'
      rest rest' blank blank' e e' p p' l l' s s' =
    let m = make_public-Made ecdh entropy neg a e in
    let m' = make_public-Made ecdh entropy' neg' b e' in
    let w = ecdh.write_length a.q a.pub_key m.put in
    let w' = ecdh.write_length b.q b.pub_key m'.put in
    let c = make_secret-Computed ecdh heap rng a a' b.pub_key w' s in
    let c' = make_secret-Computed ecdh heap' rng' b b' a.pub_key w s' in
    let read : c.other ≡ b.q = ecdh.read-write heap b.q c.other b.pub_key m'.put c.taken in
    let read' : c'.other ≡ a.q = ecdh.read-write heap' a.q c'.other a.pub_key m.put c'.taken in
    let meet : c.z ≡ c'.z =
      ecdh.shared_same heap heap' rng rng' m.ctr_drbg m'.ctr_drbg a.d a.q b.d b.q c.z c'.z
        m.generated m'.generated
        (subst (λ q. ecdh.compute_shared heap rng a.d q ≡ some c.z) read c.shared)
        (subst (λ q. ecdh.compute_shared heap' rng' b.d q ≡ some c'.z) read' c'.shared) in
    (
      pkt_validate-pkt true id a.pub_key bytes rest blank w l p,
      pkt_validate-pkt true id' b.pub_key bytes' rest' blank' w' l' p',
      eq_of_some (sym c.put ∙ ap ecdh.write_binary meet ∙ c'.put),
      ecdh.write_length c.z a'.sec_key c.put,
    )
