-- ===== src/Nat/Attributes.antt =====
-- The reader of STUN responses, stun_rsp_unpack of src/stun/nat_test.c: it comes to an end.
use nose.Common.{
  ℕ, zero, suc, ◌+◌, ◌≤◌, ◌<◌, ◌≡◌, ◌≢◌, refl, sym, ◌∙◌, ◌⊎◌, inl, inr, false, ltb, List, Outcome,
  done, blocked, fault, arith, Bool-cases, le→ltb, lt→ltb, ltb→lt,
}
use nose.Common.Words.{htons, u16_at}
use nose.Pmp.{Inet}
use nose.Nat.{
  External, attribute, attribute_at, unpack_loop, stun_rsp_unpack, load16, load32, load_text,
}

-- Every case of the switch returns or faults.
attribute-returns :
    (net : Inet) (buf : List ℕ) (type len index : ℕ) (ext : External)
    → attribute net buf type len index ext ≢ blocked
unfolding attribute load16 load32 load_text
attribute-returns net buf type len index ext e = ground arith

attribute_at-returns :
    (net : Inet) (buf : List ℕ) (index : ℕ) (ext : External)
    → attribute_at net buf index ext ≢ blocked
unfolding attribute_at attribute load16 load32 load_text
attribute_at-returns net buf index ext e = ground arith

-- A round moves on by four bytes at least.
attribute_at-moves :
    (net : Inet) (buf : List ℕ) (index : ℕ) (ext : External) (next : ℕ × External)
    → attribute_at net buf index ext ≡ done next
    → index + 4 ≤ next.0
unfolding attribute_at attribute load16 load32 load_text
attribute_at-moves net buf index ext next e = ground arith

returned {ℓ} : {A : Type ℓ} (o : Outcome A) → o ≢ blocked → (o ≡ fault) ⊎ ((a : A) × (o ≡ done a))
returned (done a) h = inr (a, refl)
returned blocked h = absurd (h refl)
returned fault h = inl refl

never {ℓ} : {A : Type ℓ} (a : A) → done a ≡ blocked → ⊥
never a p = cc

fault_returns {ℓ} : {A : Type ℓ} → ◌≡◌ {A = Outcome A} fault blocked → ⊥
fault_returns p = cc

pub loop_end :
    (net : Inet) (fuel : ℕ) (buf : List ℕ) (stop index : ℕ) (ext : External)
    → ltb index stop ≡ false
    → unpack_loop net fuel buf stop index ext ≡ done ext
unfolding unpack_loop
loop_end net zero buf stop index ext h = rw h
loop_end net (suc fuel) buf stop index ext h = rw (h, unpack_loop)

pub loop_step :
    (net : Inet) (fuel : ℕ) (buf : List ℕ) (stop index : ℕ) (ext : External) (next : ℕ × External)
    → index < stop
    → attribute_at net buf index ext ≡ done next
    → unpack_loop net (suc fuel) buf stop index ext ≡ unpack_loop net fuel buf stop next.0 next.1
unfolding unpack_loop
loop_step net fuel buf stop index ext next h e = rw (lt→ltb index stop h, e, unpack_loop)

loop_fault :
    (net : Inet) (fuel : ℕ) (buf : List ℕ) (stop index : ℕ) (ext : External)
    → index < stop
    → attribute_at net buf index ext ≡ fault
    → unpack_loop net (suc fuel) buf stop index ext ≡ fault
unfolding unpack_loop
loop_fault net fuel buf stop index ext h e = rw (lt→ltb index stop h, e, unpack_loop)

-- As much fuel as there are bytes to read is enough.
unpack_loop-returns :
    (net : Inet) (fuel : ℕ) (buf : List ℕ) (stop index : ℕ) (ext : External)
    → stop ≤ index + fuel
    → unpack_loop net fuel buf stop index ext ≢ blocked
unpack_loop-returns net zero buf stop index ext h e =
    never ext (sym (loop_end net 0 buf stop index ext (le→ltb index stop (omega arith))) ∙ e)
unpack_loop-returns net (suc fuel) buf stop index ext h e = elim (Bool-cases (ltb index stop)) [
  | inr past ↦ never ext (sym (loop_end net (suc fuel) buf stop index ext past) ∙ e)
  | inl more ↦
      elim (returned (attribute_at net buf index ext) (attribute_at-returns net buf index ext)) [
        | inl bad ↦
            fault_returns
              (sym (loop_fault net fuel buf stop index ext (ltb→lt index stop more) bad) ∙ e)
        | inr (next, r) ↦
            unpack_loop-returns net fuel buf stop next.0 next.1
              (omega (arith, attribute_at-moves net buf index ext next r))
              (sym (loop_step net fuel buf stop index ext next (ltb→lt index stop more) r) ∙ e)
      ]
]

-- stun_rsp_unpack comes to an end, with whatever bytes in the buffer: it returns, or reads outside
-- the buffer.
pub stun_rsp_unpack-returns :
    (net : Inet) (buf : List ℕ) (size : ℕ) (ext : External)
    → stun_rsp_unpack net buf size ext ≢ blocked
unfolding stun_rsp_unpack load16
stun_rsp_unpack-returns net buf size ext e = ground (
  arith,
  unpack_loop-returns net (20 + htons (u16_at buf 2)) buf (20 + htons (u16_at buf 2)) 20 ext
      (omega arith),
)
