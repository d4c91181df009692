-- ===== src/Pmp/Named.antt =====
-- The names of pings and their responses, as src/pmp.c reads them and sends them on.
use nose.Common.{
  ℕ, ◌≤◌, ◌≡◌, refl, sym, ap, ◌∙◌, some, List, [], ◌∷◌, ◌++◌, length, arith, ok, length-append,
  le→ltb,
}
use mathlib.Core.Path.{subst}
use nose.Common.Strings.{c_str, padded, length-padded, memcpy}
use nose.Common.Words.{u8_at}
use nose.Pmp.{PmpPingReq}
use nose.Pmp.Build.{ping_req_pkt, ping_rsp_pkt}
use nose.Pmp.Parse.{ping_req_unpack, id_copied}
use nose.Pmp.Fields.{IsNodeId, memcpy-id, last_of, set-append_length}
use nose.Pmp.Ping.{IsPingReq, Received}

pub c_str-ended : (s : List ℕ) → c_str (s ++ 0 ∷ []) ≡ c_str s
unfolding c_str
c_str-ended [] = refl
c_str-ended (c ∷ cs) = ground (arith, c_str-ended cs)

-- A name that strncpy brought back is one for the packets.
pub id_copied-IsNodeId :
    (id field : List ℕ) → length id ≡ 21 → IsNodeId (id_copied id field) (padded 20 (c_str field))
id_copied-IsNodeId id field h =
    let (x, e) = last_of 20 id h in
    let n = length-padded 20 (c_str field) in
    record {
      wide = n;
      ended = rw e (set-append_length (padded 20 (c_str field)) [] x 0 20 (sym n));
    }

-- The array of a name that a reader filled in, with its text.
pub record Named (id : List ℕ) (text : List ℕ) : Type 0 where
  pub name : List ℕ
  pub is_id : IsNodeId id name
  pub says : c_str name ≡ text

-- The array that a field was copied to says what the field says.
pub copied-Named :
    (id field text : List ℕ)
    → length id ≡ 21
    → c_str (id_copied id field) ≡ text
    → Named (id_copied id field) text
copied-Named id field text h e =
    let v = id_copied-IsNodeId id field h in
    record {
      name = padded 20 (c_str field);
      is_id = v;
      says = sym (c_str-ended (padded 20 (c_str field))) ∙ ap c_str (sym v.ended) ∙ e;
    }

pub unpack-copied :
    (src tgt b : List ℕ) (size : ℕ)
    → 44 ≤ size
    → (from : List ℕ) × (to : List ℕ) × (ping_req_unpack src tgt b size
        ≡ (ok, id_copied src from, id_copied tgt to))
unfolding ping_req_unpack
unpack-copied src tgt b size h = rw (le→ltb size 44 h) (_, _, refl)

pub read-Named :
    (src tgt b source target : List ℕ) (size : ℕ)
    → length src ≡ 21
    → length tgt ≡ 21
    → 44 ≤ size
    → Received (ping_req_unpack src tgt b size) source target
    → Named (ping_req_unpack src tgt b size).1 (c_str source)
      × Named (ping_req_unpack src tgt b size).2 (c_str target)
read-Named src tgt b source target size hs ht h r =
    let (from, to, e) = unpack-copied src tgt b size h in
    let (x, y, z) = subst (λ p. Received p source target) e r in
    subst (λ p. Named p.1 (c_str source) × Named p.2 (c_str target)) (sym e)
      (copied-Named src from (c_str source) hs y, copied-Named tgt to (c_str target) ht z)

module _ (blk : PmpPingReq) (source s target t : List ℕ) (hs : IsNodeId source s)
    (ht : IsNodeId target t) (v : IsPingReq blk) where
  -- The two names of a packet take 40 bytes.
  length-names : length (memcpy blk.target_id target 20 ++ memcpy blk.source_id source 20) ≡ 40
  length-names =
      rw
        (
          memcpy-id blk.target_id target t ht v.target_wide,
          memcpy-id blk.source_id source s hs v.source_wide,
        )
        (omega (arith, length-append t s, hs.wide, ht.wide))

  pub request_shape :
      (rest : List ℕ)
      → (bytes : List ℕ) × (ping_req_pkt (some blk) source target ≡ some bytes)
        × (length bytes ≡ 44)
        × (u8_at (bytes ++ rest) 0 ≡ 1)
        × (u8_at (bytes ++ rest) 1 ≡ 0)
  unfolding ping_req_pkt
  request_shape rest = (_, refl, omega (arith, length-names), refl, refl)

  pub response_shape :
      (bytes : List ℕ) × (ping_rsp_pkt (some blk) source target ≡ some bytes) × (length bytes ≡ 44)
  unfolding ping_rsp_pkt
  response_shape = (_, refl, omega (arith, length-names))
