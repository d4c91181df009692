-- ===== src/Pmp/Ping.antt =====
-- Round trips of the packets of src/pmp.h that carry two names: pings and their responses,
-- get-peers requests, and registry responses.
use nose.Common.{
  ℕ, ◌≤◌, ◌≡◌, refl, sym, ◌⊎◌, inl, inr, List, ◌++◌, length, drop, some, arith, Status, ok,
  length-append, length-drop, le→ltb, eq_of_some,
}
use mathlib.Core.Path.{subst}
use nose.Common.Strings.{c_str, take-c_str, memcpy}
use nose.Pmp.{PmpPingReq, PmpHeader, ping_req_bytes}
use nose.Pmp.Build.{ping_req_pkt, ping_rsp_pkt, peer_registry_rsp_pkt, get_peers_req_pkt, copy_text}
use nose.Pmp.Parse.{ping_req_unpack, ping_req_len, id_copied}
use nose.Pmp.Fields.{IsNodeId, first_of_two, second_of_two, memcpy-id, c_str-id_copied}

-- A structure whose name fields are 20 bytes wide, as malloc gives it.
pub record IsPingReq (p : PmpPingReq) : Type 0 where
  pub target_wide : length p.target_id ≡ 20
  pub source_wide : length p.source_id ≡ 20

ping_req_unpack-bytes :
    (p : PmpPingReq) (src tgt rest : List ℕ) (size : ℕ)
    → IsPingReq p
    → ping_req_len ≤ size
    → ping_req_unpack src tgt (ping_req_bytes p ++ rest) size
      ≡ (ok, id_copied src p.source_id, id_copied tgt p.target_id)
unfolding ping_req_unpack
ping_req_unpack-bytes p src tgt rest size v h = rw (
  le→ltb size ping_req_len h,
  first_of_two 20 p.target_id p.source_id rest (sym v.target_wide),
  second_of_two 20 20 p.target_id p.source_id rest (sym v.target_wide) (sym v.source_wide),
)

-- What a receiver has: the packet was accepted, and the two texts are these.
abbrev pub Received : Status × List ℕ × List ℕ → List ℕ → List ℕ → Type 0
Received r source target = (r.0 ≡ ok) × (c_str r.1 ≡ c_str source) × (c_str r.2 ≡ c_str target)

Received-bytes :
    (p : PmpPingReq) (src tgt rest : List ℕ) (size : ℕ)
    → IsPingReq p
    → length src ≡ 21
    → length tgt ≡ 21
    → ping_req_len ≤ size
    → Received (ping_req_unpack src tgt (ping_req_bytes p ++ rest) size) p.source_id p.target_id
Received-bytes p src tgt rest size v hs ht h = rw (ping_req_unpack-bytes p src tgt rest size v h) (
  refl,
  c_str-id_copied src p.source_id hs v.source_wide,
  c_str-id_copied tgt p.target_id ht v.target_wide,
)

-- Two names, the arrays of a receiver and a block of memory from malloc.
pub record Exchange (blk : PmpPingReq) (source s target t src tgt : List ℕ) : Type 0 where
  pub block : IsPingReq blk
  pub source_name : IsNodeId source s
  pub target_name : IsNodeId target t
  pub src_wide : length src ≡ 21
  pub tgt_wide : length tgt ≡ 21

module _ (blk : PmpPingReq) (source s target t src tgt rest : List ℕ) (size : ℕ)
    (v : Exchange blk source s target t src tgt) (h : ping_req_len ≤ size) where
  named : PmpHeader → ℕ → PmpPingReq
  named header reserve = record {
    header = header;
    reserve = reserve;
    target_id = memcpy blk.target_id target 20;
    source_id = memcpy blk.source_id source 20;
  }

  named-Received :
      (header : PmpHeader) (reserve : ℕ)
      → Received (ping_req_unpack src tgt (ping_req_bytes (named header reserve) ++ rest) size) s t
  unfolding named
  named-Received header reserve =
      rw
        (
          memcpy-id blk.target_id target t v.target_name v.block.target_wide,
          memcpy-id blk.source_id source s v.source_name v.block.source_wide,
        )
        (Received-bytes
          (record { header = header; reserve = reserve; target_id = t; source_id = s }) src tgt rest
          size (record { target_wide = v.target_name.wide; source_wide = v.source_name.wide })
          v.src_wide v.tgt_wide h)

  named-sent :
      (header : PmpHeader) (reserve : ℕ) (bytes : List ℕ)
      → some (ping_req_bytes (named header reserve)) ≡ some bytes
      → Received (ping_req_unpack src tgt (bytes ++ rest) size) s t
  named-sent header reserve bytes e =
      subst (λ b. Received (ping_req_unpack src tgt (b ++ rest) size) s t) (eq_of_some e)
        (named-Received header reserve)

-- A ping, its response and a registry response, built over any block from malloc from two names
-- of 20 bytes, followed by anything and read at their size of 44 bytes or more, are accepted, and
-- the reader has the texts of the two names.
pub ping-Received :
    (blk : PmpPingReq) (source s target t src tgt rest bytes : List ℕ) (size : ℕ)
    → Exchange blk source s target t src tgt
    → ping_req_len ≤ size
    → (ping_req_pkt (some blk) source target ≡ some bytes)
      ⊎ (ping_rsp_pkt (some blk) source target ≡ some bytes)
      ⊎ (peer_registry_rsp_pkt (some blk) source target ≡ some bytes)
    → Received (ping_req_unpack src tgt (bytes ++ rest) size) s t
unfolding ping_req_pkt ping_rsp_pkt peer_registry_rsp_pkt named
ping-Received blk source s target t src tgt rest bytes size v h (inl e) =
    named-sent blk source s target t src tgt rest size v h _ 0 bytes e
ping-Received blk source s target t src tgt rest bytes size v h (inr (inl e)) =
    named-sent blk source s target t src tgt rest size v h _ blk.reserve bytes e
ping-Received blk source s target t src tgt rest bytes size v h (inr (inr e)) =
    named-sent blk source s target t src tgt rest size v h _ blk.reserve bytes e

pub copy_text-c_str :
    (field id : List ℕ) → copy_text field id ≡ c_str id ++ drop (length (c_str id)) field
copy_text-c_str field id = rw (take-c_str id)

pub length-copied :
    (field s : List ℕ)
    → length field ≡ 20
    → length s ≤ 20
    → length (s ++ drop (length s) field) ≡ 20
length-copied field s h k =
    omega (arith, length-append s (drop (length s) field), length-drop (length s) field)

-- A get-peers request takes only the text of each name: a name shorter than 20 bytes arrives with
-- whatever malloc's block held behind it, up to the first NUL there.
pub get_peers_req-Received :
    (blk : PmpPingReq) (source target src tgt rest bytes : List ℕ) (size : ℕ)
    → IsPingReq blk
    → length (c_str source) ≤ 20
    → length (c_str target) ≤ 20
    → length src ≡ 21
    → length tgt ≡ 21
    → ping_req_len ≤ size
    → get_peers_req_pkt (some blk) source target ≡ some bytes
    → Received
        (ping_req_unpack src tgt (bytes ++ rest) size)
        (c_str source ++ drop (length (c_str source)) blk.source_id)
        (c_str target ++ drop (length (c_str target)) blk.target_id)
unfolding get_peers_req_pkt
get_peers_req-Received blk source target src tgt rest bytes size v hs ht ls lt h e =
    subst
      (λ b.
        Received (ping_req_unpack src tgt (b ++ rest) size)
          (c_str source ++ drop (length (c_str source)) blk.source_id)
          (c_str target ++ drop (length (c_str target)) blk.target_id))
      (eq_of_some e)
      (rw (copy_text-c_str blk.source_id source, copy_text-c_str blk.target_id target)
        (Received-bytes
          (record {
            header = record { type = 2; code = 0 };
            reserve = 0;
            target_id = c_str target ++ drop (length (c_str target)) blk.target_id;
            source_id = c_str source ++ drop (length (c_str source)) blk.source_id;
          })
          src tgt rest size
          (record {
            target_wide = length-copied blk.target_id (c_str target) v.target_wide ht;
            source_wide = length-copied blk.source_id (c_str source) v.source_wide hs;
          })
          ls lt h))
