-- ===== src/MasterPeer/Answers.antt =====
-- How src/master_peer.c answers a get-peers request.
use nose.Common.{
  ℕ, ◌≤◌, ◌<◌, ◌≡◌, refl, sym, ap, ◌∙◌, false, some, List, ◌++◌, length, take, drop, min, arith,
  done, ok, lt→ltb, length-append, eq_of_some, ltb, Bool-cases, inl, inr, take-append_length,
  take-append_le, take_long,
}
use mathlib.Core.Path.{subst}
use nose.Common.Strings.{c_str, length-c_str}
use nose.Common.Words.{u8_at}
use nose.Bucket.{BucketItem, max_bucket_size}
use nose.Bucket.Newest.{newest, IsValid, length-newest}
use nose.Bucket.Access.{get_top_bucket_items-newest}
use nose.Pmp.{Inet, PmpPingReq}
use nose.Pmp.Build.{get_peers_req_pkt, get_peers_rsp_pkt, copy_text}
use nose.Pmp.Parse.{ping_req_unpack}
use nose.Pmp.Ping.{IsPingReq, copy_text-c_str, length-copied, get_peers_req-Received}
use nose.MasterPeer.{MasterPeer, Scratch, udp_recv_cb, handle_get_peers}

take-min : (n : ℕ) (xs ys : List BucketItem) → take (min n (length xs)) (xs ++ ys) ≡ take n xs
take-min n xs ys = elim (Bool-cases (ltb (length xs) n)) [
  | inl more ↦
      let all : min n (length xs) ≡ length xs = ground arith in
      rw all (take-append_length xs ys (length xs) refl ∙ sym (take_long n xs (ground arith)))
  | inr enough ↦
      let few : min n (length xs) ≡ n = ground arith in
      rw few (take-append_le n xs ys (ground arith))
]

module _ (net : Inet) (clock : ℕ → ℕ × ℕ) (sc : Scratch) where
  dispatch_get_peers :
      (mstp : MasterPeer) (b : List ℕ) (rlen : ℕ)
      → 2 < rlen
      → u8_at b 0 ≡ 2
      → u8_at b 1 ≡ 0
      → udp_recv_cb net clock sc mstp false b rlen ≡ handle_get_peers net clock sc mstp false b rlen
  unfolding udp_recv_cb
  dispatch_get_peers mstp b rlen h t c = rw (lt→ltb 2 rlen h, t, c)

  -- The ten newest peers at most go out.
  handle_get_peers-newest :
      (mstp : MasterPeer) (b : List ℕ) (rlen : ℕ)
      → (ping_req_unpack sc.source_id sc.target_id b rlen).0 ≡ ok
      → IsValid mstp.peer_bkt
      → mstp.peer_bkt.count ≤ length sc.items
      → handle_get_peers net clock sc mstp false b rlen
        ≡ done (
          mstp,
          false,
          get_peers_rsp_pkt net sc.discovery_blk sc.get_peers_blk
              (ping_req_unpack sc.source_id sc.target_id b rlen).1
              (take 10 (newest mstp.peer_bkt)),
        )
  unfolding handle_get_peers
  handle_get_peers-newest mstp b rlen e v h =
      let count = length-newest mstp.peer_bkt v in
      let rest = drop mstp.peer_bkt.count sc.items in
      let ten : take (min 10 mstp.peer_bkt.count) (newest mstp.peer_bkt ++ rest)
          ≡ take 10 (newest mstp.peer_bkt) =
        ap (λ k. take (min 10 k) (newest mstp.peer_bkt ++ rest)) (sym count)
        ∙ take-min 10 (newest mstp.peer_bkt) rest in
      rw (e, get_top_bucket_items-newest mstp.peer_bkt sc.items 10 v h, ten, handle_get_peers) refl

  request_shape :
      (blk : PmpPingReq) (source target bytes rest : List ℕ)
      → IsPingReq blk
      → length (c_str source) ≤ 20
      → length (c_str target) ≤ 20
      → get_peers_req_pkt (some blk) source target ≡ some bytes
      → (length bytes ≡ 44) × (u8_at (bytes ++ rest) 0 ≡ 2) × (u8_at (bytes ++ rest) 1 ≡ 0)
  unfolding get_peers_req_pkt
  request_shape blk source target bytes rest hb hs ht e =
      subst (λ b. (length b ≡ 44) × (u8_at (b ++ rest) 0 ≡ 2) × (u8_at (b ++ rest) 1 ≡ 0))
        (eq_of_some e)
        (
          omega (
            arith,
            length-append (copy_text blk.target_id target) (copy_text blk.source_id source),
            ap length (copy_text-c_str blk.target_id target),
            ap length (copy_text-c_str blk.source_id source),
            length-copied blk.target_id (c_str target) hb.target_wide ht,
            length-copied blk.source_id (c_str source) hb.source_wide hs,
          ),
          refl,
          refl,
        )

  -- A get-peers request is answered about the ten newest peers at most.
  pub get_peers-answered :
      (mstp : MasterPeer) (blk : PmpPingReq) (source target bytes rest : List ℕ)
      → IsPingReq blk
      → length (c_str source) ≤ 20
      → length (c_str target) ≤ 20
      → length sc.source_id ≡ 21
      → length sc.target_id ≡ 21
      → IsValid mstp.peer_bkt
      → max_bucket_size ≤ length sc.items
      → get_peers_req_pkt (some blk) source target ≡ some bytes
      → (id : List ℕ) × (length (c_str id) ≤ 20)
        × (udp_recv_cb net clock sc mstp false (bytes ++ rest) (length bytes)
            ≡ done (
              mstp,
              false,
              get_peers_rsp_pkt net sc.discovery_blk sc.get_peers_blk id
                  (take 10 (newest mstp.peer_bkt)),
            ))
  get_peers-answered mstp blk source target bytes rest hb hs ht ws wt v h e =
      let (long, type, code) = request_shape blk source target bytes rest hb hs ht e in
      let (accepted, from, to) =
        get_peers_req-Received blk source target sc.source_id sc.target_id rest bytes (length bytes)
          hb hs ht ws wt (omega (arith, long)) e in
      let id = (ping_req_unpack sc.source_id sc.target_id (bytes ++ rest) (length bytes)).1 in
      let text = c_str source ++ drop (length (c_str source)) blk.source_id in
      (
        id,
        omega (
          arith,
          ap length from,
          length-c_str text,
          length-copied blk.source_id (c_str source) hb.source_wide hs,
        ),
        dispatch_get_peers mstp (bytes ++ rest) (length bytes) (omega (arith, long)) type code
            ∙ handle_get_peers-newest mstp (bytes ++ rest) (length bytes) accepted v
                (omega (arith, v.small)),
      )
