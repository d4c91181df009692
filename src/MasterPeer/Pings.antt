-- ===== src/MasterPeer/Pings.antt =====
-- The timer ping_peer of one master peer of src/master_peer.c and the handler of another.
use nose.Common.{
  ℕ, ◌≤◌, ◌<◌, ◌≡◌, refl, sym, ap, ◌∙◌, true, false, some, List, ◌++◌, length, drop, arith, done,
  ok, lt→ltb, inl, inr, ◌&&◌,
}
use mathlib.Core.Path.{subst}
use nose.Common.Strings.{c_str, same_str, bytes_eq_refl}
use nose.Common.Words.{u8_at, htons}
use nose.Bucket.{BucketItem, Bucket, get_next_bucket_item}
use nose.Pmp.{Inet, PmpPingReq}
use nose.Pmp.Build.{ping_req_pkt, ping_rsp_pkt}
use nose.Pmp.Parse.{ping_req_unpack}
use nose.Pmp.Fields.{IsNodeId}
use nose.Pmp.Ping.{IsPingReq, Received, ping-Received}
use nose.MasterPeer.{MasterPeer, Scratch, udp_recv_cb, handle_ping}
use nose.MasterPeer.Timers.{World, TimerScratch, success, ping_peer, written}
use nose.MasterPeer.Masters.{exchange-answered}
use nose.MasterPeer.Gossip.{other_master}
use nose.Pmp.Named.{c_str-ended, read-Named, request_shape, response_shape}

module _ (net : Inet) (clock : ℕ → ℕ × ℕ) (sc : Scratch) where
  dispatch_ping :
      (mstp : MasterPeer) (b : List ℕ) (rlen : ℕ)
      → 2 < rlen
      → u8_at b 0 ≡ 1
      → u8_at b 1 ≡ 0
      → udp_recv_cb net clock sc mstp false b rlen ≡ handle_ping net clock sc mstp false b rlen
  unfolding udp_recv_cb
  dispatch_ping mstp b rlen h t c = rw (lt→ltb 2 rlen h, t, c)

  handle_ping-ok :
      (mstp : MasterPeer) (b : List ℕ) (rlen : ℕ)
      → (ping_req_unpack sc.source_id sc.target_id b rlen).0 ≡ ok
      → handle_ping net clock sc mstp false b rlen
        ≡ done (
          mstp,
          false,
          ping_rsp_pkt sc.ping_blk
              (ping_req_unpack sc.source_id sc.target_id b rlen).2
              (ping_req_unpack sc.source_id sc.target_id b rlen).1,
        )
  unfolding handle_ping
  handle_ping-ok mstp b rlen e = rw (e, handle_ping) refl

-- The blocks of memory and arrays at both ends of a ping.
pub record IsReady (s : TimerScratch) (sc : Scratch) : Type 0 where
  pub req_blk : PmpPingReq
  pub req_there : s.ping_blk ≡ some req_blk
  pub req_wide : IsPingReq req_blk
  pub buf_wide : 8192 ≤ length s.buf
  pub source_wide : length s.source_id ≡ 21
  pub target_wide : length s.target_id ≡ 21
  pub rsp_blk : PmpPingReq
  pub rsp_there : sc.ping_blk ≡ some rsp_blk
  pub rsp_wide : IsPingReq rsp_blk
  pub source_wide' : length sc.source_id ≡ 21
  pub target_wide' : length sc.target_id ≡ 21

-- The two names of a response are those that were asked for.
verdict :
    (source target : List ℕ) (item own : List ℕ) (s t : List ℕ)
    → IsNodeId item t
    → IsNodeId own s
    → c_str source ≡ c_str t
    → c_str target ≡ c_str s
    → (same_str source item && same_str target own) ≡ true
verdict source target item own s t ht hs e f =
    rw
      (
        e,
        f,
        ap c_str ht.ended ∙ c_str-ended t,
        ap c_str hs.ended ∙ c_str-ended s,
        bytes_eq_refl (c_str t),
        bytes_eq_refl (c_str s),
      )
      refl

ping_peer-step :
    (net : Inet) (clock : ℕ → ℕ × ℕ) (world : World) (s : TimerScratch) (mstp : MasterPeer)
    (item : BucketItem) (bkt : Bucket) (bytes own t : List ℕ)
    → get_next_bucket_item false mstp.master_peer_bkt ≡ done (false, bkt, item)
    → world
        (net.inet_addr item.ipv4)
        (htons item.port)
        (ping_req_pkt s.ping_blk mstp.node_id item.node_id)
      ≡ some bytes
    → length bytes ≡ 44
    → 8192 ≤ length s.buf
    → IsNodeId item.node_id t
    → IsNodeId mstp.node_id own
    → Received
        (ping_req_unpack s.source_id s.target_id
          (bytes
            ++ drop
                (length bytes)
                (written s.buf (ping_req_pkt s.ping_blk mstp.node_id item.node_id)))
          (length bytes))
        t
        own
    → ping_peer net clock world s mstp false
      ≡ done (record mstp { master_peer_bkt = bkt }, false, success)
unfolding ping_peer
ping_peer-step net clock world s mstp item bkt bytes own t f a h w ht hs r =
    let request = ping_req_pkt s.ping_blk mstp.node_id item.node_id in
    rw
      (
        f,
        exchange-answered net clock world s s.buf item request bytes _ _ a (omega (arith, h))
            (omega (arith, h)) (omega (arith, h)),
        r.0,
        verdict _ _ item.node_id mstp.node_id own t ht hs r.1 r.2,
        ping_peer,
      )
      refl

reply_arrives :
    (net : Inet) (clock : ℕ → ℕ × ℕ) (s : TimerScratch) (sc : Scratch) (behind : List ℕ)
    (mstp other : MasterPeer) (item : BucketItem) (r : IsReady s sc) (addr port : ℕ)
    (request bytes : List ℕ)
    → ping_req_pkt (some r.req_blk) mstp.node_id item.node_id ≡ some request
    → udp_recv_cb net clock sc other false (request ++ behind) (length request)
      ≡ done (other, false, some bytes)
    → other_master net clock sc behind other addr port
        (ping_req_pkt s.ping_blk mstp.node_id item.node_id)
      ≡ some bytes
unfolding other_master
reply_arrives net clock s sc behind mstp other item r addr port request bytes e h =
    rw (r.req_there, e, h) refl

-- The other's answer to a ping, as its names arrive.
ping-answered :
    (net : Inet) (clock : ℕ → ℕ × ℕ) (s : TimerScratch) (sc : Scratch) (mstp : MasterPeer)
    (source s₁ target t₁ behind behind' request : List ℕ)
    → (r : IsReady s sc) → IsNodeId source s₁
    → IsNodeId target t₁
    → ping_req_pkt (some r.req_blk) source target ≡ some request
    → length request ≡ 44
    → u8_at (request ++ behind) 0 ≡ 1
    → u8_at (request ++ behind) 1 ≡ 0
    → (bytes : List ℕ) × (length bytes ≡ 44)
      × (udp_recv_cb net clock sc mstp false (request ++ behind) (length request)
          ≡ done (mstp, false, some bytes))
      × Received (ping_req_unpack s.source_id s.target_id (bytes ++ behind') (length bytes)) t₁ s₁
ping-answered net clock s sc mstp source s₁ target t₁ behind behind' request r hs ht e long type
      code =
    let got =
      ping-Received r.req_blk source s₁ target t₁ sc.source_id sc.target_id behind request
        (length request)
        (record {
          block = r.req_wide;
          source_name = hs;
          target_name = ht;
          src_wide = r.source_wide';
          tgt_wide = r.target_wide';
        })
        (omega (arith, long)) (inl e) in
    let (from, to) =
      read-Named sc.source_id sc.target_id (request ++ behind) s₁ t₁ (length request) r.source_wide'
        r.target_wide' (omega (arith, long)) got in
    let names = ping_req_unpack sc.source_id sc.target_id (request ++ behind) (length request) in
    let (bytes, b, l) =
      response_shape r.rsp_blk names.2 to.name names.1 from.name to.is_id from.is_id r.rsp_wide in
    let back =
      ping-Received r.rsp_blk names.2 to.name names.1 from.name s.source_id s.target_id behind'
        bytes (length bytes)
        (record {
          block = r.rsp_wide;
          source_name = to.is_id;
          target_name = from.is_id;
          src_wide = r.source_wide;
          tgt_wide = r.target_wide;
        })
        (omega (arith, l)) (inr (inl b)) in
    (
      bytes,
      l,
      dispatch_ping net clock sc mstp (request ++ behind) (length request) (omega (arith, long))
            type code
          ∙ handle_ping-ok net clock sc mstp (request ++ behind) (length request) got.0
          ∙ ap (λ a. done (mstp, false, a))
              (ap (λ blk. ping_rsp_pkt blk names.2 names.1) r.rsp_there ∙ b),
      (back.0, back.1 ∙ to.says, back.2 ∙ from.says),
    )

-- Liveness of a master peer: when the timer ping_peer fires, and the other master peer whose turn it
-- is gets the ping, its answer comes back and it is taken for alive. The names on both sides have 20
-- characters. The other's own name does not matter: its handler answers in the name that the
-- ping was sent to.
pub ping_peer-success :
    (net : Inet) (clock clock' : ℕ → ℕ × ℕ) (s : TimerScratch) (sc : Scratch)
    (behind own t : List ℕ) (mstp other : MasterPeer) (item : BucketItem) (bkt : Bucket)
    → IsReady s sc
    → get_next_bucket_item false mstp.master_peer_bkt ≡ done (false, bkt, item)
    → IsNodeId mstp.node_id own
    → IsNodeId item.node_id t
    → ping_peer net clock (other_master net clock' sc behind other) s mstp false
      ≡ done (record mstp { master_peer_bkt = bkt }, false, success)
ping_peer-success net clock clock' s sc behind own t mstp other item bkt r f hs ht =
    let (request, e, long, type, code) =
      request_shape r.req_blk mstp.node_id own item.node_id t hs ht r.req_wide behind in
    let old = written s.buf (ping_req_pkt s.ping_blk mstp.node_id item.node_id) in
    let behind' = drop 44 old in
    let (bytes, l, h, got) =
      ping-answered net clock' s sc other mstp.node_id own item.node_id t behind behind' request r
        hs ht e long type code in
    ping_peer-step net clock (other_master net clock' sc behind other) s mstp item bkt bytes own t f
      (reply_arrives net clock' s sc behind mstp other item r (net.inet_addr item.ipv4)
        (htons item.port) request bytes e h)
      l r.buf_wide ht hs
      (subst
        (λ k.
          Received (ping_req_unpack s.source_id s.target_id (bytes ++ drop k old) (length bytes)) t
            own)
        (sym l) got)
