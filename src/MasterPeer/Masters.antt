-- ===== src/MasterPeer/Masters.antt =====
-- The timers of src/master_peer.c towards the other master peers.
use nose.Common.{
  ℕ, ◌≤◌, ◌<◌, ◌≡◌, refl, false, ◌==◌, Option, some, List, ◌++◌, length, take, drop, All, Outcome,
  done, fault, arith, le→ltb, take_long, take-length, length-take,
}
use nose.Common.Strings.{c_str}
use nose.Common.Words.{htons}
use nose.Bucket.{BucketItem, get_front_bucket}
use nose.Bucket.Locks.{get_front_bucket-empty, get_next_bucket_item-empty}
use nose.Pmp.{Inet, PmpDiscoveryRsp, PmpOptions}
use nose.Pmp.Build.{discovery_req_pkt, discovery_rsp_pkt}
use nose.Pmp.Discovery.{HasNodeId, discovery_rsp_unpack-error, length-discovery_rsp}
use nose.MasterPeer.{MasterPeer}
use nose.MasterPeer.Timers.{
  World, TimerScratch, dead, malformed, exchange, written, ping_peer, discovery_proc, get_peers,
}

module _ (net : Inet) (clock : ℕ → ℕ × ℕ) (world : World) (s : TimerScratch) where
  -- A master peer that knows no other, with the mutex free: ping_peer divides by zero and
  -- discovery_proc reads through a null pointer, while get_peers does nothing.
  pub timers-empty :
      (mstp : MasterPeer)
      → mstp.master_peer_bkt.count ≡ 0
      → (ping_peer net clock world s mstp false ≡ fault)
        × (discovery_proc net clock world s mstp false ≡ fault)
        × (get_peers net clock world s mstp false ≡ done (mstp, false, dead))
  unfolding ping_peer discovery_proc get_peers
  timers-empty mstp h =
      let front = get_front_bucket-empty mstp.master_peer_bkt h in
      (rw (get_next_bucket_item-empty mstp.master_peer_bkt h) refl, rw front refl, rw front refl)

  pub exchange-answered :
      {A : Type 0} (buf : List ℕ) (item : BucketItem) (request : Option (List ℕ)) (bytes : List ℕ)
      (otherwise : Outcome A) (after : List ℕ → ℕ → Outcome A)
      → world (net.inet_addr item.ipv4) (htons item.port) request ≡ some bytes
      → 0 < length bytes
      → length bytes ≤ length buf
      → length bytes ≤ 8192
      → exchange net world buf item request otherwise after
        ≡ after (bytes ++ drop (length bytes) (written buf request)) (length bytes)
  unfolding exchange
  exchange-answered buf item request bytes otherwise after e h k l =
      let some_bytes : (length bytes == 0) ≡ false = ground arith in
      rw
        (
          exchange,
          e,
          take_long 8192 bytes l,
          take-length bytes,
          le→ltb (length buf) (length bytes) k,
          some_bytes,
        )
        refl

  -- When the newest master peer in the table answers the request of discovery_proc with a
  -- discovery response about up to 35 items, as discovery_rsp_pkt builds it: the response is taken
  -- for malformed, and nothing is learned from it. The timer's buffer of 1024 bytes lies on the
  -- stack, and the mutex is free.
  pub discovery_proc-malformed :
      (mstp : MasterPeer) (item : BucketItem) (blk : PmpDiscoveryRsp) (opt : PmpOptions)
      (node_id bytes : List ℕ) (items : List BucketItem)
      → get_front_bucket false mstp.master_peer_bkt ≡ done (false, some item)
      → length blk.target_id ≡ 20
      → length (c_str node_id) ≤ 20
      → length opt.node_id ≡ 20
      → All HasNodeId items
      → length items < 36
      → 1024 ≤ length s.buf
      → discovery_rsp_pkt net (some blk) (some opt) node_id items ≡ some bytes
      → world
          (net.inet_addr item.ipv4)
          (htons item.port)
          (discovery_req_pkt s.discovery_blk item.port mstp.node_id item.node_id)
        ≡ some bytes
      → discovery_proc net clock world s mstp false ≡ done (mstp, false, malformed)
  unfolding discovery_proc
  discovery_proc-malformed mstp item blk opt node_id bytes items f hb ht ho v n w e a =
      let request = discovery_req_pkt s.discovery_blk item.port mstp.node_id item.node_id in
      let l = length-discovery_rsp net blk opt node_id bytes items hb ht ho v e in
      let whole : length (take 1024 s.buf) ≡ 1024 = omega (arith, length-take 1024 s.buf) in
      rw
        (
          f,
          exchange-answered (take 1024 s.buf) item request bytes _ _ a (omega arith) (omega arith)
              (omega arith),
          discovery_rsp_unpack-error net clock blk opt node_id bytes
              (drop (length bytes) (written (take 1024 s.buf) request)) items false
              mstp.master_peer_bkt s.stack_item hb ht ho v (omega arith) e,
        )
        refl
