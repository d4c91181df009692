-- ===== src/MasterPeer/Gossip.antt =====
-- What one master peer of src/master_peer.c learns from another: the timer get_peers at one end and
-- the handler of get-peers requests at the other.
use nose.Common.{
  ℕ, ◌+◌, ◌≤◌, ◌<◌, ◌≡◌, refl, true, false, Option, none, some, List, [], ◌∷◌, ◌++◌, length, take,
  drop, arith, All, Outcome, done, blocked, fault, ok, length-take,
}
use nose.Common.Strings.{c_str}
use nose.Common.Words.{htons}
use nose.Bucket.{BucketItem, Bucket, get_front_bucket, max_bucket_size}
use nose.Bucket.Newest.{newest, known, IsValid, length-newest}
use nose.Pmp.{Inet, PmpPingReq, PmpDiscoveryRsp, PmpGetPeersOptions}
use nose.Pmp.Build.{get_peers_req_pkt, get_peers_rsp_pkt}
use nose.Pmp.Parse.{get_peers_rsp_unpack}
use nose.Pmp.Ping.{IsPingReq}
use nose.Pmp.Options.{IsSendable}
use nose.Pmp.Learned.{Learned, known-names}
use nose.Pmp.Gossip.{get_peers_rsp_unpack-Learned, length-get_peers_rsp}
use nose.Pmp.Registry.{IsWide}
use nose.MasterPeer.{MasterPeer, Scratch, Handled, udp_recv_cb}
use nose.MasterPeer.Rendezvous.{with_peers}
use nose.MasterPeer.Timers.{World, TimerScratch, success, get_peers, written}
use nose.MasterPeer.Masters.{exchange-answered}
use nose.MasterPeer.Answers.{get_peers-answered}

abbrev pub sent : Outcome Handled → Option (List ℕ)
sent (done (mstp, held, answer)) = answer
sent blocked = none
sent fault = none

-- The network of a master peer that only knows one other: every request meets the other's handler,
-- in a buffer with `behind` behind it.
unfoldable pub other_master : Inet → (ℕ → ℕ × ℕ) → Scratch → List ℕ → MasterPeer → World
other_master net clock sc behind other addr port none = none
other_master net clock sc behind other addr port (some request) =
    sent (udp_recv_cb net clock sc other false (request ++ behind) (length request))

-- The blocks of memory and arrays that an exchange of peers finds at both ends.
pub record IsReady (net : Inet) (s : TimerScratch) (sc : Scratch) : Type 0 where
  pub ping_blk : PmpPingReq
  pub ping_there : s.ping_blk ≡ some ping_blk
  pub ping_wide : IsPingReq ping_blk
  pub buf_wide : 8192 ≤ length s.buf
  pub item_wide : IsWide net s.stack_item
  pub source_wide : length sc.source_id ≡ 21
  pub target_wide : length sc.target_id ≡ 21
  pub items_wide : max_bucket_size ≤ length sc.items
  pub rsp_blk : PmpDiscoveryRsp
  pub rsp_there : sc.discovery_blk ≡ some rsp_blk
  pub rsp_wide : length rsp_blk.target_id ≡ 20
  pub options_blk : PmpGetPeersOptions
  pub options_there : sc.get_peers_blk ≡ some options_blk
  pub options_wide : length options_blk.node_id ≡ 20

request_built :
    (blk : PmpPingReq) (source target : List ℕ)
    → (bytes : List ℕ) × (get_peers_req_pkt (some blk) source target ≡ some bytes)
unfolding get_peers_req_pkt
request_built blk source target = (_, refl)

response_built :
    (net : Inet) (blk : PmpDiscoveryRsp) (opt : PmpGetPeersOptions) (id : List ℕ)
    (items : List BucketItem)
    → 0 < length items
    → (bytes : List ℕ) × (get_peers_rsp_pkt net (some blk) (some opt) id items ≡ some bytes)
unfolding get_peers_rsp_pkt
response_built net blk opt id [] h = absurd (omega arith)
response_built net blk opt id (x ∷ xs) h = (_, refl)

-- The rounds of the timer, once it is clear what the other end sends.
get_peers-step :
    (net : Inet) (clock : ℕ → ℕ × ℕ) (world : World) (s : TimerScratch) (mstp : MasterPeer)
    (item : BucketItem) (bytes : List ℕ) (bkt : Bucket)
    → get_front_bucket false mstp.master_peer_bkt ≡ done (false, some item)
    → world
        (net.inet_addr item.ipv4)
        (htons item.port)
        (get_peers_req_pkt s.ping_blk mstp.node_id item.node_id)
      ≡ some bytes
    → 0 < length bytes
    → length bytes ≤ 8192
    → 8192 ≤ length s.buf
    → get_peers_rsp_unpack net clock false mstp.peer_bkt s.stack_item
        (bytes
          ++ drop
              (length bytes)
              (written s.buf (get_peers_req_pkt s.ping_blk mstp.node_id item.node_id)))
        (length bytes)
      ≡ done (ok, false, bkt)
    → get_peers net clock world s mstp false ≡ done (with_peers mstp bkt, false, success)
unfolding get_peers
get_peers-step net clock world s mstp item bytes bkt f a h k w r =
    let request = get_peers_req_pkt s.ping_blk mstp.node_id item.node_id in
    rw
      (
        f,
        exchange-answered net clock world s s.buf item request bytes _ _ a h (omega arith) k,
        r,
        get_peers,
      )
      refl

answer_arrives :
    (net : Inet) (clock : ℕ → ℕ × ℕ) (s : TimerScratch) (sc : Scratch) (behind : List ℕ)
    (mstp other : MasterPeer) (item : BucketItem) (r : IsReady net s sc) (addr port : ℕ)
    (request id bytes : List ℕ) (items : List BucketItem)
    → get_peers_req_pkt (some r.ping_blk) mstp.node_id item.node_id ≡ some request
    → udp_recv_cb net clock sc other false (request ++ behind) (length request)
      ≡ done (other, false, get_peers_rsp_pkt net sc.discovery_blk sc.get_peers_blk id items)
    → get_peers_rsp_pkt net (some r.rsp_blk) (some r.options_blk) id items ≡ some bytes
    → other_master net clock sc behind other addr port
        (get_peers_req_pkt s.ping_blk mstp.node_id item.node_id)
      ≡ some bytes
unfolding other_master
answer_arrives net clock s sc behind mstp other item r addr port request id bytes items e h b =
    rw (r.ping_there, e, h, r.rsp_there, r.options_there, b) refl

-- What is learned under any end of the names: when the timer get_peers of a master peer fires, whose newest known master peer is
-- another one that knows peers, the request meets the other's handler, and its answer comes back.
-- Then the first knows every one of the other's ten newest peers, under its name of 20 bytes and
-- whatever stood behind it on the timer's stack; what is new in its table repeats one of these
-- peers, and its other peers stay. There has to be room for ten peers, and the mutexes are free.
get_peers-Learned :
    (net : Inet) (clock clock' : ℕ → ℕ × ℕ) (s : TimerScratch) (sc : Scratch) (behind : List ℕ)
    (mstp other : MasterPeer) (item : BucketItem)
    → IsReady net s sc
    → get_front_bucket false mstp.master_peer_bkt ≡ done (false, some item)
    → length (c_str mstp.node_id) ≤ 20
    → length (c_str item.node_id) ≤ 20
    → IsValid mstp.peer_bkt
    → mstp.peer_bkt.count + 10 ≤ max_bucket_size
    → IsValid other.peer_bkt
    → 0 < other.peer_bkt.count
    → All IsSendable (take 10 (newest other.peer_bkt))
    → (bkt : Bucket) × Learned net
        (take 10 (newest other.peer_bkt))
        (drop 20 s.stack_item.node_id)
        mstp.peer_bkt
        bkt
      × (get_peers net clock (other_master net clock' sc behind other) s mstp false
          ≡ done (with_peers mstp bkt, false, success))
get_peers-Learned net clock clock' s sc behind mstp other item r f hs ht v room v' some_peers
      ok_all =
    let items = take 10 (newest other.peer_bkt) in
    let ten = length-take 10 (newest other.peer_bkt) in
    let count = length-newest other.peer_bkt v' in
    let (request, e) = request_built r.ping_blk mstp.node_id item.node_id in
    let (id, short, h) =
      get_peers-answered net clock' sc other r.ping_blk mstp.node_id item.node_id request behind
        r.ping_wide hs ht r.source_wide r.target_wide v' r.items_wide e in
    let (bytes, b) =
      response_built net r.rsp_blk r.options_blk id items (omega (arith, ten, count)) in
    let long =
      length-get_peers_rsp net r.rsp_blk r.options_blk id bytes items r.rsp_wide short
        r.options_wide ok_all b in
    let behind' =
      drop (length bytes)
        (written s.buf (get_peers_req_pkt s.ping_blk mstp.node_id item.node_id)) in
    let (bkt, l, u) =
      get_peers_rsp_unpack-Learned net clock r.rsp_blk r.options_blk id bytes behind' items
        mstp.peer_bkt s.stack_item r.rsp_wide short r.options_wide ok_all r.item_wide v
        (omega (arith, ten, count)) b in
    (
      bkt,
      l,
      get_peers-step net clock (other_master net clock' sc behind other) s mstp item bytes bkt f
          (answer_arrives net clock' s sc behind mstp other item r (net.inet_addr item.ipv4)
            (htons item.port) request id bytes items e h b)
          (omega (arith, long)) (omega (arith, long, ten)) r.buf_wide u,
    )

-- Gossip: when the timer get_peers of a master peer fires, whose newest known master peer is
-- another one that knows peers, the request meets the other's handler, and its answer comes back.
-- Then the first knows every one of the other's ten newest peers by its name, what is new in its
-- table repeats one of these peers, and its other peers stay. There has to be room for ten peers
-- (count + 10 ≤ 255), the mutexes have to be free, the names have at most 20 characters, and the
-- last byte of the array for a name on the timer's stack, which nobody sets, has to be NUL.
pub get_peers-known :
    (net : Inet) (clock clock' : ℕ → ℕ × ℕ) (s : TimerScratch) (sc : Scratch) (behind : List ℕ)
    (mstp other : MasterPeer) (item : BucketItem)
    → IsReady net s sc
    → get_front_bucket false mstp.master_peer_bkt ≡ done (false, some item)
    → length (c_str mstp.node_id) ≤ 20
    → length (c_str item.node_id) ≤ 20
    → IsValid mstp.peer_bkt
    → mstp.peer_bkt.count + 10 ≤ max_bucket_size
    → IsValid other.peer_bkt
    → 0 < other.peer_bkt.count
    → All IsSendable (take 10 (newest other.peer_bkt))
    → All (λ x. length (c_str x.node_id) ≤ 20) (take 10 (newest other.peer_bkt))
    → drop 20 s.stack_item.node_id ≡ 0 ∷ []
    → (bkt : Bucket) × All
        (λ x. known x.node_id (newest bkt) ≡ true)
        (take 10 (newest other.peer_bkt))
      × Learned net
          (take 10 (newest other.peer_bkt))
          (drop 20 s.stack_item.node_id)
          mstp.peer_bkt
          bkt
      × (get_peers net clock (other_master net clock' sc behind other) s mstp false
          ≡ done (with_peers mstp bkt, false, success))
get_peers-known net clock clock' s sc behind mstp other item r f hs ht v room v' some_peers ok_all
      names ended =
    let (bkt, l, e) =
      get_peers-Learned net clock clock' s sc behind mstp other item r f hs ht v room v' some_peers
        ok_all in
    (
      bkt,
      known-names (take 10 (newest other.peer_bkt)) (newest bkt) (drop 20 s.stack_item.node_id)
          ended names l.complete,
      l,
      e,
    )
