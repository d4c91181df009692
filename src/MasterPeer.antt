-- ===== src/MasterPeer.antt =====
-- src/master_peer.h and src/master_peer.c: the rendezvous server's handler of datagrams. The event
-- loop, sockets and messages on the terminal are left out. A datagram is what recvfrom put into `b`
-- and its length; the answer is what is handed to sendto. `Scratch` is the handler's stack and the
-- memory that malloc gives it, with whatever stands there.
pub mod Rendezvous
pub mod Start
pub mod Timers
pub mod Handlers
pub mod Rounds
pub mod Machine
pub mod Masters
pub mod Answers
pub mod Gossip
pub mod Loop
pub mod Pings
pub mod Lifetime
pub mod Serving
mod Tests
use nose.Common.{
  ℕ, zero, suc, ◌+◌, ◌<◌, Bool, true, false, ltb, ◌==◌, if◌then◌else◌, Option, none, some, List, [],
  ◌∷◌, ◌++◌, length, take, drop, Outcome, done, blocked, fault, ◌>>=◌, ◌>>◌, Status, ok, failed,
  error,
}
use nose.Common.Words.{u8_at}
use nose.Common.Strings.{c_str, strncpy}
use nose.Bucket.{
  BucketItem, Bucket, init_bucket, push_front_bucket, get_top_bucket_items, bucket_size,
}
use nose.Pmp.{
  Inet, PmpDiscoveryRsp, PmpOptions, PmpPingReq, PmpGetPeersOptions, PmpPeerRegistryReq, disc, ping,
  g_ps, r_p, f_p, req,
}
use nose.Pmp.Build.{
  ping_rsp_pkt, discovery_rsp_pkt, get_peers_rsp_pkt, peer_registry_rsp_pkt, find_peer_rsp_pkt,
}
use nose.Pmp.Parse.{
  ping_req_unpack, discovery_req_unpack, peer_registry_req_unpack, find_peer_req_unpack,
}

pub record MasterPeer : Type 0 where
  pub master_peer_bkt : Bucket
  pub peer_bkt : Bucket
  pub ipv4 : List ℕ
  pub port : ℕ
  pub node_id : List ℕ

pub record Scratch : Type 0 where
  pub source_id : List ℕ
  pub target_id : List ℕ
  pub port : ℕ
  pub items : List BucketItem
  pub item : BucketItem
  pub stack_item : BucketItem
  pub ping_blk : Option PmpPingReq
  pub discovery_blk : Option PmpDiscoveryRsp
  pub options_blk : Option PmpOptions
  pub get_peers_blk : Option PmpGetPeersOptions
  pub registry_blk : Option PmpPeerRegistryReq

-- What a datagram leads to: the state, the mutex, and the bytes to send, if any.
abbrev pub Handled : Type 0
Handled = MasterPeer × Bool × Option (List ℕ)

-- What `sizeof(struct PMP_Header)` bytes or fewer lead to: nothing.
abbrev pub pmp_header_len : ℕ
pmp_header_len = 2

module _ (net : Inet) (clock : ℕ → ℕ × ℕ) (s : Scratch) where
  handle_ping : MasterPeer → Bool → List ℕ → ℕ → Outcome Handled
  handle_ping mstp held b rlen =
      let (status, source_id, target_id) = ping_req_unpack s.source_id s.target_id b rlen in
      elim status [
        | error ↦ done (mstp, held, none)
        | ok ↦ done (mstp, held, ping_rsp_pkt s.ping_blk target_id source_id)
        | failed ↦ done (mstp, held, ping_rsp_pkt s.ping_blk target_id source_id)
      ]

  handle_discovery : MasterPeer → Bool → List ℕ → ℕ → Outcome Handled
  handle_discovery mstp held b rlen =
      let (status, port, source_id, target_id) =
        discovery_req_unpack s.port s.source_id s.target_id b rlen in
      elim status [ error ↦ done (mstp, held, none) | ok ↦ reply | failed ↦ reply ]
    where
      reply : Outcome Handled
      reply = do
        (held, items, size) ← get_top_bucket_items held mstp.master_peer_bkt s.items 10
        done (
          mstp,
          held,
          discovery_rsp_pkt net s.discovery_blk s.options_blk mstp.node_id (take size items),
        )

  handle_get_peers : MasterPeer → Bool → List ℕ → ℕ → Outcome Handled
  handle_get_peers mstp held b rlen =
      let (status, source_id, target_id) = ping_req_unpack s.source_id s.target_id b rlen in
      elim status [
        | error ↦ done (mstp, held, none)
        | ok ↦ reply source_id
        | failed ↦ reply source_id
      ]
    where
      reply : List ℕ → Outcome Handled
      reply source_id = do
        (held, items, size) ← get_top_bucket_items held mstp.peer_bkt s.items 10
        done (
          mstp,
          held,
          get_peers_rsp_pkt net s.discovery_blk s.get_peers_blk source_id (take size items),
        )

  handle_registry : MasterPeer → Bool → List ℕ → ℕ → Outcome Handled
  handle_registry mstp held b rlen = do
    (status, source_id, held, bkt) ←
        peer_registry_req_unpack net clock s.source_id held mstp.peer_bkt s.stack_item b rlen
    let mstp' : MasterPeer = record mstp { peer_bkt = bkt }
    elim status [
      | error ↦ done (mstp', held, none)
      | ok ↦ done (mstp', held, peer_registry_rsp_pkt s.ping_blk mstp.node_id source_id)
      | failed ↦ done (mstp', held, peer_registry_rsp_pkt s.ping_blk mstp.node_id source_id)
    ]

  handle_find_peer : MasterPeer → Bool → List ℕ → ℕ → Outcome Handled
  handle_find_peer mstp held b rlen = do
    (held, size) ← bucket_size held mstp.peer_bkt
    (status, source_id, target_id, held, item) ←
        find_peer_req_unpack net clock s.source_id s.target_id held mstp.peer_bkt s.item b rlen
    elim status [
      | error ↦ done (mstp, held, none)
      | failed ↦ done (mstp, held, none)
      | ok ↦ done (mstp, held, find_peer_rsp_pkt net s.registry_blk mstp.node_id source_id item)
    ]

  -- Only a request is looked at, and an unknown type is not answered.
  unfoldable pub udp_recv_cb : MasterPeer → Bool → List ℕ → ℕ → Outcome Handled
  unfolding handle_ping handle_discovery handle_get_peers handle_registry handle_find_peer
  udp_recv_cb mstp held b rlen =
      if ltb pmp_header_len rlen
      then (if u8_at b 1 == req
          then (if u8_at b 0 == ping
              then handle_ping mstp held b rlen
              else if u8_at b 0 == disc
              then handle_discovery mstp held b rlen
              else if u8_at b 0 == g_ps
              then handle_get_peers mstp held b rlen
              else if u8_at b 0 == r_p
              then handle_registry mstp held b rlen
              else if u8_at b 0 == f_p
              then handle_find_peer mstp held b rlen
              else done (mstp, held, none))
          else done (mstp, held, none))
      else done (mstp, held, none)

-- `strncpy(mstp->ipv4, ipv4, strlen(ipv4))`
put_address : List ℕ → List ℕ → Outcome (List ℕ)
put_address dst ipv4 =
    let n = length (c_str ipv4) in if ltb (length dst) n then fault else done (strncpy dst ipv4 n)

-- The pushes of init_master_peer after the buckets are set up.
push_all : (ℕ → ℕ × ℕ) → ℕ → List BucketItem → Bool → Bucket → Outcome (Bool × Bucket)
push_all clock i [] held bkt = done (held, bkt)
push_all clock i (x ∷ xs) held bkt = elim (push_front_bucket x (clock i).0 (clock i).1 held bkt) [
  | done (held', bkt') ↦ push_all clock (i + 1) xs held' bkt'
  | blocked ↦ blocked
  | fault ↦ fault
]

-- The address goes to its array without the NUL at its end, and faults where it does not fit.
unfoldable pub init_master_peer :
    (ℕ → ℕ × ℕ)
    → MasterPeer
    → List ℕ
    → ℕ
    → List BucketItem
    → Bool
    → Outcome (Status × Bool × MasterPeer)
unfolding push_all put_address
init_master_peer clock mstp ipv4 port items held = do
  masters ← init_bucket mstp.master_peer_bkt (some items)
  peers ← init_bucket mstp.peer_bkt none
  (held, masters) ← push_all clock 0 items held masters
  address ← put_address mstp.ipv4 ipv4
  done (
    ok,
    held,
    record mstp { master_peer_bkt = masters; peer_bkt = peers; ipv4 = address; port = port },
  )
