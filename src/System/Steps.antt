-- ===== src/System/Steps.antt =====
-- One registration and one search, with src/peer.c at one end and src/master_peer.c at the other.
use nose.Common.{ℕ, ◌<◌, ◌≡◌, refl, true, false, some, List, [], ◌∷◌, ◌++◌, length, arith, done, ok}
use nose.Common.Words.{htons, IsU16}
use nose.Bucket.{BucketItem, Bucket, max_bucket_size}
use nose.Bucket.Newest.{newest, known, stamped, IsValid}
use nose.Pmp.{Inet, PmpPingReq, PmpPeerRegistryReq}
use nose.Pmp.Build.{
  peer_registry_req_pkt, find_peer_req_pkt, find_peer_rsp_pkt, peer_registry_rsp_pkt,
}
use nose.Pmp.Fields.{IsNodeId}
use nose.Pmp.Registry.{Describes, IsWide, IsRegistryReq, length-registry_req}
use nose.Pmp.Find.{first_addr, length-find_req}
use nose.MasterPeer.{MasterPeer}
use nose.MasterPeer.Rendezvous.{
  with_peers, registry-registers, find_peer-answers, stamped-Describes,
}
use nose.Peer.{Peer, Events}
use nose.Peer.Start.{registry_peer, registry_tries}
use nose.Peer.Search.{find_remote_peer-found}
use nose.Nat.Client.{datagram}
use nose.System.{Moment, register, search, handle, reply}

-- The memory that a step finds has the widths of the program's arrays, and malloc gives some.
pub record IsReady (net : Inet) (now : Moment) : Type 0 where
  pub ping_blk : PmpPingReq
  pub ping_there : now.scratch.ping_blk ≡ some ping_blk
  pub rsp_blk : PmpPeerRegistryReq
  pub rsp_there : now.scratch.registry_blk ≡ some rsp_blk
  pub rsp_fits : IsRegistryReq rsp_blk
  pub source_wide : length now.scratch.source_id ≡ 21
  pub target_wide : length now.scratch.target_id ≡ 21
  pub item_wide : IsWide net now.scratch.stack_item
  pub registry_fits : IsRegistryReq now.registry_blk
  pub find_master_wide : length now.find_blk.mstp_id ≡ 20
  pub find_peer_wide : length now.find_blk.peer_id ≡ 20
  pub stack_wide : IsWide net now.stack_item

-- A peer called `s` that knows its master peer as `m`, with room in its own table, in which it does
-- not stand itself.
pub record IsClient (pr : Peer) (s m : List ℕ) : Type 0 where
  pub name : IsNodeId pr.peer_id s
  pub master_name : IsNodeId pr.mstp_id m
  pub valid : IsValid pr.peer
  pub room : pr.peer.count < 255
  pub fresh : known (s ++ 0 ∷ []) (newest pr.peer) ≡ false

module _ (net : Inet) (now : Moment) (r : IsReady net now) where
  -- What a registration leaves behind.
  pub record Registers (pr : Peer) (s : List ℕ) (mstp : MasterPeer) : Type 0 where
    pub item : BucketItem
    pub bkt : Bucket
    pub described : Describes net item pr.nt pr.vlan_local_ipv4 s
    pub registered : register net now pr mstp ≡ done (ok, with_peers mstp bkt)
    pub in_front : newest bkt ≡ item ∷ newest mstp.peer_bkt
    pub valid : IsValid bkt

  registry_peer-ok :
      (pr : Peer) (request answer : List ℕ)
      → peer_registry_req_pkt net
          (some now.registry_blk)
          pr.mstp_id
          pr.peer_id
          pr.vlan_local_ipv4
          pr.nt
        ≡ some request
      → registry_peer net true (some now.registry_blk) (λ r i. datagram answer) pr ≡ ok
  unfolding registry_peer registry_tries
  registry_peer-ok pr request answer e = rw (e, registry_peer) refl

  response_built :
      (peer mstp_id : List ℕ)
      → (answer : List ℕ) × (peer_registry_rsp_pkt now.scratch.ping_blk mstp_id peer ≡ some answer)
  unfolding peer_registry_rsp_pkt
  response_built peer mstp_id = rw r.ping_there (_, refl)

  request_built :
      (pr : Peer)
      → (request : List ℕ) × (peer_registry_req_pkt net
            (some now.registry_blk)
            pr.mstp_id
            pr.peer_id
            pr.vlan_local_ipv4
            pr.nt
          ≡ some request)
  unfolding peer_registry_req_pkt
  request_built pr = (_, refl)

  register_step :
      (pr : Peer) (request answer : List ℕ) (mstp mstp' : MasterPeer)
      → peer_registry_req_pkt net
          (some now.registry_blk)
          pr.mstp_id
          pr.peer_id
          pr.vlan_local_ipv4
          pr.nt
        ≡ some request
      → handle net now mstp request ≡ done (mstp', false, some answer)
      → register net now pr mstp ≡ done (ok, mstp')
  unfolding register
  register_step pr request answer mstp mstp' e h =
      rw (e, h, registry_peer-ok pr request answer e, register) refl

  pub register-Registers :
      (pr : Peer) (s m : List ℕ) (mstp : MasterPeer)
      → IsClient pr s m
      → IsValid mstp.peer_bkt
      → mstp.peer_bkt.count < max_bucket_size
      → known pr.peer_id (newest mstp.peer_bkt) ≡ false
      → Registers pr s mstp
  unfolding handle
  register-Registers pr s m mstp c v room new =
      let (request, e) = request_built pr in
      let (answer, a) = response_built pr.peer_id mstp.node_id in
      let long =
        length-registry_req net now.registry_blk pr.mstp_id m pr.peer_id s pr.vlan_local_ipv4
          request pr.nt r.registry_fits c.master_name c.name e in
      let (item, bkt, d, h, n, w) =
        registry-registers net now.clock now.scratch now.registry_blk pr.mstp_id m pr.peer_id s
          pr.vlan_local_ipv4 now.behind request pr.nt mstp (length request) r.registry_fits
          r.item_wide c.master_name c.name r.source_wide (omega (arith, long)) v room new e in
      record {
        item = stamped item (now.clock 0).0 (now.clock 0).1;
        bkt = bkt;
        described = stamped-Describes net item pr.nt pr.vlan_local_ipv4 s _ _ d;
        registered = register_step pr request answer mstp (with_peers mstp bkt) e (rw a at h);
        in_front = n;
        valid = w;
      }

  find_built :
      (pr : Peer)
      → (request : List ℕ) × (find_peer_req_pkt net
            (some now.find_blk)
            pr.peer_id
            pr.mstp_id
            pr.vlan_remote_ipv4
          ≡ some request)
  unfolding find_peer_req_pkt
  find_built pr = (_, refl)

  found_built :
      (peer mstp_id : List ℕ) (item : BucketItem)
      → (answer : List ℕ) × (find_peer_rsp_pkt net (some r.rsp_blk) mstp_id peer item ≡ some answer)
  unfolding find_peer_rsp_pkt
  found_built peer mstp_id item = (_, refl)

  -- A search, when the master peer has an item with the address.
  pub search-found :
      (pr : Peer) (ev : Events) (s m m' : List ℕ) (mstp : MasterPeer) (x : BucketItem)
      → IsClient pr s m
      → IsNodeId mstp.node_id m'
      → IsValid mstp.peer_bkt
      → IsU16 x.port
      → first_addr net (net.inet_addr pr.vlan_remote_ipv4) (newest mstp.peer_bkt) ≡ some x
      → (bkt : Bucket) × (search net now mstp pr ev
          ≡ done (
            false,
            record pr {
              peer = bkt;
              remote_peer_addr = record {
                sin_addr = net.inet_addr x.ipv4;
                sin_port = htons x.port;
              };
            },
            record ev { fp = false; hello = true },
          ))
  unfolding search handle
  search-found pr ev s m m' mstp x c hm v p f =
      let (request, e) = find_built pr in
      let (answer, a) = found_built (s ++ 0 ∷ []) mstp.node_id x in
      let long =
        length-find_req net now.find_blk pr.peer_id s pr.mstp_id m pr.vlan_remote_ipv4 request
          r.find_master_wide r.find_peer_wide c.name c.master_name e in
      let h =
        find_peer-answers net now.clock now.scratch now.find_blk pr.peer_id s pr.mstp_id m
          pr.vlan_remote_ipv4 now.behind request mstp (length request) r.find_master_wide
          r.find_peer_wide c.name c.master_name r.source_wide r.target_wide (omega (arith, long)) v
          e in
      find_remote_peer-found net now.clock now.find_blk r.rsp_blk mstp.node_id m' (s ++ 0 ∷ []) s
        answer request now.stack x now.stack_item (λ request. reply (handle net now mstp request))
        pr ev r.rsp_fits hm (record { wide = c.name.wide; ended = refl }) p r.stack_wide c.valid
        c.room c.fresh a e (rw (h, f, r.rsp_there, a) refl)
