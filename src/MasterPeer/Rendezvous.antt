-- ===== src/MasterPeer/Rendezvous.antt =====
-- The rendezvous of src/master_peer.c: a peer registers, and another one finds it.
use nose.Common.{
  ℕ, ◌≤◌, ◌<◌, ◌≡◌, refl, sym, ap, ◌∙◌, Bool, false, List, [], ◌∷◌, ◌++◌, length, some, none, arith,
  ok, failed, lt→ltb, Option-cases, inl, inr, eq_of_some, Outcome, done, ◌>>=◌,
}
use mathlib.Core.Path.{subst}
use nose.Common.Words.{u8_at}
use nose.Bucket.{BucketItem, Bucket, push_front_bucket, max_bucket_size}
use nose.Bucket.Newest.{newest, known, stamped, IsValid}
use nose.Bucket.Push.{push_fresh, pushed, newest-pushed, pushed-IsValid}
use nose.Bucket.Access.{first_vlan-head, bucket_size-count}
use nose.Pmp.{Inet, PmpPeerRegistryReq, PmpFindPeerReq}
use nose.Pmp.Build.{
  NatType, peer_registry_req_pkt, peer_registry_rsp_pkt, find_peer_req_pkt, find_peer_rsp_pkt,
}
use nose.Pmp.Parse.{
  peer_registry_req_unpack, peer_registry_req_len, find_peer_req_unpack, find_peer_req_len,
}
use nose.Pmp.Fields.{IsNodeId}
use nose.Pmp.Registry.{Describes, IsWide, IsRegistryReq, registry_req-pushes}
use nose.Pmp.Find.{first_addr, wanted, c_str-wanted, find_req-answer}
use nose.MasterPeer.{MasterPeer, Scratch, Handled, udp_recv_cb, handle_registry, handle_find_peer}

-- The master peer with another peer bucket.
abbrev pub with_peers : MasterPeer → Bucket → MasterPeer
with_peers mstp bkt = record mstp { peer_bkt = bkt }

module _ (net : Inet) (clock : ℕ → ℕ × ℕ) (sc : Scratch) where
  dispatch_registry :
      (mstp : MasterPeer) (held : Bool) (b : List ℕ) (rlen : ℕ)
      → 2 < rlen
      → u8_at b 0 ≡ 3
      → u8_at b 1 ≡ 0
      → udp_recv_cb net clock sc mstp held b rlen ≡ handle_registry net clock sc mstp held b rlen
  unfolding udp_recv_cb
  dispatch_registry mstp held b rlen h t c = rw (lt→ltb 2 rlen h, t, c)

  dispatch_find :
      (mstp : MasterPeer) (held : Bool) (b : List ℕ) (rlen : ℕ)
      → 2 < rlen
      → u8_at b 0 ≡ 4
      → u8_at b 1 ≡ 0
      → udp_recv_cb net clock sc mstp held b rlen ≡ handle_find_peer net clock sc mstp held b rlen
  unfolding udp_recv_cb
  dispatch_find mstp held b rlen h t c = rw (lt→ltb 2 rlen h, t, c)

  registry_header :
      (pr : PmpPeerRegistryReq) (mstp peer vlan bytes rest : List ℕ) (type : NatType)
      → peer_registry_req_pkt net (some pr) mstp peer vlan type ≡ some bytes
      → (u8_at (bytes ++ rest) 0 ≡ 3) × (u8_at (bytes ++ rest) 1 ≡ 0)
  unfolding peer_registry_req_pkt
  registry_header pr mstp peer vlan bytes rest type e =
      subst (λ b. (u8_at (b ++ rest) 0 ≡ 3) × (u8_at (b ++ rest) 1 ≡ 0)) (eq_of_some e) (refl, refl)

  find_header :
      (fp : PmpFindPeerReq) (peer mstp vlan bytes rest : List ℕ)
      → find_peer_req_pkt net (some fp) peer mstp vlan ≡ some bytes
      → (u8_at (bytes ++ rest) 0 ≡ 4) × (u8_at (bytes ++ rest) 1 ≡ 0)
  unfolding find_peer_req_pkt
  find_header fp peer mstp vlan bytes rest e =
      subst (λ b. (u8_at (b ++ rest) 0 ≡ 4) × (u8_at (b ++ rest) 1 ≡ 0)) (eq_of_some e) (refl, refl)

  handle_registry-pushed :
      (mstp : MasterPeer) (b id : List ℕ) (rlen : ℕ) (item : BucketItem) {bkt : Bucket}
      → peer_registry_req_unpack net clock sc.source_id false mstp.peer_bkt sc.stack_item b rlen ≡ (
          push_front_bucket item (clock 0).0 (clock 0).1 false mstp.peer_bkt >>= λ (held', bkt').
          done (ok, id, held', bkt'))
      → push_front_bucket item (clock 0).0 (clock 0).1 false mstp.peer_bkt ≡ done (false, bkt)
      → handle_registry net clock sc mstp false b rlen
        ≡ done (
          record mstp { peer_bkt = bkt },
          false,
          peer_registry_rsp_pkt sc.ping_blk mstp.node_id id,
        )
  unfolding handle_registry
  handle_registry-pushed mstp b id rlen item e p = rw (e, p)

  -- What a registry request leads to in the handler of datagrams: with the mutex free, room in a
  -- peer bucket within its array and a name that it does not know, a request built over any block
  -- of memory from malloc and followed by anything is answered by a registry response to that name,
  -- and puts one item in front of the peers, which the request describes; nothing else changes.
  pub registry-registers :
      (pr : PmpPeerRegistryReq) (master m peer s vlan rest bytes : List ℕ) (type : NatType)
      (mstp : MasterPeer) (size : ℕ)
      → IsRegistryReq pr
      → IsWide net sc.stack_item
      → IsNodeId master m
      → IsNodeId peer s
      → length sc.source_id ≡ 21
      → peer_registry_req_len ≤ size
      → IsValid mstp.peer_bkt
      → mstp.peer_bkt.count < max_bucket_size
      → known peer (newest mstp.peer_bkt) ≡ false
      → peer_registry_req_pkt net (some pr) master peer vlan type ≡ some bytes
      → (item : BucketItem) × (bkt : Bucket) × Describes net item type vlan s
        × (udp_recv_cb net clock sc mstp false (bytes ++ rest) size
            ≡ done
                (with_peers mstp bkt, false, peer_registry_rsp_pkt sc.ping_blk mstp.node_id peer))
        × (newest bkt ≡ stamped item (clock 0).0 (clock 0).1 ∷ newest mstp.peer_bkt)
        × IsValid bkt
  registry-registers pr master m peer s vlan rest bytes type mstp size v w hm hs hp h b room new e =
      let (item, d, r) =
        registry_req-pushes net clock pr master m peer s vlan sc.source_id rest bytes type false
          mstp.peer_bkt sc.stack_item size v w hm hs hp h e in
      let it : BucketItem = stamped item (clock 0).0 (clock 0).1 in
      let fresh : known item.node_id (newest mstp.peer_bkt) ≡ false =
        ap (λ id. known id (newest mstp.peer_bkt)) (d.node_is ∙ sym hs.ended) ∙ new in
      let push = push_fresh mstp.peer_bkt item (clock 0).0 (clock 0).1 b (λ z. omega arith) fresh in
      let (t, c) = registry_header pr master peer vlan bytes rest type e in
      (
        item,
        pushed mstp.peer_bkt it,
        d,
        dispatch_registry mstp false (bytes ++ rest) size (omega arith) t c
            ∙ handle_registry-pushed mstp (bytes ++ rest) (s ++ 0 ∷ []) size item r push
            ∙ ap
                (λ id. done (
                  with_peers mstp (pushed mstp.peer_bkt it),
                  false,
                  peer_registry_rsp_pkt sc.ping_blk mstp.node_id id,
                ))
                (sym hs.ended),
        newest-pushed mstp.peer_bkt it b room,
        pushed-IsValid mstp.peer_bkt it b room,
      )

  -- The newest peer is found by its address, however the seeker writes that address.
  pub first_addr-newest :
      (item : BucketItem) (type : NatType) (vlan vlan' s : List ℕ) (xs : List BucketItem)
      → Describes net item type vlan s
      → net.inet_addr vlan' ≡ net.inet_addr vlan
      → first_addr net (net.inet_addr vlan') (item ∷ xs) ≡ some item
  unfolding first_addr
  first_addr-newest item type vlan vlan' s xs d e =
      first_vlan-head (wanted net (net.inet_addr vlan')) item xs
        (d.vlan_is ∙ ap net.inet_ntoa (sym e) ∙ sym (c_str-wanted net (net.inet_addr vlan')))

  handle_find_peer-found :
      (mstp : MasterPeer) (b id id' : List ℕ) (rlen : ℕ) (item : BucketItem)
      → find_peer_req_unpack net clock sc.source_id sc.target_id false mstp.peer_bkt sc.item b rlen
        ≡ done (ok, id, id', false, item)
      → handle_find_peer net clock sc mstp false b rlen
        ≡ done (mstp, false, find_peer_rsp_pkt net sc.registry_blk mstp.node_id id item)
  unfolding handle_find_peer
  handle_find_peer-found mstp b id id' rlen item e = rw (bucket_size-count mstp.peer_bkt, e)

  handle_find_peer-missed :
      (mstp : MasterPeer) (b id id' : List ℕ) (rlen : ℕ) (item : BucketItem)
      → find_peer_req_unpack net clock sc.source_id sc.target_id false mstp.peer_bkt sc.item b rlen
        ≡ done (failed, id, id', false, item)
      → handle_find_peer net clock sc mstp false b rlen ≡ done (mstp, false, none)
  unfolding handle_find_peer
  handle_find_peer-missed mstp b id id' rlen item e = rw (bucket_size-count mstp.peer_bkt, e)

  -- A find-peer request that is built over any block of memory from malloc and followed by anything
  -- is answered, with the mutex free and a peer bucket within its array, by a find-peer response
  -- about the newest peer with the address, to the seeker's name, and not at all if no peer has it;
  -- the state stays as it was.
  pub find_peer-answers :
      (fp : PmpFindPeerReq) (seeker s master m vlan rest bytes : List ℕ) (mstp : MasterPeer)
      (size : ℕ)
      → length fp.mstp_id ≡ 20
      → length fp.peer_id ≡ 20
      → IsNodeId seeker s
      → IsNodeId master m
      → length sc.source_id ≡ 21
      → length sc.target_id ≡ 21
      → find_peer_req_len ≤ size
      → IsValid mstp.peer_bkt
      → find_peer_req_pkt net (some fp) seeker master vlan ≡ some bytes
      → udp_recv_cb net clock sc mstp false (bytes ++ rest) size
        ≡ elim (first_addr net (net.inet_addr vlan) (newest mstp.peer_bkt)) [
          | none ↦ done (mstp, false, none)
          | some x ↦
              done (mstp, false, find_peer_rsp_pkt net sc.registry_blk mstp.node_id (s ++ 0 ∷ []) x)
        ]
  find_peer-answers fp seeker s master m vlan rest bytes mstp size fm fs hs hm hp hq h v e =
      let (t, c) = find_header fp seeker master vlan bytes rest e in
      let r =
        find_req-answer net clock fp size seeker s master m vlan bytes sc.source_id sc.target_id
          rest mstp.peer_bkt sc.item fm fs hs hm hp hq h v e in
      dispatch_find mstp false (bytes ++ rest) size (omega arith) t c
      ∙ elim (Option-cases (first_addr net (net.inet_addr vlan) (newest mstp.peer_bkt))) [
        | inl no_peer ↦
            rw no_peer (handle_find_peer-missed mstp (bytes ++ rest) _ _ size _ (rw no_peer at r))
        | inr (x, found) ↦
            rw found (handle_find_peer-found mstp (bytes ++ rest) _ _ size x (rw found at r))
      ]

pub stamped-Describes :
    (net : Inet) (item : BucketItem) (type : NatType) (vlan p : List ℕ) (tv_sec tv_usec : ℕ)
    → Describes net item type vlan p
    → Describes net (stamped item tv_sec tv_usec) type vlan p
stamped-Describes net item type vlan p tv_sec tv_usec d = record {
  nat_type_is = d.nat_type_is;
  port_is = d.port_is;
  ipv4_is = d.ipv4_is;
  vlan_is = d.vlan_is;
  node_is = d.node_is;
}

-- The two datagrams one after the other, each with the stack and the memory that it meets.
abbrev pub handle_both :
    Inet → (ℕ → ℕ × ℕ) → Scratch → Scratch → MasterPeer → List ℕ → ℕ → List ℕ → ℕ → Outcome Handled
handle_both net clock sc sc' mstp b rlen b' rlen' =
    udp_recv_cb net clock sc mstp false b rlen >>= λ (mstp', held, reply).
    udp_recv_cb net clock sc' mstp' held b' rlen'

-- What a registering peer's datagram and a seeker's datagram need of the memory around them.
pub record Meeting (net : Inet) (sc sc' : Scratch) (pr : PmpPeerRegistryReq) (fp : PmpFindPeerReq)
    (master m peer p seeker s : List ℕ) (mstp : MasterPeer) : Type 0 where
  pub pr_fits : IsRegistryReq pr
  pub fp_master_wide : length fp.mstp_id ≡ 20
  pub fp_peer_wide : length fp.peer_id ≡ 20
  pub item_wide : IsWide net sc.stack_item
  pub source_wide : length sc.source_id ≡ 21
  pub source_wide' : length sc'.source_id ≡ 21
  pub target_wide' : length sc'.target_id ≡ 21
  pub master_name : IsNodeId master m
  pub peer_name : IsNodeId peer p
  pub seeker_name : IsNodeId seeker s
  pub valid : IsValid mstp.peer_bkt
  pub room : mstp.peer_bkt.count < max_bucket_size
  pub new : known peer (newest mstp.peer_bkt) ≡ false

-- Rendezvous: a peer with a new name registers a virtual address with a master peer that has room,
-- and then a seeker asks for that address, written in any way. Whatever blocks of memory malloc
-- gives and whatever follows the packets, the seeker is sent a find-peer response about an item
-- that the registration describes.
pub rendezvous :
    (net : Inet) (clock : ℕ → ℕ × ℕ) (sc sc' : Scratch) (pr : PmpPeerRegistryReq)
    (fp : PmpFindPeerReq) (master m peer p seeker s vlan vlan' bytes bytes' rest rest' : List ℕ)
    (type : NatType) (mstp : MasterPeer) (size size' : ℕ)
    → Meeting net sc sc' pr fp master m peer p seeker s mstp
    → peer_registry_req_len ≤ size
    → find_peer_req_len ≤ size'
    → net.inet_addr vlan' ≡ net.inet_addr vlan
    → peer_registry_req_pkt net (some pr) master peer vlan type ≡ some bytes
    → find_peer_req_pkt net (some fp) seeker master vlan' ≡ some bytes'
    → (item : BucketItem) × (mstp' : MasterPeer) × Describes net item type vlan p
      × (handle_both net clock sc sc' mstp (bytes ++ rest) size (bytes' ++ rest') size'
          ≡ done (
            mstp',
            false,
            find_peer_rsp_pkt net sc'.registry_blk mstp.node_id (s ++ 0 ∷ []) item,
          ))
rendezvous net clock sc sc' pr fp master m peer p seeker s vlan vlan' bytes bytes' rest rest' type
      mstp size size' v h h' a e e' =
    let (item, bkt, d, r, n, w) =
      registry-registers net clock sc pr master m peer p vlan rest bytes type mstp size v.pr_fits
        v.item_wide v.master_name v.peer_name v.source_wide h v.valid v.room v.new e in
    let it : BucketItem = stamped item (clock 0).0 (clock 0).1 in
    let q =
      find_peer-answers net clock sc' fp seeker s master m vlan' rest' bytes' (with_peers mstp bkt)
        size' v.fp_master_wide v.fp_peer_wide v.seeker_name v.master_name v.source_wide'
        v.target_wide' h' w e' in
    let described = stamped-Describes net item type vlan p _ _ d in
    let f : first_addr net (net.inet_addr vlan') (newest bkt) ≡ some it =
      rw n
        (first_addr-newest net clock sc it type vlan vlan' p (newest mstp.peer_bkt) described a) in
    (it, with_peers mstp bkt, described, rw r (rw f at q))
