-- ===== src/System/Meet.antt =====
-- Two peers that meet: the proofs about src/peer.c and src/master_peer.c together.
use nose.Common.{
  ℕ, ◌+◌, ◌<◌, ◌≡◌, ◌≢◌, refl, sym, ap, ◌∙◌, true, false, some, List, ◌∷◌, length, arith, done, ok,
  Bool-cases, inl, inr,
}
use nose.Common.Strings.{same_str, bytes_eq→eq, c_str}
use nose.Common.Words.{IsU32}
use nose.Bucket.{BucketItem, Bucket, max_bucket_size}
use nose.Bucket.Newest.{newest, known, IsValid, length-newest}
use nose.Bucket.Access.{first_vlan}
use nose.Pmp.{Inet}
use nose.Pmp.Fields.{IsNodeId}
use nose.Pmp.Registry.{Describes}
use nose.Pmp.Find.{first_addr, wanted, c_str-wanted}
use nose.MasterPeer.{MasterPeer}
use nose.MasterPeer.Rendezvous.{with_peers, first_addr-newest}
use nose.Peer.{Peer, Events}
use nose.System.{Moment, register, search, meet, public_addr}
use nose.System.Steps.{IsReady, IsClient, Registers, register-Registers, search-found}

-- An item with another address is passed over.
first_addr-tail :
    (net : Inet) (a b : ℕ) (x : BucketItem) (xs : List BucketItem)
    → IsU32 a
    → IsU32 b
    → a ≢ b
    → c_str x.vlan_ipv4 ≡ net.inet_ntoa b
    → first_addr net a (x ∷ xs) ≡ first_addr net a xs
unfolding first_addr first_vlan
first_addr-tail net a b x xs ha hb d e = elim (Bool-cases (same_str x.vlan_ipv4 (wanted net a))) [
  | inl same ↦
      let t : net.inet_ntoa b ≡ net.inet_ntoa a =
        sym e ∙ bytes_eq→eq (c_str x.vlan_ipv4) (c_str (wanted net a)) same ∙ c_str-wanted net a in
      absurd (d (sym (net.addr-ntoa a ha) ∙ ap net.inet_addr (sym t) ∙ net.addr-ntoa b hb))
  | inr other ↦ rw other refl
]

-- Two peers and a master peer before they meet: the peers have different names, which the master
-- peer does not know, and different virtual addresses; each asks for the other's.
pub record CanMeet (net : Inet) (mstp : MasterPeer) (a b : Peer) (s s' m m' n : List ℕ)
    : Type 0 where
  pub first : IsClient a s m
  pub second : IsClient b s' m'
  pub master_name : IsNodeId mstp.node_id n
  pub valid : IsValid mstp.peer_bkt
  pub room : mstp.peer_bkt.count + 1 < max_bucket_size
  pub first_new : known a.peer_id (newest mstp.peer_bkt) ≡ false
  pub second_new : known b.peer_id (newest mstp.peer_bkt) ≡ false
  pub different : same_str b.peer_id a.peer_id ≡ false
  pub apart : net.inet_addr a.vlan_local_ipv4 ≢ net.inet_addr b.vlan_local_ipv4
  pub first_seeks : net.inet_addr a.vlan_remote_ipv4 ≡ net.inet_addr b.vlan_local_ipv4
  pub second_seeks : net.inet_addr b.vlan_remote_ipv4 ≡ net.inet_addr a.vlan_local_ipv4

-- A peer that has found another.
abbrev pub found : Inet → Peer → Peer → Bucket → Peer
found net pr other bkt = record pr { peer = bkt; remote_peer_addr = public_addr net other }

-- Hello packets go out in place of searches.
abbrev pub greeting : Events → Events
greeting ev = record ev { fp = false; hello = true }

-- The peers of a master peer that knows a new peer: one more, the new one in front.
known-second :
    (net : Inet) (now : Moment) (r : IsReady net now) (a b : Peer) (s m : List ℕ)
    (mstp : MasterPeer)
    → IsClient a s m
    → (g : Registers net now r a s mstp) → known b.peer_id (newest mstp.peer_bkt) ≡ false
    → same_str b.peer_id a.peer_id ≡ false
    → known b.peer_id (newest g.bkt) ≡ false
unfolding known
known-second net now r a b s m mstp c g new d =
    let own : g.item.node_id ≡ a.peer_id = g.described.node_is ∙ sym c.name.ended in
    rw (g.in_front, own, d) new

count-front :
    (net : Inet) (now : Moment) (r : IsReady net now) (a : Peer) (s : List ℕ) (mstp : MasterPeer)
    → (g : Registers net now r a s mstp) → IsValid mstp.peer_bkt
    → g.bkt.count ≡ mstp.peer_bkt.count + 1
count-front net now r a s mstp g v =
    omega (arith, length-newest g.bkt g.valid, length-newest mstp.peer_bkt v, ap length g.in_front)

first_addr-described :
    (net : Inet) (now : Moment) (r : IsReady net now) (a : Peer) (s vlan : List ℕ)
    (mstp : MasterPeer)
    → (g : Registers net now r a s mstp) → net.inet_addr vlan ≡ net.inet_addr a.vlan_local_ipv4
    → first_addr net (net.inet_addr vlan) (newest g.bkt) ≡ some g.item
first_addr-described net now r a s vlan mstp g e = rw g.in_front (
    first_addr-newest net now.clock now.scratch g.item a.nt a.vlan_local_ipv4 vlan s
      (newest mstp.peer_bkt) g.described e)

-- What a search comes to when the first item with the address describes the other peer.
search-other :
    (net : Inet) (now : Moment) (r : IsReady net now) (pr other : Peer) (ev : Events)
    (s m n p : List ℕ) (mstp : MasterPeer) (x : BucketItem)
    → IsClient pr s m
    → IsNodeId mstp.node_id n
    → IsValid mstp.peer_bkt
    → Describes net x other.nt other.vlan_local_ipv4 p
    → first_addr net (net.inet_addr pr.vlan_remote_ipv4) (newest mstp.peer_bkt) ≡ some x
    → (bkt : Bucket) × (search net now mstp pr ev
        ≡ done (false, found net pr other bkt, greeting ev))
search-other net now r pr other ev s m n p mstp x c hm v d f =
    let (bkt, e) =
      search-found net now r pr ev s m n mstp x c hm v (rw d.port_is (omega arith)) f in
    (bkt, rw (d.ipv4_is, d.port_is) at e)

first_addr-older :
    (net : Inet) (now : Moment) (r : IsReady net now) (b : Peer) (s vlan : List ℕ)
    (mstp : MasterPeer) (x : BucketItem)
    → (h : Registers net now r b s mstp) → net.inet_addr vlan ≢ net.inet_addr b.vlan_local_ipv4
    → first_addr net (net.inet_addr vlan) (newest mstp.peer_bkt) ≡ some x
    → first_addr net (net.inet_addr vlan) (newest h.bkt) ≡ some x
first_addr-older net now r b s vlan mstp x h d f = rw h.in_front (
    first_addr-tail net (net.inet_addr vlan) (net.inet_addr b.vlan_local_ipv4) h.item
      (newest mstp.peer_bkt) (net.addr_lt vlan) (net.addr_lt b.vlan_local_ipv4) d
      h.described.vlan_is
    ∙ f)

meet_steps :
    (net : Inet) (now : ℕ → Moment) (mstp mstp' mstp'' : MasterPeer) (a a' b b' : Peer)
    (ev ev' eva evb : Events)
    → register net (now 0) a mstp ≡ done (ok, mstp')
    → register net (now 1) b mstp' ≡ done (ok, mstp'')
    → search net (now 2) mstp'' a ev ≡ done (false, a', eva)
    → search net (now 3) mstp'' b ev' ≡ done (false, b', evb)
    → meet net now mstp a b ev ev' ≡ done ((a', eva), (b', evb))
unfolding meet
meet_steps net now mstp mstp' mstp'' a a' b b' ev ev' eva evb e1 e2 e3 e4 = rw (e1, e2, e3, e4) refl

-- Two peers behind their NATs meet: they register one after the other with a master peer that has
-- room for two more and knows neither, with different names and virtual addresses, and then each
-- asks for the other's virtual address. Whatever stands in the memory of the three programs and
-- in the arrays on their stacks, each ends up with the public address and port that the other found
-- for itself, and goes on to send it hello packets.
pub meet-found :
    (net : Inet) (now : ℕ → Moment) (mstp : MasterPeer) (a b : Peer) (ev ev' : Events)
    (s s' m m' n : List ℕ)
    → ((i : ℕ) → IsReady net (now i))
    → CanMeet net mstp a b s s' m m' n
    → (bkt : Bucket) × (bkt' : Bucket) × (meet net now mstp a b ev ev'
        ≡ done ((found net a b bkt, greeting ev), (found net b a bkt', greeting ev')))
meet-found net now mstp a b ev ev' s s' m m' n ready c =
    let g =
      register-Registers net (now 0) (ready 0) a s m mstp c.first c.valid (omega arith)
        c.first_new in
    let mstp' = with_peers mstp g.bkt in
    let new = known-second net (now 0) (ready 0) a b s m mstp c.first g c.second_new c.different in
    let size = count-front net (now 0) (ready 0) a s mstp g c.valid in
    let h =
      register-Registers net (now 1) (ready 1) b s' m' mstp' c.second g.valid (omega (arith, size))
        new in
    let mstp'' = with_peers mstp' h.bkt in
    let older : first_addr net (net.inet_addr b.vlan_remote_ipv4) (newest h.bkt) ≡ some g.item =
      first_addr-older net (now 1) (ready 1) b s' b.vlan_remote_ipv4 mstp' g.item h
        (λ e. c.apart (sym c.second_seeks ∙ e))
        (first_addr-described net (now 0) (ready 0) a s b.vlan_remote_ipv4 mstp g c.second_seeks) in
    let newer =
      first_addr-described net (now 1) (ready 1) b s' a.vlan_remote_ipv4 mstp' h c.first_seeks in
    let (bkt, e) =
      search-other net (now 2) (ready 2) a b ev s m n s' mstp'' h.item c.first c.master_name h.valid
        h.described newer in
    let (bkt', e') =
      search-other net (now 3) (ready 3) b a ev' s' m' n s mstp'' g.item c.second c.master_name
        h.valid g.described older in
    (
      bkt,
      bkt',
      meet_steps net now mstp mstp' mstp'' a (found net a b bkt) b (found net b a bkt') ev ev'
          (greeting ev) (greeting ev') g.registered h.registered e e',
    )
