-- ===== src/System.antt =====
-- The whole of src/peer.c and src/master_peer.c at work: two peers and the master peer between them.
-- A datagram that a peer sends to the master peer meets the master peer's handler, and what the
-- handler sends comes back to the peer. None of them is lost.
pub mod Steps
pub mod Meet
pub mod Tunnel
mod Tests
use nose.Common.{
  ℕ, ◌%◌, ◌^◌, Bool, true, false, Option, none, some, List, [], ◌∷◌, ◌++◌, length, Outcome, done,
  blocked, fault, ◌>>=◌, Status, error,
}
use nose.Common.Words.{htons}
use nose.Bucket.{BucketItem}
use nose.Pmp.{Inet, PmpFindPeerReq, PmpPeerRegistryReq}
use nose.Pmp.Build.{peer_registry_req_pkt}
use nose.Nat.Client.{Reply, recv_fails, datagram}
use nose.MasterPeer.{MasterPeer, Scratch, Handled, udp_recv_cb}
use nose.Crypt.{AesCbc}
use nose.Peer.{
  Peer, Events, SockAddr, Zlib, Env, Action, send, write_tun, set_ip_configure, udp_holing_hello,
}
use nose.Peer
use nose.Peer.Start.{registry_peer, find_remote_peer}

-- What one step of the two programs finds: the time, the stack and the memory of the master peer's
-- handler, what stands in its buffer behind a datagram, malloc's blocks at the peer, and what
-- stands on its stack.
pub record Moment : Type 0 where
  pub clock : ℕ → ℕ × ℕ
  pub scratch : Scratch
  pub behind : List ℕ
  pub registry_blk : PmpPeerRegistryReq
  pub find_blk : PmpFindPeerReq
  pub stack : List ℕ
  pub stack_item : BucketItem

-- What a peer gets for a datagram.
abbrev pub answered : Option (List ℕ) → Reply
answered none = recv_fails
answered (some bytes) = datagram bytes

abbrev pub reply : Outcome Handled → Reply
reply (done (mstp, held, answer)) = answered answer
reply blocked = recv_fails
reply fault = recv_fails

module _ (net : Inet) (now : Moment) where
  -- The master peer's handler on a datagram.
  unfoldable pub handle : MasterPeer → List ℕ → Outcome Handled
  handle mstp request =
      udp_recv_cb net now.clock now.scratch mstp false (request ++ now.behind) (length request)

  -- A registration, of which one request reaches the master peer.
  unfoldable pub register : Peer → MasterPeer → Outcome (Status × MasterPeer)
  unfolding handle
  register pr mstp =
      elim (peer_registry_req_pkt net (some now.registry_blk) pr.mstp_id pr.peer_id
        pr.vlan_local_ipv4 pr.nt) [
          | none ↦ done (error, mstp)
          | some request ↦ handle mstp request >>= λ (mstp', held, answer).
              done
                (registry_peer net true (some now.registry_blk) (λ r i. answered answer) pr, mstp')
        ]

  -- The timer fp_event of a peer, with the master peer at the other end. The handler of find-peer
  -- requests leaves the master peer's state alone.
  unfoldable pub search : MasterPeer → Peer → Events → Outcome (Bool × Peer × Events)
  unfolding handle
  search mstp pr ev =
      find_remote_peer net now.clock (some now.find_blk) now.stack now.stack_item
        (λ request. reply (handle mstp request)) false pr ev

-- Two peers register one after the other, and then each looks for the other.
unfoldable pub meet :
    Inet
    → (ℕ → Moment)
    → MasterPeer
    → Peer
    → Peer
    → Events
    → Events
    → Outcome ((Peer × Events) × (Peer × Events))
meet net now mstp a b ev ev' = do
  (status, mstp) ← register net (now 0) a mstp
  (status', mstp) ← register net (now 1) b mstp
  (held, a, ev) ← search net (now 2) mstp a ev
  (held', b, ev') ← search net (now 3) mstp b ev'
  done ((a, ev), (b, ev'))

module _ (aes : AesCbc) (zlib : Zlib) (env : Env) (plaintext : List ℕ) where
  -- What a peer does, as the other peer sees it: the datagrams arrive in order and from the sender's
  -- public address, one after the other, and come to more actions at the receiver.
  unfoldable pub arrive : SockAddr → List Action → Peer → Events → Outcome nose.Peer.Handled
  arrive src [] pr ev = done (pr, ev, [])
  arrive src (send bytes ∷ acts) pr ev = do
    (pr, ev, first) ← nose.Peer.udp_recv_cb aes zlib plaintext env src bytes pr ev
    (pr, ev, more) ← arrive src acts pr ev
    done (pr, ev, first ++ more)
  arrive src (write_tun text ∷ acts) pr ev = arrive src acts pr ev
  arrive src (set_ip_configure a b ∷ acts) pr ev = arrive src acts pr ev

-- The public address that a peer found for itself, as it is written to the wire.
abbrev pub public_addr : Inet → Peer → SockAddr
public_addr net pr = record {
  sin_addr = net.inet_addr pr.nt.ipv4;
  sin_port = htons (pr.nt.port % 2 ^ 16);
}

module _ (net : Inet) (aes : AesCbc) (zlib : Zlib) (plaintext : List ℕ) where
  -- The timer hello_event of one peer, and what its packets lead to at the other and then at itself.
  unfoldable pub greet :
      Env → Peer × Events → Peer × Events → Outcome ((Peer × Events) × (Peer × Events))
  greet env (a, ev) (b, ev') = do
    let (a, ev, acts) = udp_holing_hello env a ev
    (b, ev', acts) ← arrive aes zlib env plaintext (public_addr net a) acts b ev'
    (a, ev, acts) ← arrive aes zlib env plaintext (public_addr net b) acts a ev
    done ((a, ev), (b, ev'))

  -- Two peers meet, and then open the way to each other, one first and then the other.
  unfoldable pub connect :
      (ℕ → Moment)
      → Env
      → Env
      → MasterPeer
      → Peer
      → Peer
      → Events
      → Events
      → Outcome ((Peer × Events) × (Peer × Events))
  connect now env env' mstp a b ev ev' = do
    (a, b) ← meet net now mstp a b ev ev'
    (a, b) ← greet env a b
    (b, a) ← greet env' b a
    done (a, b)
