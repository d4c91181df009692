-- ===== src/Peer/Machine.antt =====
-- The handlers of src/peer.c in any order, as the event loop may run them.
use nose.Common.{
  ℕ, ◌≡◌, refl, Bool, true, false, ◌||◌, if◌then◌else◌, length, take, Option, none, some, List, [],
  Outcome, done, arith,
}
use nose.Pmp.{Inet, PmpFindPeerReq}
use nose.Bucket.{BucketItem}
use nose.Nat.Client.{Reply}
use nose.Crypt.{AesCbc}
use nose.Peer.{
  Zlib, SockAddr, Peer, Events, Env, Handled, Action, udp_recv_cb, udp_holing_hello, peer_heartbeat,
  recved_pkt_unpack, payload_received, answer, hello_ack_received, init_tun_device, deliver,
  cleared, buf_len,
}
use nose.Pcp.{hello_ack, hb_ack}
use mathlib.Core.Path.{subst}
use nose.Common.Strings.{memcpy}
use nose.Peer.Start.{find_remote_peer, looping}

abbrev pub is_open : Option ℕ → Bool
is_open none = false
is_open (some fd) = true

-- The connection is up exactly when the tun device is open, and exactly when the heartbeat waits;
-- when it is down, the search for the other peer or the hello packets go on.
pub record IsLive (pr : Peer) (ev : Events) : Type 0 where
  pub tun_open : is_open ev.tun ≡ pr.helloed
  pub beating : ev.hb ≡ pr.helloed
  pub busy : (pr.helloed || ev.hello || ev.fp) ≡ true

hello_ack_received-IsLive :
    (env : Env) (pr : Peer) (ev : Events)
    → IsLive pr ev
    → IsLive (hello_ack_received env pr ev).0 (hello_ack_received env pr ev).1
unfolding hello_ack_received init_tun_device
hello_ack_received-IsLive env pr ev v = ground arith

peer_heartbeat-IsLive :
    (env : Env) (pr : Peer) (ev : Events)
    → IsLive pr ev
    → ev.hb ≡ true
    → IsLive (peer_heartbeat env pr ev).0 (peer_heartbeat env pr ev).1
unfolding peer_heartbeat
peer_heartbeat-IsLive env pr ev v h = ground arith

udp_holing_hello-IsLive :
    (env : Env) (pr : Peer) (ev : Events)
    → IsLive pr ev
    → IsLive (udp_holing_hello env pr ev).0 (udp_holing_hello env pr ev).1
unfolding udp_holing_hello
udp_holing_hello-IsLive env pr ev v = ground arith

payload_received-keeps :
    (aes : AesCbc) (zlib : Zlib) (plaintext buf : List ℕ) (env : Env) (size : ℕ) (pr : Peer)
    (ev : Events) (h : Handled)
    → payload_received aes zlib plaintext env buf size pr ev ≡ done h
    → (h.0 ≡ pr) × (h.1 ≡ ev)
unfolding payload_received deliver
payload_received-keeps aes zlib plaintext buf env size pr ev h e = ground arith

answer-keeps :
    (env : Env) (pkt : Option (List ℕ)) (pr : Peer) (ev : Events)
    → ((answer env pkt pr ev).0 ≡ pr) × ((answer env pkt pr ev).1 ≡ ev)
unfolding answer
answer-keeps env none pr ev = (refl, refl)
answer-keeps env (some buf) pr ev = (refl, refl)

recved_pkt_unpack-IsLive :
    (aes : AesCbc) (zlib : Zlib) (plaintext buf : List ℕ) (env : Env) (size : ℕ) (pr : Peer)
    (ev : Events) (h : Handled)
    → IsLive pr ev
    → recved_pkt_unpack aes zlib plaintext env buf size pr ev ≡ done h
    → IsLive h.0 h.1
unfolding recved_pkt_unpack
recved_pkt_unpack-IsLive aes zlib plaintext buf env size pr ev h v e = ground (
  arith,
  payload_received-keeps aes zlib plaintext buf env size pr ev h,
  answer-keeps env (hello_ack env.mem) pr ev,
  answer-keeps env (hb_ack env.mem) pr ev,
  hello_ack_received-IsLive env pr ev v,
)

find_remote_peer-IsLive :
    (net : Inet) (clock : ℕ → ℕ × ℕ) (blk : Option PmpFindPeerReq) (stack : List ℕ)
    (item : BucketItem) (master : List ℕ → Reply) (held held' : Bool) (pr pr' : Peer)
    (ev ev' : Events)
    → IsLive pr ev
    → find_remote_peer net clock blk stack item master held pr ev ≡ done (held', pr', ev')
    → IsLive pr' ev'
unfolding find_remote_peer
find_remote_peer-IsLive net clock blk stack item master held held' pr pr' ev ev' v e = ground arith

guarded-IsLive :
    (b : Bool) (x : Outcome Handled) (pr : Peer) (ev : Events) (h : Handled)
    → IsLive pr ev
    → (x ≡ done h → IsLive h.0 h.1)
    → (if b then x else done (pr, ev, [])) ≡ done h
    → IsLive h.0 h.1
guarded-IsLive true x pr ev h v k e = k e
guarded-IsLive false x pr ev h v k e = ground arith

udp_recv_cb-IsLive :
    (aes : AesCbc) (zlib : Zlib) (plaintext bytes : List ℕ) (env : Env) (src : SockAddr) (pr : Peer)
    (ev : Events) (h : Handled)
    → IsLive pr ev
    → udp_recv_cb aes zlib plaintext env src bytes pr ev ≡ done h
    → IsLive h.0 h.1
unfolding udp_recv_cb
udp_recv_cb-IsLive aes zlib plaintext bytes env src pr ev h v e =
    let received = take buf_len bytes in
    guarded-IsLive _ _ pr ev h v
      (recved_pkt_unpack-IsLive aes zlib plaintext (memcpy cleared received (length received)) env
        (length received) pr ev h v)
      e

-- What the event loop may do next: hand a datagram over, or run a handler whose event waits.
pub data Step (net : Inet) (aes : AesCbc) (zlib : Zlib) (pr : Peer) (ev : Events)
    : Peer → Events → Type 0 where
  received :
      {pr' : Peer} {ev' : Events} (plaintext bytes : List ℕ) (env : Env) (src : SockAddr)
      (acts : List Action)
      → udp_recv_cb aes zlib plaintext env src bytes pr ev ≡ done (pr', ev', acts)
      → Step net aes zlib pr ev pr' ev'
  hello_fires :
      {pr' : Peer} {ev' : Events} (env : Env) (acts : List Action)
      → ev.hello ≡ true
      → udp_holing_hello env pr ev ≡ (pr', ev', acts)
      → Step net aes zlib pr ev pr' ev'
  hb_fires :
      {pr' : Peer} {ev' : Events} (env : Env) (acts : List Action)
      → ev.hb ≡ true
      → peer_heartbeat env pr ev ≡ (pr', ev', acts)
      → Step net aes zlib pr ev pr' ev'
  fp_fires :
      {pr' : Peer} {ev' : Events} (clock : ℕ → ℕ × ℕ) (blk : Option PmpFindPeerReq) (stack : List ℕ)
      (item : BucketItem) (master : List ℕ → Reply) (held held' : Bool)
      → ev.fp ≡ true
      → find_remote_peer net clock blk stack item master held pr ev ≡ done (held', pr', ev')
      → Step net aes zlib pr ev pr' ev'

pub data Reach (net : Inet) (aes : AesCbc) (zlib : Zlib) (pr : Peer) (ev : Events)
    : Peer → Events → Type 0 where
  here : Reach net aes zlib pr ev pr ev
  next :
      {pr' pr'' : Peer} {ev' ev'' : Events}
      → Reach net aes zlib pr ev pr' ev'
      → Step net aes zlib pr' ev' pr'' ev''
      → Reach net aes zlib pr ev pr'' ev''

module _ (net : Inet) (aes : AesCbc) (zlib : Zlib) where
  Step-IsLive :
      {pr pr' : Peer} {ev ev' : Events}
      → Step net aes zlib pr ev pr' ev'
      → IsLive pr ev
      → IsLive pr' ev'
  Step-IsLive {pr} {pr'} {ev} {ev'} (received plaintext bytes env src acts e) v =
      udp_recv_cb-IsLive aes zlib plaintext bytes env src pr ev (pr', ev', acts) v e
  Step-IsLive {pr} {pr'} {ev} {ev'} (hello_fires env acts w e) v =
      subst (λ (h : Handled). IsLive h.0 h.1) e (udp_holing_hello-IsLive env pr ev v)
  Step-IsLive {pr} {pr'} {ev} {ev'} (hb_fires env acts w e) v =
      subst (λ (h : Handled). IsLive h.0 h.1) e (peer_heartbeat-IsLive env pr ev v w)
  Step-IsLive {pr} {pr'} {ev} {ev'} (fp_fires clock blk stack item master held held' w e) v =
      find_remote_peer-IsLive net clock blk stack item master held held' pr pr' ev ev' v e

  Reach-keeps :
      {pr : Peer} {ev : Events} {pr' : Peer} {ev' : Events}
      → IsLive pr ev
      → Reach net aes zlib pr ev pr' ev'
      → IsLive pr' ev'
  Reach-keeps v here = v
  Reach-keeps v (next r s) = Step-IsLive s (Reach-keeps v r)

  -- From where peer_loop hands over to the event loop, with no connection yet, whatever datagrams
  -- arrive, in whatever order the timers that wait fire, and whatever the system calls answer: the
  -- connection is up exactly when the tun device is open and exactly when the heartbeat waits, and
  -- when it is down, a search or a hello packet is under way.
  pub Reach-IsLive :
      (start pr : Peer) (ev : Events)
      → start.helloed ≡ false
      → Reach net aes zlib start looping pr ev
      → IsLive pr ev
  Reach-IsLive start pr ev h r = Reach-keeps (ground arith) r
