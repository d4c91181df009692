-- ===== src/MasterPeer/Machine.antt =====
-- The datagrams and timers of src/master_peer.c in any order.
use nose.Common.{ℕ, ◌≡◌, Bool, Option, List, done}
use nose.Pmp.{Inet}
use nose.MasterPeer.{MasterPeer, Scratch, udp_recv_cb}
use nose.MasterPeer.Timers.{World, TimerScratch, Heard, ping_peer, discovery_proc, get_peers}
use nose.MasterPeer.Handlers.{IsSound, udp_recv_cb-IsSound}
use nose.MasterPeer.Rounds.{ping_peer-IsSound, discovery_proc-IsSound, get_peers-IsSound}

-- What the event loop may do next: hand a datagram over, or run a timer; all three always wait.
pub data Step (net : Inet) (mstp : MasterPeer) (held : Bool) : MasterPeer → Bool → Type 0 where
  received :
      {mstp' : MasterPeer} {held' : Bool} (clock : ℕ → ℕ × ℕ) (s : Scratch) (b : List ℕ) (rlen : ℕ)
      (answer : Option (List ℕ))
      → udp_recv_cb net clock s mstp held b rlen ≡ done (mstp', held', answer)
      → Step net mstp held mstp' held'
  ping_fires :
      {mstp' : MasterPeer} {held' : Bool} (clock : ℕ → ℕ × ℕ) (world : World) (s : TimerScratch)
      (heard : Heard)
      → ping_peer net clock world s mstp held ≡ done (mstp', held', heard)
      → Step net mstp held mstp' held'
  discovery_fires :
      {mstp' : MasterPeer} {held' : Bool} (clock : ℕ → ℕ × ℕ) (world : World) (s : TimerScratch)
      (heard : Heard)
      → discovery_proc net clock world s mstp held ≡ done (mstp', held', heard)
      → Step net mstp held mstp' held'
  get_peers_fires :
      {mstp' : MasterPeer} {held' : Bool} (clock : ℕ → ℕ × ℕ) (world : World) (s : TimerScratch)
      (heard : Heard)
      → get_peers net clock world s mstp held ≡ done (mstp', held', heard)
      → Step net mstp held mstp' held'

pub data Reach (net : Inet) (mstp : MasterPeer) (held : Bool) : MasterPeer → Bool → Type 0 where
  here : Reach net mstp held mstp held
  next :
      {mstp' mstp'' : MasterPeer} {held' held'' : Bool}
      → Reach net mstp held mstp' held'
      → Step net mstp' held' mstp'' held''
      → Reach net mstp held mstp'' held''

module _ (net : Inet) where
  Step-IsSound :
      {mstp mstp' : MasterPeer} {held held' : Bool}
      → Step net mstp held mstp' held'
      → IsSound mstp held
      → IsSound mstp' held'
  Step-IsSound {mstp} {mstp'} {held} {held'} (received clock s b rlen answer e) v =
      udp_recv_cb-IsSound net clock s mstp held b rlen (mstp', held', answer) v e
  Step-IsSound {mstp} {mstp'} {held} {held'} (ping_fires clock world s heard e) v =
      ping_peer-IsSound net clock world s mstp held (mstp', held', heard) v e
  Step-IsSound {mstp} {mstp'} {held} {held'} (discovery_fires clock world s heard e) v =
      discovery_proc-IsSound net clock world s mstp held (mstp', held', heard) v e
  Step-IsSound {mstp} {mstp'} {held} {held'} (get_peers_fires clock world s heard e) v =
      get_peers-IsSound net clock world s mstp held (mstp', held', heard) v e

  -- From a master peer whose tables are within their arrays and have every node once, and whose
  -- mutex is free, whatever datagrams arrive, in whatever order the timers fire, and whatever the
  -- network answers: the same holds of every state that is reached.
  pub Reach-IsSound :
      {mstp : MasterPeer} {held : Bool} {mstp' : MasterPeer} {held' : Bool}
      → IsSound mstp held
      → Reach net mstp held mstp' held'
      → IsSound mstp' held'
  Reach-IsSound v here = v
  Reach-IsSound v (next r s) = Step-IsSound s (Reach-IsSound v r)
