-- ===== src/MasterPeer/Loop.antt =====
-- master_peer_loop of src/master_peer.c, and what ends it.
use nose.Common.{
  ℕ, ◌%◌, ◌^◌, Bool, true, ltb, ◌==◌, if◌then◌else◌, Option, none, some, List, [], ◌∷◌,
}
use nose.Common.Words.{htons}
use nose.Pmp.{Inet}
use nose.MasterPeer.{MasterPeer}

-- What the event loop starts with: the socket, the address and port it is bound to, in network
-- order, and whether udp_event, ping_event, discovery_event and get_peers_event wait.
pub record Listening : Type 0 where
  pub sock : ℕ
  pub sin_addr : ℕ
  pub sin_port : ℕ
  pub udp : Bool
  pub ping : Bool
  pub discovery : Bool
  pub get_peers : Bool

-- `socket` is what socket answers, 0 for all that is not positive, and `bind` whether bind
-- succeeds; none is ERROR. The socket stays open when it cannot be bound.
unfoldable pub master_peer_loop : Inet → ℕ → (ℕ → ℕ → Bool) → MasterPeer → Option Listening
master_peer_loop net socket bind mstp =
    let addr = net.inet_addr mstp.ipv4 in
    let port = htons (mstp.port % 2 ^ 16) in
    if socket == 0
    then none
    else if bind addr port
    then some (record {
      sock = socket;
      sin_addr = addr;
      sin_port = port;
      udp = true;
      ping = true;
      discovery = true;
      get_peers = true;
    })
    else none

-- SIGINT
abbrev pub sigint : ℕ
sigint = 2

-- SIGINT: the descriptors that are closed before the program ends, none for another signal.
unfoldable pub cancel_handle : ℕ → ℕ → Option (List ℕ)
cancel_handle sig sock = if sig == sigint then some (if ltb 0 sock then sock ∷ [] else []) else none
