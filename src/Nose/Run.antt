-- ===== src/Nose/Run.antt =====
-- How main of src/nose.c goes on with a configured peer: init_peer, and peer_loop of src/peer.c.
use nose.Common.{
  ℕ, Bool, false, ltb, Option, none, some, List, Outcome, done, ◌>>=◌, ok, failed, error,
}
use nose.Pmp.{Inet, PmpPeerRegistryReq}
use nose.Nat.Client.{Reply, Memory}
use nose.Peer.{Peer, Events}
use nose.Peer.Start.{init_peer, peer_loop, create_mstp_conn_sock}

-- What a peer finds when it starts: names, sockets and the network for the NAT test, the numbers of
-- rand, the socket for the registration, its memory, and the master peer.
pub record Host : Type 0 where
  pub resolve : List ℕ → Option (List ℕ)
  pub socket : List ℕ → ℕ → Option ℕ
  pub world : List ℕ → ℕ → List (List ℕ) → Reply
  pub memory : ℕ → Memory
  pub trans_id : List ℕ
  pub rand : ℕ → ℕ
  pub mstp_sock : Option ℕ
  pub setsockopt : Bool
  pub registry_blk : Option PmpPeerRegistryReq
  pub server : List ℕ → ℕ → Reply

-- `sockfd <= 0` in registry_peer is an error.
abbrev pub is_usable : Option ℕ → Bool
is_usable none = false
is_usable (some fd) = ltb 0 fd

abbrev pub with_peer : Peer → Option Events → Option (Peer × Events)
with_peer pr none = none
with_peer pr (some ev) = some (pr, ev)

-- The peer and what waits when the event loop starts, none where main returns before.
unfoldable pub run_peer : Inet → Host → Peer → Outcome (Option (Peer × Events))
run_peer net host pr = do
  (status, udp_fd, pr) ←
      init_peer net host.resolve host.socket host.world host.memory host.trans_id host.rand pr
  elim status [
    | error ↦ done none
    | failed ↦ done none
    | ok ↦
        let sock = create_mstp_conn_sock host.mstp_sock host.setsockopt in
        done (with_peer pr (peer_loop net (is_usable sock) host.registry_blk host.server pr))
  ]
