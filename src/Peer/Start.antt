-- ===== src/Peer/Start.antt =====
-- How a peer of src/peer.c starts: init_peer, the registration with the master peer, the search for
-- the other peer, and what peer_loop sets up.
use nose.Common.{
  ℕ, zero, suc, ◌+◌, Bool, true, false, ltb, leb, if◌then◌else◌, Option, none, some, List, [], ◌∷◌,
  ◌++◌, ◌==◌, length, take, replicate, Outcome, done, ◌>>=◌, Status, ok, failed, error,
}
use nose.Common.Strings.{memcpy}
use nose.Common.Words.{htons}
use nose.Bucket.{BucketItem, Bucket, init_bucket, get_front_bucket}
use nose.Pmp.{Inet, PmpFindPeerReq, PmpPeerRegistryReq}
use nose.Pmp.Build.{find_peer_req_pkt, peer_registry_req_pkt}
use nose.Pmp.Parse.{peer_registry_req_unpack}
use nose.Nat.Client.{Reply, send_fails, recv_fails, datagram, bufsiz, Memory, get_nat_type}
use nose.Utils.{gen_random_node_id}
use nose.Peer.{Peer, Events}

-- The rounds of the loop in registry_peer, with the number of rounds that may follow this one: a
-- request that cannot be sent ends it, and so does any datagram that comes back.
unfoldable pub registry_tries : (ℕ → Reply) → ℕ → ℕ → Status
registry_tries server zero i = elim (server i) [
  | send_fails ↦ error
  | recv_fails ↦ error
  | datagram bytes ↦ ok
]
registry_tries server (suc rounds) i = elim (server i) [
  | send_fails ↦ error
  | recv_fails ↦ registry_tries server rounds (i + 1)
  | datagram bytes ↦ ok
]

module _ (net : Inet) where
  open net use {inet_addr}

  -- `socket` says whether there is a socket, and `server request i` is what comes of the i-th try.
  unfoldable pub registry_peer :
      Bool → Option PmpPeerRegistryReq → (List ℕ → ℕ → Reply) → Peer → Status
  registry_peer false blk server pr = error
  registry_peer true blk server pr =
      elim (peer_registry_req_pkt net blk pr.mstp_id pr.peer_id pr.vlan_local_ipv4 pr.nt) [
        | none ↦ error
        | some request ↦ registry_tries (server request) 3 0
      ]

  -- The timer fp_event has fired and does not wait any more; it waits again after every failure.
  -- `master` is the network as the request sees it, `stack` and `stack_item` what stands in memory.
  unfoldable pub find_remote_peer :
      (ℕ → ℕ × ℕ)
      → Option PmpFindPeerReq
      → List ℕ
      → BucketItem
      → (List ℕ → Reply)
      → Bool
      → Peer
      → Events
      → Outcome (Bool × Peer × Events)
  find_remote_peer clock blk stack stack_item master held pr ev =
      elim (find_peer_req_pkt net blk pr.peer_id pr.mstp_id pr.vlan_remote_ipv4) [
        | none ↦ wait held pr
        | some request ↦ elim (master request) [
          | send_fails ↦ wait held pr
          | recv_fails ↦ wait held pr
          | datagram bytes ↦ answered request (take bufsiz bytes)
        ]
      ]
    where
      wait : Bool → Peer → Outcome (Bool × Peer × Events)
      wait held pr = done (held, pr, record ev { fp = true })

      found : Bool → Peer → Option BucketItem → Outcome (Bool × Peer × Events)
      found held pr none = wait held pr
      found held pr (some remote_item) = done (
        held,
        record pr {
          remote_peer_addr = record {
            sin_addr = inet_addr remote_item.ipv4;
            sin_port = htons remote_item.port;
          };
        },
        record ev { fp = false; hello = true },
      )

      search : Status → Bool → Bucket → Outcome (Bool × Peer × Events)
      search failed held bkt = wait held (record pr { peer = bkt })
      search error held bkt = wait held (record pr { peer = bkt })
      search ok held bkt = do
        (held, item) ← get_front_bucket held bkt
        found held (record pr { peer = bkt }) item

      answered : List ℕ → List ℕ → Outcome (Bool × Peer × Events)
      answered request received = do
        (status, peer_id, held, bkt) ←
            peer_registry_req_unpack net clock (replicate 21 0) held pr.peer stack_item
              (memcpy (memcpy stack request (length request)) received (length received))
              (length received)
        search status held bkt

  -- The NAT type is found with the socket that the peer goes on with. The types blocked and
  -- firewall are refused.
  unfoldable pub init_peer :
      (List ℕ → Option (List ℕ))
      → (List ℕ → ℕ → Option ℕ)
      → (List ℕ → ℕ → List (List ℕ) → Reply)
      → (ℕ → Memory)
      → List ℕ
      → (ℕ → ℕ)
      → Peer
      → Outcome (Status × Option ℕ × Peer)
  init_peer resolve socket world memory trans_id rand pr = do
    bkt ← init_bucket pr.peer none
    (udp_fd, nt, sent) ←
        get_nat_type net resolve socket world memory trans_id (some pr.source_ipv4) pr.source_port
          (some pr.stun_server_ipv4) pr.stun_server_port pr.nt
    let started : Peer = record pr { peer = bkt; helloed = false; syn_counts = 3; nt = nt }
    elim udp_fd [
      | none ↦ done (error, none, started)
      | some fd ↦
          if ltb fd 1
          then done (error, some fd, started)
          else if leb nt.nat_type 1
          then done (error, some fd, started)
          else done
              (ok, some fd, record started { peer_id = gen_random_node_id rand started.peer_id })
    ]

-- What waits when peer_loop hands over to the event loop, after a registration.
abbrev pub looping : Events
looping = record { hello = false; hb = false; fp = true; tun = none; threads = 0 }

unfoldable pub peer_loop :
    Inet → Bool → Option PmpPeerRegistryReq → (List ℕ → ℕ → Reply) → Peer → Option Events
unfolding registry_peer registry_tries
peer_loop net socket blk server pr = elim (registry_peer net socket blk server pr) [
  | error ↦ none
  | ok ↦ some looping
  | failed ↦ some looping
]

-- The socket for registrations: none where there is no socket or its time limit cannot be set.
unfoldable pub create_mstp_conn_sock : Option ℕ → Bool → Option ℕ
create_mstp_conn_sock none setsockopt = none
create_mstp_conn_sock (some sockfd) setsockopt = if setsockopt then some sockfd else none

-- SIGINT
abbrev pub sigint : ℕ
sigint = 2

-- SIGINT: the descriptors that are closed before the program ends, none for another signal.
unfoldable pub cancel_handle : ℕ → Option ℕ → Option ℕ → Option (List ℕ)
cancel_handle sig tun_fd udp_fd =
    if sig == sigint then some (open_fds tun_fd ++ open_fds udp_fd) else none
  where
    open_fds : Option ℕ → List ℕ
    open_fds none = []
    open_fds (some fd) = if ltb 0 fd then fd ∷ [] else []
