-- ===== src/Nose/Client.antt =====
-- A peer that main of src/nose.c starts, and the peer that looks for another one.
use nose.Common.{
  ap, ℕ, ◌<◌, ◌≡◌, refl, ◌∙◌, Bool, true, false, not, ◌&&◌, ◌==◌, ltb, some, List, [], length, done,
  ok, arith, lt→ltb, leb, if◌then◌else◌,
}
use nose.Common.Words.{IsU16, IsU32}
use nose.Bucket.Newest.{newest, known}
use nose.Bucket.Start.{init_bucket-none}
use nose.Pmp.{Inet, PmpPeerRegistryReq}
use nose.Pmp.Build.{NatType, peer_registry_req_pkt}
use nose.Pmp.Fields.{IsNodeId}
use nose.Nat.Client.{Reply, datagram, do_test, get_nat_type}
use nose.Nat.Kinds.{nat_server, IsPlenty}
use nose.Nat.Classify.{do_test-kind, kind}
use nose.Utils.{gen_random_node_id}
use nose.Utils.Names.{drawn, drawn-chars, all_name_chars, gen_random_node_id-drawn}
use nose.Peer.{Peer}
use nose.Peer.Start.{
  init_peer, peer_loop, looping, create_mstp_conn_sock, registry_peer, registry_tries,
}
use nose.System.Steps.{IsClient}
use nose.Nose.Run.{Host, run_peer}

-- A host behind a NAT, or at the address `number` itself, with a STUN server that can be reached, a
-- master peer that answers the first request with `answer`, and memory and sockets.
pub record Works (host : Host) (id : List ℕ) (number port : ℕ) (passes : Bool) : Type 0 where
  pub address : List ℕ
  pub resolves : (name : List ℕ) → host.resolve name ≡ some address
  pub fd : ℕ
  pub opens : (addr : List ℕ) (p : ℕ) → host.socket addr p ≡ some fd
  pub positive : 0 < fd
  pub reaches : (addr : List ℕ) (p : ℕ) → host.world addr p ≡ nat_server id number port passes
  pub plenty : IsPlenty host.memory
  pub trans_long : length host.trans_id ≡ 16
  pub id_long : length id ≡ 16
  pub number_fits : IsU32 number
  pub port_fits : IsU16 port
  pub sockfd : ℕ
  pub has_sock : host.mstp_sock ≡ some sockfd
  pub sock_positive : 0 < sockfd
  pub timed : host.setsockopt ≡ true
  pub blk : PmpPeerRegistryReq
  pub blk_there : host.registry_blk ≡ some blk
  pub answer : List ℕ → List ℕ
  pub answers : (request : List ℕ) → host.server request 0 ≡ datagram (answer request)

init_peer-ok :
    (net : Inet) (host : Host) (pr : Peer) (fd : ℕ) (nt : NatType) (sent : List (List ℕ))
    → get_nat_type net host.resolve host.socket host.world host.memory host.trans_id
        (some pr.source_ipv4)
        pr.source_port
        (some pr.stun_server_ipv4)
        pr.stun_server_port
        pr.nt
      ≡ done (some fd, nt, sent)
    → 0 < fd
    → 1 < nt.nat_type
    → init_peer net host.resolve host.socket host.world host.memory host.trans_id host.rand pr
      ≡ done (
        ok,
        some fd,
        record pr {
          peer = record pr.peer { count = 0; visited = 0 };
          helloed = false;
          syn_counts = 3;
          nt = nt;
          peer_id = gen_random_node_id host.rand pr.peer_id;
        },
      )
unfolding init_peer
init_peer-ok net host pr fd nt sent e h k =
    let there : ltb fd 1 ≡ false = ground arith in
    let able : leb nt.nat_type 1 ≡ false = ground arith in
    rw (init_bucket-none pr.peer, e, there, able, init_peer) refl

request_built :
    (net : Inet) (blk : PmpPeerRegistryReq) (pr : Peer)
    → (request : List ℕ) × (peer_registry_req_pkt net
          (some blk)
          pr.mstp_id
          pr.peer_id
          pr.vlan_local_ipv4
          pr.nt
        ≡ some request)
unfolding peer_registry_req_pkt
request_built net blk pr = (_, refl)

peer_loop-looping :
    (net : Inet) (blk : PmpPeerRegistryReq) (server : List ℕ → ℕ → Reply) (answer : List ℕ → List ℕ)
    (pr : Peer)
    → ((request : List ℕ) → server request 0 ≡ datagram (answer request))
    → peer_loop net true (some blk) server pr ≡ some looping
unfolding peer_loop registry_peer registry_tries
peer_loop-looping net blk server answer pr h =
    let (request, e) = request_built net blk pr in
    rw (e, h request, peer_loop, registry_peer, registry_tries) refl

kind_able : (own passes : Bool) → (own && not passes) ≡ false → 1 < kind own passes
unfolding kind
kind_able true true h = omega arith
kind_able true false h = cc
kind_able false true h = omega arith
kind_able false false h = omega arith

get_nat_type-tests :
    (net : Inet) (host : Host) (pr : Peer) (id : List ℕ) (number port : ℕ) (passes : Bool)
    → (w : Works host id number port passes)
    → get_nat_type net host.resolve host.socket host.world host.memory host.trans_id
        (some pr.source_ipv4)
        pr.source_port
        (some pr.stun_server_ipv4)
        pr.stun_server_port
        pr.nt
      ≡ do_test net
          (nat_server id number port passes)
          host.memory
          host.trans_id
          (some w.fd)
          pr.source_ipv4
          pr.nt
unfolding get_nat_type
get_nat_type-tests net host pr id number port passes w =
    (rw
      (
        w.resolves pr.stun_server_ipv4,
        w.opens pr.source_ipv4 (if pr.source_port == 0 then 54320 else pr.source_port),
        get_nat_type,
      )
      refl)
    ∙ ap (λ server. do_test net server host.memory host.trans_id (some w.fd) pr.source_ipv4 pr.nt)
        (w.reaches w.address (if pr.stun_server_port == 0 then 3478 else pr.stun_server_port))

run_steps :
    (net : Inet) (host : Host) (pr pr' : Peer) (id : List ℕ) (number port : ℕ) (passes : Bool)
    → (w : Works host id number port passes)
    → init_peer net host.resolve host.socket host.world host.memory host.trans_id host.rand pr
      ≡ done (ok, some w.fd, pr')
    → run_peer net host pr ≡ done (some (pr', looping))
unfolding run_peer create_mstp_conn_sock
run_steps net host pr pr' id number port passes w i =
    rw
      (
        i,
        w.has_sock,
        w.timed,
        lt→ltb 0 w.sockfd w.sock_positive,
        w.blk_there,
        peer_loop-looping net w.blk host.server w.answer pr' w.answers,
        run_peer,
        create_mstp_conn_sock,
      )
      refl

-- A configured peer on a host that works, which is behind a NAT or not shut off by a firewall, with
-- the arrays of struct peer: main comes to the event loop, and the peer is then one that System.Meet
-- asks for: its table is empty, its name is made of 20 digits and small letters, each of them chosen
-- by a call of rand, and it is not connected and has the address and port of the NAT for its public
-- ones. The addresses inside the network and the key are those of the configuration.
pub run_peer-IsClient :
    (net : Inet) (host : Host) (pr : Peer) (id m : List ℕ) (number port : ℕ) (passes : Bool)
    → Works host id number port passes
    → ((net.inet_addr pr.source_ipv4 == number) && not passes) ≡ false
    → 15 < length pr.nt.ipv4
    → IsNodeId pr.mstp_id m
    → length pr.peer_id ≡ 21
    → length pr.peer.b ≡ 255
    → (pr' : Peer) × (run_peer net host pr ≡ done (some (pr', looping)))
      × IsClient pr' (drawn host.rand 20 0) m
      × (all_name_chars (drawn host.rand 20 0) ≡ true)
      × (newest pr'.peer ≡ [])
      × (pr'.helloed ≡ false)
      × (net.inet_addr pr'.nt.ipv4 ≡ number)
      × (pr'.nt.port ≡ port)
      × (pr'.vlan_local_ipv4 ≡ pr.vlan_local_ipv4)
      × (pr'.vlan_remote_ipv4 ≡ pr.vlan_remote_ipv4)
      × (pr'.key ≡ pr.key)
unfolding known
run_peer-IsClient net host pr id m number port passes w able room hm wide fits =
    let (found, sent, e, k, a, p) =
      do_test-kind net host.memory host.trans_id id number port passes w.plenty w.trans_long
        w.id_long w.number_fits w.port_fits w.fd pr.source_ipv4 pr.nt room in
    let i =
      init_peer-ok net host pr w.fd found sent
        (get_nat_type-tests net host pr id number port passes w ∙ e) w.positive
        (rw k (kind_able (net.inet_addr pr.source_ipv4 == number) passes able)) in
    let pr' : Peer = record pr {
      peer = record pr.peer { count = 0; visited = 0 };
      helloed = false;
      syn_counts = 3;
      nt = found;
      peer_id = gen_random_node_id host.rand pr.peer_id;
    } in
    (
      pr',
      run_steps net host pr pr' id number port passes w i,
      record {
        name = gen_random_node_id-drawn host.rand pr.peer_id wide;
        master_name = hm;
        valid = record { small = omega arith; fits = fits };
        room = omega arith;
        fresh = refl;
      },
      drawn-chars host.rand 20 0,
      refl,
      refl,
      a,
      p,
      refl,
      refl,
      refl,
    )
