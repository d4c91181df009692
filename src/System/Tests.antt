-- ===== src/System/Tests.antt =====
-- Two concrete peers that meet.
use nose.Common.{ℕ, ◌≡◌, refl, true, some, List, [], ◌∷◌, replicate, arith, done}
use nose.Common.Strings.{bytes_eq, c_str}
use nose.Bucket.{Bucket}
use nose.Bucket.Newest.{known}
use nose.Pmp.Samples.{
  plain_inet, name_of, id_of, ping_blk, discovery_rsp_blk, options_blk, get_peers_blk, registry_blk,
  find_blk, item_of, empty_bucket, still_clock,
}
use nose.MasterPeer.{MasterPeer}
use nose.Crypt.{encrypt_by_aes_256, output_len}
use nose.Crypt.Samples.{plain_aes}
use nose.Pcp.{payload_pkt}
use nose.Peer.{Peer, Events, tun_round, packet, udp_recv_cb, write_tun}
use nose.Peer.Start.{looping}
use nose.Peer.Samples.{plain_zlib, some_peer, fine}
use nose.System.{Moment, meet, connect, public_addr}
use nose.System.Steps.{IsReady, IsClient}
use nose.System.Meet.{CanMeet, found, greeting, meet-found}
use nose.System.Tunnel.{IsWorking, IsPayload, connect-carries}

abbrev master : MasterPeer
master = record {
  master_peer_bkt = empty_bucket;
  peer_bkt = empty_bucket;
  ipv4 = replicate 16 0;
  port = 0;
  node_id = id_of 109;
}

abbrev moment : Moment
moment = record {
  clock = still_clock;
  scratch = record {
    source_id = replicate 21 1;
    target_id = replicate 21 2;
    port = 0;
    items = replicate 256 (item_of 3);
    item = item_of 4;
    stack_item = item_of 5;
    ping_blk = some ping_blk;
    discovery_blk = some discovery_rsp_blk;
    options_blk = some options_blk;
    get_peers_blk = some get_peers_blk;
    registry_blk = some registry_blk;
  };
  behind = 3 ∷ [];
  registry_blk = registry_blk;
  find_blk = find_blk;
  stack = replicate 40 1;
  stack_item = item_of 4;
}

-- The peer "a…a" at the virtual address "a", and "b…b" at "b".
abbrev other_peer : Peer
other_peer = record some_peer {
  peer_id = id_of 98;
  vlan_local_ipv4 = 98 ∷ 0 ∷ [];
  vlan_remote_ipv4 = 97 ∷ 0 ∷ [];
  nt = record { nat_type = 3; port = 9; ipv4 = 99 ∷ 0 ∷ [] };
}

moment-IsReady : IsReady plain_inet moment
moment-IsReady = record {
  ping_blk = ping_blk;
  ping_there = refl;
  rsp_blk = registry_blk;
  rsp_there = refl;
  rsp_fits = omega arith;
  source_wide = refl;
  target_wide = refl;
  item_wide = omega arith;
  registry_fits = omega arith;
  find_master_wide = refl;
  find_peer_wide = refl;
  stack_wide = omega arith;
}

some_peer-IsClient : IsClient some_peer (name_of 97) (name_of 109)
unfolding known
some_peer-IsClient = record {
  name = record { wide = refl; ended = refl };
  master_name = record { wide = refl; ended = refl };
  valid = omega arith;
  room = omega arith;
  fresh = refl;
}

other_peer-IsClient : IsClient other_peer (name_of 98) (name_of 109)
unfolding known
other_peer-IsClient = record {
  name = record { wide = refl; ended = refl };
  master_name = record { wide = refl; ended = refl };
  valid = omega arith;
  room = omega arith;
  fresh = refl;
}

peers-CanMeet :
    CanMeet plain_inet master some_peer other_peer
      (name_of 97)
      (name_of 98)
      (name_of 109)
      (name_of 109)
      (name_of 109)
unfolding known c_str bytes_eq
peers-CanMeet = record {
  first = some_peer-IsClient;
  second = other_peer-IsClient;
  master_name = record { wide = refl; ended = refl };
  valid = omega arith;
  room = omega arith;
  first_new = refl;
  second_new = refl;
  different = refl;
  apart = λ e. omega arith;
  first_seeks = refl;
  second_seeks = refl;
}

meet-found_example :
    (bkt : Bucket) × (bkt' : Bucket) × (meet plain_inet
        (λ i. moment)
        master
        some_peer
        other_peer
        looping
        looping
      ≡ done (
        (found plain_inet some_peer other_peer bkt, greeting looping),
        (found plain_inet other_peer some_peer bkt', greeting looping),
      ))
meet-found_example =
    meet-found plain_inet (λ i. moment) master some_peer other_peer looping looping (name_of 97)
      (name_of 98) (name_of 109) (name_of 109) (name_of 109) (λ i. moment-IsReady) peers-CanMeet

fine-IsWorking : IsWorking fine
fine-IsWorking = record { memory = refl; sends = refl; opens = omega arith; starts = refl }

abbrev text : List ℕ
text = 69 ∷ 0 ∷ 0 ∷ 20 ∷ []

sent_packet :
    (pkt : List ℕ) × (tun_round plain_aes plain_zlib true (replicate 16 1) (replicate 32 9) text
      ≡ packet pkt)
unfolding tun_round encrypt_by_aes_256 payload_pkt output_len
sent_packet = (_, refl)

sent_packet-IsPayload : IsPayload plain_aes plain_zlib (replicate 32 9) text sent_packet.0
unfolding output_len sent_packet
sent_packet-IsPayload = record {
  stack = replicate 16 1;
  some_text = omega arith;
  short = omega arith;
  room = omega arith;
  made = sent_packet.1;
  ratio = omega arith;
}

connect-carries_example :
    (a' : Peer) × (b' : Peer) × (eva : Events) × (evb : Events) × (connect plain_inet plain_aes
        plain_zlib []
        (λ i. moment)
        fine
        fine
        master
        some_peer
        other_peer
        looping
        looping
      ≡ done ((a', eva), (b', evb)))
    × (a'.helloed ≡ true)
    × (b'.helloed ≡ true)
    × (a'.remote_peer_addr ≡ public_addr plain_inet other_peer)
    × (b'.remote_peer_addr ≡ public_addr plain_inet some_peer)
    × (udp_recv_cb plain_aes plain_zlib [] fine
          (public_addr plain_inet some_peer)
          sent_packet.0
          b'
          evb
        ≡ done (b', evb, write_tun text ∷ []))
    × (udp_recv_cb plain_aes plain_zlib [] fine
          (public_addr plain_inet other_peer)
          sent_packet.0
          a'
          eva
        ≡ done (a', eva, write_tun text ∷ []))
connect-carries_example =
    connect-carries plain_inet plain_aes plain_zlib [] (λ i. moment) fine fine master some_peer
      other_peer looping looping (name_of 97) (name_of 98) (name_of 109) (name_of 109) (name_of 109)
      text text sent_packet.0 sent_packet.0 (λ i. moment-IsReady) peers-CanMeet fine-IsWorking
      fine-IsWorking refl refl refl refl refl sent_packet-IsPayload sent_packet-IsPayload
