-- ===== src/Nose/Tests.antt =====
-- Concrete runs of src/nose.c.
use nose.Common.{◌≡◌, refl, none, some, [], ◌∷◌, replicate, done}
use nose.Common.Strings.{c_str, bytes_eq, padded}
use nose.Common.{length, drop, ok, arith}
use nose.Nose.{configure_peer}
use nose.ConfReader.{ConfReader, readable, read_conf}
use nose.ConfReader.Line.{IsEntry}
use nose.ConfReader.Lookup.{Entries, file_of}
use nose.Peer.Samples.{some_peer}
use nose.Common.{ℕ, true, false}
use nose.Pmp.Samples.{plain_inet, name_of, registry_blk}
use nose.Nat.Client.{Memory, datagram}
use nose.Nat.Kinds.{nat_server}
use nose.Peer.{Peer}
use nose.Peer.Start.{looping}
use nose.System.Steps.{IsClient}
use nose.Nose.Run.{Host, run_peer}
use nose.Utils.Names.{drawn, all_name_chars}
use nose.Bucket.Newest.{newest}
use nose.Nose.Client.{Works, run_peer-IsClient}
use nose.Nose.Config.{Fits, configure_peer-filled}
use nose.Nose.{master_peer, peer, peer_arg, conf_arg, parse_args}

-- "peer -c a"
parse_args_peer :
    parse_args (peer_arg ∷ conf_arg ∷ (97 ∷ []) ∷ []) master_peer (replicate 3 0)
    ≡ done (some (peer, 97 ∷ 0 ∷ 0 ∷ []))
unfolding parse_args c_str bytes_eq padded
parse_args_peer = refl

-- "-c" without a path
parse_args_no_path : parse_args (conf_arg ∷ []) master_peer (replicate 3 0) ≡ done none
unfolding parse_args c_str bytes_eq
parse_args_no_path = refl

-- "key=k"
abbrev entries : Entries
entries = (107 ∷ 101 ∷ 121 ∷ [], 107 ∷ []) ∷ []

line-IsEntry : IsEntry (107 ∷ 101 ∷ 121 ∷ []) (107 ∷ [])
line-IsEntry = record {
  key_text = (omega arith, (omega arith, (omega arith, tt)));
  key_line = (omega arith, (omega arith, (omega arith, tt)));
  key_whole = (omega arith, (omega arith, (omega arith, tt)));
  value_text = (omega arith, tt);
  value_line = (omega arith, tt);
  fits = omega arith;
}

peer-Fits : Fits entries some_peer
unfolding c_str bytes_eq
peer-Fits = record {
  source_ipv4_room = tt;
  master_peer_ipv4_room = tt;
  mstp_id_room = tt;
  vlan_local_ipv4_room = tt;
  vlan_remote_ipv4_room = tt;
  stun_server_ipv4_room = tt;
  source_port_room = tt;
  master_peer_port_room = tt;
  key_room = omega arith;
}

abbrev reader : ConfReader
reader = record { file_path = replicate 256 0; items = [] }

configure_peer-filled_example :
    (reader' : ConfReader) × (read_conf reader (97 ∷ []) (some (readable (file_of entries)))
      ≡ done (ok, reader'))
    × (configure_peer length reader' some_peer
        ≡ done (record some_peer {
          source_port = 10;
          master_peer_port = 10;
          key = 107 ∷ drop 1 some_peer.key;
        }))
unfolding c_str bytes_eq
configure_peer-filled_example =
    configure_peer-filled length reader (97 ∷ []) entries some_peer (omega arith) (line-IsEntry, tt)
      (omega arith) peer-Fits

abbrev tests_memory : ℕ → Memory
tests_memory n = record { header = some (replicate 20 n); attribute = true; buf = replicate 40 3 }

-- A host behind a NAT at 5.6.8.8, port 4660, that lets no other answers pass.
abbrev some_host : Host
some_host = record {
  resolve = λ name. some (49 ∷ []);
  socket = λ addr p. some 3;
  world = λ addr p. nat_server (replicate 16 7) 84281096 4660 false;
  memory = tests_memory;
  trans_id = replicate 16 7;
  rand = λ i. i;
  mstp_sock = some 4;
  setsockopt = true;
  registry_blk = some registry_blk;
  server = λ request i. datagram (0 ∷ []);
}

some_host-Works : Works some_host (replicate 16 7) 84281096 4660 false
some_host-Works = record {
  address = 49 ∷ [];
  resolves = λ name. refl;
  fd = 3;
  opens = λ addr p. refl;
  positive = omega arith;
  reaches = λ addr p. refl;
  plenty = record { header = λ n. (replicate 20 n, refl, refl); attribute = λ n. refl };
  trans_long = refl;
  id_long = refl;
  number_fits = omega arith;
  port_fits = omega arith;
  sockfd = 4;
  has_sock = refl;
  sock_positive = omega arith;
  timed = refl;
  blk = registry_blk;
  blk_there = refl;
  answer = λ request. 0 ∷ [];
  answers = λ request. refl;
}

-- The peer of the other tests with an array for its address.
abbrev new_peer : Peer
new_peer = record some_peer { nt = record { nat_type = 0; port = 0; ipv4 = replicate 16 0 } }

run_peer-IsClient_example :
    (pr' : Peer) × (run_peer plain_inet some_host new_peer ≡ done (some (pr', looping)))
    × IsClient pr' (drawn some_host.rand 20 0) (name_of 109)
    × (all_name_chars (drawn some_host.rand 20 0) ≡ true)
    × (newest pr'.peer ≡ [])
    × (pr'.helloed ≡ false)
    × (plain_inet.inet_addr pr'.nt.ipv4 ≡ 84281096)
    × (pr'.nt.port ≡ 4660)
    × (pr'.vlan_local_ipv4 ≡ new_peer.vlan_local_ipv4)
    × (pr'.vlan_remote_ipv4 ≡ new_peer.vlan_remote_ipv4)
    × (pr'.key ≡ new_peer.key)
unfolding c_str
run_peer-IsClient_example =
    run_peer-IsClient plain_inet some_host new_peer (replicate 16 7) (name_of 109) 84281096 4660
      false some_host-Works refl (omega arith) (record { wide = refl; ended = refl }) refl refl
