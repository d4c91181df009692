-- ===== src/Peer/Samples.antt =====
-- Data for the tests of src/peer.c: a compression that keeps everything, and a peer.
use nose.Common.{
  ℕ, ◌≤◌, ◌≡◌, leb, if◌then◌else◌, Option, none, some, List, [], ◌∷◌, replicate, length, false,
  true, arith,
}
use nose.Pmp.Samples.{id_of, home, empty_bucket}
use nose.Peer.{Zlib, Peer, Env}

abbrev pub kept : ℕ → List ℕ → Option (List ℕ)
kept room x = if leb (length x) room then some x else none

pub kept_done : (room : ℕ) (x : List ℕ) → length x ≤ room → (c : List ℕ) × (kept room x ≡ some c)
kept_done room x h = (x, ground arith)

pub kept-le : (room : ℕ) (x c : List ℕ) → kept room x ≡ some c → length c ≤ room
kept-le room x c h = ground arith

pub kept-kept :
    (room room' : ℕ) (x c : List ℕ)
    → kept room x ≡ some c
    → length x ≤ room'
    → kept room' c ≡ some x
kept-kept room room' x c h l = ground arith

abbrev pub plain_zlib : Zlib
plain_zlib = record {
  compress = kept;
  uncompress = kept;
  compress_bound = λ n. n;
  compress_done = kept_done;
  compress-le = kept-le;
  uncompress-compress = kept-kept;
}

abbrev pub some_peer : Peer
some_peer = record {
  nt = home;
  peer_id = id_of 97;
  mstp_id = id_of 109;
  master_peer_port = 9998;
  source_port = 0;
  stun_server_port = 0;
  vlan_local_ipv4 = 97 ∷ 0 ∷ [];
  vlan_remote_ipv4 = 98 ∷ 0 ∷ [];
  master_peer_ipv4 = 99 ∷ 0 ∷ [];
  source_ipv4 = 100 ∷ 0 ∷ [];
  stun_server_ipv4 = 101 ∷ 0 ∷ [];
  remote_peer_addr = record { sin_addr = 5; sin_port = 6 };
  peer = empty_bucket;
  helloed = false;
  key = replicate 32 9;
  syn_counts = 3;
}

abbrev pub fine : Env
fine = record { mem = true; sendto = true; utun_open = 7; thread = true; utun_write = true }
