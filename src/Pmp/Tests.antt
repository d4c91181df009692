-- ===== src/Pmp/Tests.antt =====
-- The packets of src/pmp.c on concrete names and memory.
use nose.Common.{
  ℕ, ◌≡◌, refl, List, [], ◌∷◌, ◌++◌, length, replicate, some, arith, ok, error, done, inl, false,
  ◌>>=◌, failed,
}
use nose.Common.Strings.{c_str}
use nose.Common.Words.{htons}
use nose.Bucket.{BucketItem, push_front_bucket}
use nose.Bucket.Access.{first_vlan}
use nose.Pmp.{ping_req_bytes}
use nose.Pmp.Build.{
  ping_req_pkt, discovery_req_pkt, discovery_rsp_pkt, get_peers_req_pkt, peer_registry_req_pkt,
  find_peer_req_pkt,
}
use nose.Pmp.Parse.{
  ping_req_unpack, discovery_req_unpack, discovery_rsp_unpack, peer_registry_req_unpack,
  find_peer_req_unpack,
}
use nose.Pmp.Fields.{IsNodeId}
use nose.Pmp.Ping.{Received, ping-Received, get_peers_req-Received}
use nose.Pmp.Discovery.{discovery_req_unpack-port, discovery_rsp_unpack-error}
use nose.Pmp.Registry.{Describes, IsWide, IsRegistryReq, registry_req-pushes}
use nose.Pmp.Find.{find_req-answer, first_addr}
use nose.Pmp.Samples.{
  plain_inet, name_of, id_of, ping_blk, discovery_req_blk, discovery_rsp_blk, options_blk,
  registry_blk, find_blk, item_of, empty_bucket, home, still_clock,
}

id_of-IsNodeId : IsNodeId (id_of 97) (name_of 97)
id_of-IsNodeId = record { wide = refl; ended = refl }

sent_ping : List ℕ
unfolding ping_req_pkt
sent_ping = ping_req_bytes (record {
  header = record { type = 1; code = 0 };
  reserve = 0;
  target_id = name_of 98;
  source_id = name_of 97;
})

ping_built : ping_req_pkt (some ping_blk) (id_of 97) (id_of 98) ≡ some sent_ping
unfolding ping_req_pkt sent_ping
ping_built = refl

ping-Received_here :
    Received
      (ping_req_unpack (replicate 21 1) (replicate 21 2) (sent_ping ++ 5 ∷ []) 44)
      (name_of 97)
      (name_of 98)
ping-Received_here =
    ping-Received ping_blk (id_of 97) (name_of 97) (id_of 98) (name_of 98) (replicate 21 1)
      (replicate 21 2) (5 ∷ []) sent_ping 44
      (record {
        block = record { target_wide = refl; source_wide = refl };
        source_name = record { wide = refl; ended = refl };
        target_name = record { wide = refl; ended = refl };
        src_wide = refl;
        tgt_wide = refl;
      })
      (omega arith) (inl ping_built)

-- A name of two letters arrives with 18 bytes of malloc's block behind it.
short_built :
    (bytes : List ℕ) × (get_peers_req_pkt (some ping_blk) (97 ∷ 98 ∷ 0 ∷ []) (id_of 98)
      ≡ some bytes)
unfolding get_peers_req_pkt
short_built = (_, refl)

get_peers_req-Received_here :
    Received
      (ping_req_unpack (replicate 21 1) (replicate 21 2) (short_built.0 ++ []) 44)
      (97 ∷ 98 ∷ replicate 18 36)
      (name_of 98)
unfolding c_str
get_peers_req-Received_here =
    get_peers_req-Received ping_blk (97 ∷ 98 ∷ 0 ∷ []) (id_of 98) (replicate 21 1) (replicate 21 2)
      [] short_built.0 44 (record { target_wide = refl; source_wide = refl }) (omega arith)
      (omega arith) refl refl (omega arith) short_built.1

discovery_built :
    (bytes : List ℕ) × (discovery_req_pkt (some discovery_req_blk) 9998 (id_of 97) (id_of 98)
      ≡ some bytes)
unfolding discovery_req_pkt
discovery_built = (_, refl)

discovery_req_unpack-port_here :
    ((discovery_req_unpack 0 (replicate 21 1) (replicate 21 2) (discovery_built.0 ++ []) 44).0 ≡ ok)
    × ((discovery_req_unpack 0 (replicate 21 1) (replicate 21 2) (discovery_built.0 ++ []) 44).1
        ≡ 3623)
unfolding htons
discovery_req_unpack-port_here =
    discovery_req_unpack-port discovery_req_blk 9998 0 44 (id_of 97) (id_of 98) (replicate 21 1)
      (replicate 21 2) [] discovery_built.0 (omega arith) (omega arith) discovery_built.1

discovery_rsp_built :
    (bytes : List ℕ) × (discovery_rsp_pkt plain_inet
        (some discovery_rsp_blk)
        (some options_blk)
        (id_of 97)
        (item_of 98 ∷ [])
      ≡ some bytes)
unfolding discovery_rsp_pkt
discovery_rsp_built = (_, refl)

discovery_rsp_unpack-error_here :
    discovery_rsp_unpack plain_inet still_clock false empty_bucket
      (item_of 1)
      (discovery_rsp_built.0 ++ [])
      (length discovery_rsp_built.0)
    ≡ done (error, false, empty_bucket)
discovery_rsp_unpack-error_here =
    discovery_rsp_unpack-error plain_inet still_clock discovery_rsp_blk options_blk (id_of 97)
      discovery_rsp_built.0 [] (item_of 98 ∷ []) false empty_bucket (item_of 1) refl
      (unfold c_str in omega arith) refl (refl, tt) (omega arith) discovery_rsp_built.1

abbrev vlan_home : List ℕ
vlan_home = 99 ∷ 100 ∷ 0 ∷ []

registry_built :
    (bytes : List ℕ) × (peer_registry_req_pkt plain_inet
        (some registry_blk)
        (id_of 109)
        (id_of 97)
        vlan_home
        home
      ≡ some bytes)
unfolding peer_registry_req_pkt
registry_built = (_, refl)

registry_blk-IsRegistryReq : IsRegistryReq registry_blk
registry_blk-IsRegistryReq = omega arith

item_of-IsWide : IsWide plain_inet (item_of 1)
item_of-IsWide = omega arith

registry_req-pushes_example :
    (item' : BucketItem) × Describes plain_inet item' home vlan_home (name_of 97)
    × (peer_registry_req_unpack plain_inet still_clock
          (replicate 21 1)
          false
          empty_bucket
          (item_of 1)
          (registry_built.0 ++ 3 ∷ [])
          56
        ≡ (push_front_bucket item' 7 0 false empty_bucket >>= λ (held', bkt').
            done (ok, id_of 97, held', bkt')))
registry_req-pushes_example =
    registry_req-pushes plain_inet still_clock registry_blk (id_of 109) (name_of 109) (id_of 97)
      (name_of 97) vlan_home (replicate 21 1) (3 ∷ []) registry_built.0 home false empty_bucket
      (item_of 1) 56 registry_blk-IsRegistryReq item_of-IsWide
      (record { wide = refl; ended = refl }) (record { wide = refl; ended = refl }) refl
      (omega arith) registry_built.1

find_built :
    (bytes : List ℕ) × (find_peer_req_pkt plain_inet
        (some find_blk)
        (id_of 97)
        (id_of 109)
        vlan_home
      ≡ some bytes)
unfolding find_peer_req_pkt
find_built = (_, refl)

find_req-answer_here :
    find_peer_req_unpack plain_inet still_clock
      (replicate 21 1)
      (replicate 21 2)
      false
      empty_bucket
      (item_of 1)
      (find_built.0 ++ [])
      48
    ≡ done (failed, id_of 97, id_of 109, false, item_of 1)
unfolding first_addr first_vlan
find_req-answer_here =
    find_req-answer plain_inet still_clock find_blk 48 (id_of 97) (name_of 97) (id_of 109)
      (name_of 109) vlan_home find_built.0 (replicate 21 1) (replicate 21 2) [] empty_bucket
      (item_of 1) refl refl (record { wide = refl; ended = refl })
      (record { wide = refl; ended = refl }) refl refl (omega arith) (omega arith) find_built.1
