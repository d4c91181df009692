-- ===== src/MasterPeer/Tests.antt =====
-- The rendezvous of src/master_peer.c with concrete peers.
use nose.Common.{
  ℕ, ◌≡◌, refl, true, All, List, [], ◌∷◌, ◌++◌, replicate, some, none, arith, done, false, ok, take,
}
use nose.Common.Strings.{c_str}
use nose.Bucket.{BucketItem, Bucket}
use nose.Bucket.Newest.{newest, known, stamped, IsValid}
use nose.Bucket.Access.{first_vlan}
use nose.Pmp.Build.{
  peer_registry_req_pkt, find_peer_req_pkt, find_peer_rsp_pkt, peer_registry_rsp_pkt,
}
use nose.Pmp.Registry.{Describes}
use nose.Pmp.Find.{first_addr}
use nose.Pmp.Samples.{
  plain_inet, name_of, id_of, ping_blk, discovery_rsp_blk, options_blk, get_peers_blk, registry_blk,
  find_blk, item_of, empty_bucket, home, still_clock,
}
use nose.MasterPeer.{MasterPeer, Scratch, init_master_peer, udp_recv_cb}
use nose.Pmp.Build.{discovery_rsp_pkt}
use nose.Pmp.Samples.{discovery_req_blk}
use nose.Bucket.Push.{pushed}
use nose.Bucket.Access.{get_front_bucket-pushed}
use nose.Common.{fault, length-replicate}
use nose.MasterPeer.Timers.{
  World, TimerScratch, dead, malformed, ping_peer, discovery_proc, get_peers,
}
use nose.MasterPeer.Handlers.{IsSound}
use nose.MasterPeer.Machine.{Reach, here, next, received, get_peers_fires, Reach-IsSound}
use nose.MasterPeer.Masters.{timers-empty, discovery_proc-malformed}
use nose.MasterPeer.Start.{init_master_peer-newest}
use nose.Pmp.Learned.{Learned}
use nose.MasterPeer.Timers.{success}
use nose.MasterPeer.Gossip.{other_master, get_peers-known}
use nose.MasterPeer.Pings.{ping_peer-success}
use nose.Bucket.{get_next_bucket_item}
use nose.Bucket.Rounds.{next_step}
use nose.MasterPeer.Rendezvous.{
  registry-registers, find_peer-answers, rendezvous, handle_both, Meeting, with_peers,
}

abbrev master : MasterPeer
master = record {
  master_peer_bkt = empty_bucket;
  peer_bkt = empty_bucket;
  ipv4 = replicate 16 0;
  port = 0;
  node_id = id_of 109;
}

abbrev scratch : Scratch
scratch = record {
  source_id = replicate 21 1;
  target_id = replicate 21 2;
  port = 0;
  items = replicate 256 (item_of 3);
  item = item_of 4;
  stack_item = item_of 5;
  ping_blk = some ping_blk;
  discovery_blk = some discovery_rsp_blk;
  options_blk = some options_blk;
  get_peers_blk = some get_peers_blk;
  registry_blk = some registry_blk;
}

abbrev vlan : List ℕ
vlan = 99 ∷ 100 ∷ 0 ∷ []

registry_built :
    (bytes : List ℕ) × (peer_registry_req_pkt plain_inet
        (some registry_blk)
        (id_of 109)
        (id_of 97)
        vlan
        home
      ≡ some bytes)
unfolding peer_registry_req_pkt
registry_built = (_, refl)

find_built :
    (bytes : List ℕ) × (find_peer_req_pkt plain_inet (some find_blk) (id_of 98) (id_of 109) vlan
      ≡ some bytes)
unfolding find_peer_req_pkt
find_built = (_, refl)

not_known : known (id_of 97) (newest empty_bucket) ≡ false
unfolding known
not_known = refl

registry-registers_example :
    (item : BucketItem) × (bkt : Bucket) × Describes plain_inet item home vlan (name_of 97)
    × (udp_recv_cb plain_inet still_clock scratch master false (registry_built.0 ++ 3 ∷ []) 56
        ≡ done (
          with_peers master bkt,
          false,
          peer_registry_rsp_pkt (some ping_blk) (id_of 109) (id_of 97),
        ))
    × (newest bkt ≡ stamped item 7 0 ∷ [])
    × IsValid bkt
registry-registers_example =
    registry-registers plain_inet still_clock scratch registry_blk (id_of 109) (name_of 109)
      (id_of 97) (name_of 97) vlan (3 ∷ []) registry_built.0 home master 56 (omega arith)
      (omega arith) (record { wide = refl; ended = refl }) (record { wide = refl; ended = refl })
      refl (omega arith) (omega arith) (omega arith) not_known registry_built.1

find_peer-answers_example :
    udp_recv_cb plain_inet still_clock scratch master false (find_built.0 ++ []) 48
    ≡ done (master, false, none)
unfolding first_addr first_vlan
find_peer-answers_example =
    find_peer-answers plain_inet still_clock scratch find_blk (id_of 98) (name_of 98) (id_of 109)
      (name_of 109) vlan [] find_built.0 master 48 refl refl (record { wide = refl; ended = refl })
      (record { wide = refl; ended = refl }) refl refl (omega arith) (omega arith) find_built.1

meeting :
    Meeting plain_inet scratch scratch registry_blk find_blk
      (id_of 109)
      (name_of 109)
      (id_of 97)
      (name_of 97)
      (id_of 98)
      (name_of 98)
      master
meeting = record {
  pr_fits = omega arith;
  fp_master_wide = refl;
  fp_peer_wide = refl;
  item_wide = omega arith;
  source_wide = refl;
  source_wide' = refl;
  target_wide' = refl;
  master_name = record { wide = refl; ended = refl };
  peer_name = record { wide = refl; ended = refl };
  seeker_name = record { wide = refl; ended = refl };
  valid = omega arith;
  room = omega arith;
  new = not_known;
}

rendezvous_example :
    (item : BucketItem) × (mstp' : MasterPeer) × Describes plain_inet item home vlan (name_of 97)
    × (handle_both plain_inet still_clock scratch scratch master
          (registry_built.0 ++ 3 ∷ [])
          56
          (find_built.0 ++ [])
          48
        ≡ done (
          mstp',
          false,
          find_peer_rsp_pkt plain_inet (some registry_blk) (id_of 109) (id_of 98) item,
        ))
rendezvous_example =
    rendezvous plain_inet still_clock scratch scratch registry_blk find_blk (id_of 109)
      (name_of 109) (id_of 97) (name_of 97) (id_of 98) (name_of 98) vlan vlan registry_built.0
      find_built.0 (3 ∷ []) [] home master 56 48 meeting (omega arith) (omega arith) refl
      registry_built.1 find_built.1

-- A master peer that knows two others, with the address 1.2.
abbrev others : List BucketItem
others = item_of 65 ∷ item_of 66 ∷ []

abbrev short_addr : List ℕ
short_addr = 49 ∷ 46 ∷ 50 ∷ 0 ∷ []

init_master_peer-newest_example :
    (mstp : MasterPeer) × (init_master_peer still_clock master short_addr 8000 others false
      ≡ done (ok, false, mstp))
    × (newest mstp.master_peer_bkt ≡ item_of 66 ∷ item_of 65 ∷ [])
    × (newest mstp.peer_bkt ≡ [])
    × IsValid mstp.master_peer_bkt
    × IsValid mstp.peer_bkt
    × (take 3 mstp.ipv4 ≡ 49 ∷ 46 ∷ 50 ∷ [])
    × (mstp.port ≡ 8000)
unfolding c_str
init_master_peer-newest_example =
    init_master_peer-newest still_clock master short_addr 8000 others refl refl (omega arith)
      (omega arith)

-- Nothing comes back.
abbrev silence : World
silence addr port request = none

abbrev timer_scratch : TimerScratch
timer_scratch = record {
  buf = replicate 8192 7;
  source_id = replicate 21 1;
  target_id = replicate 21 2;
  stack_item = item_of 5;
  ping_blk = some ping_blk;
  discovery_blk = some discovery_req_blk;
}

registered :
    (item : BucketItem) × (bkt : Bucket) × Describes plain_inet item home vlan (name_of 97)
    × (udp_recv_cb plain_inet still_clock scratch master false (registry_built.0 ++ 3 ∷ []) 56
        ≡ done (
          with_peers master bkt,
          false,
          peer_registry_rsp_pkt (some ping_blk) (id_of 109) (id_of 97),
        ))
    × (newest bkt ≡ stamped item 7 0 ∷ [])
    × IsValid bkt
registered =
    registry-registers plain_inet still_clock scratch registry_blk (id_of 109) (name_of 109)
      (id_of 97) (name_of 97) vlan (3 ∷ []) registry_built.0 home master 56 (omega arith)
      (omega arith) (record { wide = refl; ended = refl }) (record { wide = refl; ended = refl })
      refl (omega arith) (omega arith) (omega arith) not_known registry_built.1

master-IsSound : IsSound master false
master-IsSound = record {
  free = refl;
  masters_valid = record { small = omega arith; fits = refl };
  masters_distinct = tt;
  peers_valid = record { small = omega arith; fits = refl };
  peers_distinct = tt;
}

-- A registration, and then the timer get_peers.
registered_then_timer : Reach plain_inet master false (with_peers master registered.1) false
registered_then_timer =
    next (next here (received still_clock scratch (registry_built.0 ++ 3 ∷ []) 56 _ registered.3)) (
      get_peers_fires still_clock silence timer_scratch dead
        (timers-empty plain_inet still_clock silence timer_scratch (with_peers master registered.1)
          refl).2)

Reach-IsSound_here : IsSound (with_peers master registered.1) false
Reach-IsSound_here = Reach-IsSound plain_inet master-IsSound registered_then_timer

timers-empty_here :
    (ping_peer plain_inet still_clock silence timer_scratch master false ≡ fault)
    × (discovery_proc plain_inet still_clock silence timer_scratch master false ≡ fault)
    × (get_peers plain_inet still_clock silence timer_scratch master false
        ≡ done (master, false, dead))
timers-empty_here = timers-empty plain_inet still_clock silence timer_scratch master refl

-- A master peer that knows another.
abbrev knowing : MasterPeer
knowing = record master { master_peer_bkt = pushed empty_bucket (item_of 120) }

discovery_built :
    (bytes : List ℕ) × (discovery_rsp_pkt plain_inet
        (some discovery_rsp_blk)
        (some options_blk)
        (id_of 109)
        (item_of 98 ∷ [])
      ≡ some bytes)
unfolding discovery_rsp_pkt
discovery_built = (_, refl)

abbrev answering : World
answering addr port request = some discovery_built.0

discovery_proc-malformed_example :
    discovery_proc plain_inet still_clock answering timer_scratch knowing false
    ≡ done (knowing, false, malformed)
discovery_proc-malformed_example =
    discovery_proc-malformed plain_inet still_clock answering timer_scratch knowing (item_of 120)
      discovery_rsp_blk options_blk (id_of 109) discovery_built.0 (item_of 98 ∷ [])
      (get_front_bucket-pushed empty_bucket (item_of 120) master-IsSound.masters_valid
        (omega arith))
      refl (unfold c_str in omega arith) refl (refl, tt) (omega arith)
      (omega (arith, length-replicate {A = ℕ} 8192 7)) discovery_built.1 refl

-- Another master peer with one peer in its table, whom the first one asks.
abbrev well_known : MasterPeer
well_known = record master { peer_bkt = pushed empty_bucket (item_of 97) }

get_peers-known_example :
    (bkt : Bucket) × All (λ x. known x.node_id (newest bkt) ≡ true) (item_of 97 ∷ [])
    × Learned plain_inet (item_of 97 ∷ []) (0 ∷ []) empty_bucket bkt
    × (get_peers plain_inet still_clock
          (other_master plain_inet still_clock scratch [] well_known)
          timer_scratch
          knowing
          false
        ≡ done (with_peers knowing bkt, false, success))
get_peers-known_example =
    get_peers-known plain_inet still_clock still_clock timer_scratch scratch [] knowing well_known
      (item_of 120)
      (record {
        ping_blk = ping_blk;
        ping_there = refl;
        ping_wide = record { target_wide = refl; source_wide = refl };
        buf_wide = omega (arith, length-replicate {A = ℕ} 8192 7);
        item_wide = record { ipv4_wide = refl; vlan_wide = refl; node_wide = refl };
        source_wide = refl;
        target_wide = refl;
        items_wide = omega arith;
        rsp_blk = discovery_rsp_blk;
        rsp_there = refl;
        rsp_wide = refl;
        options_blk = get_peers_blk;
        options_there = refl;
        options_wide = refl;
      })
      (get_front_bucket-pushed empty_bucket (item_of 120) master-IsSound.masters_valid
        (omega arith))
      (unfold c_str in omega arith) (unfold c_str in omega arith)
      (record { small = omega arith; fits = refl }) (omega arith)
      (record { small = omega arith; fits = refl }) (omega arith)
      (record { named = refl; port_fits = omega arith }, tt) (unfold c_str in omega arith, tt) refl

abbrev pinged : Bucket
pinged = record { count = 1; visited = 1; b = knowing.master_peer_bkt.b }

-- The other master peer answers a ping, although its name is another one.
ping_peer-success_example :
    ping_peer plain_inet still_clock
      (other_master plain_inet still_clock scratch [] well_known)
      timer_scratch
      knowing
      false
    ≡ done (record knowing { master_peer_bkt = pinged }, false, success)
ping_peer-success_example =
    ping_peer-success plain_inet still_clock still_clock timer_scratch scratch [] (name_of 109)
      (name_of 120) knowing well_known (item_of 120) pinged
      (record {
        req_blk = ping_blk;
        req_there = refl;
        req_wide = record { target_wide = refl; source_wide = refl };
        buf_wide = omega (arith, length-replicate {A = ℕ} 8192 7);
        source_wide = refl;
        target_wide = refl;
        rsp_blk = ping_blk;
        rsp_there = refl;
        rsp_wide = record { target_wide = refl; source_wide = refl };
        source_wide' = refl;
        target_wide' = refl;
      })
      next_is (record { wide = refl; ended = refl }) (record { wide = refl; ended = refl })
  where
    next_is : get_next_bucket_item false knowing.master_peer_bkt ≡ done (false, pinged, item_of 120)
    next_is = next_step knowing.master_peer_bkt (item_of 120) (omega arith) refl
