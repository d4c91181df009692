-- ===== src/Nose.antt =====
-- src/nose.c: the command line, and what a peer or a master peer takes from its configuration.
-- `atoi` is the C library's, on the text of an array. Numbers in the file are taken as they are.
pub mod Config
pub mod Run
pub mod Client
mod Tests
use nose.Common.{
  ℕ, zero, suc, ◌+◌, Bool, true, false, ltb, ◌==◌, if◌then◌else◌, Option, none, some, List, [], ◌∷◌,
  ◌++◌, length, replicate, Outcome, done, blocked, fault, ◌>>=◌, Status, ok, failed, error,
}
use nose.Common.Strings.{c_str, same_str, strncpy}
use nose.Bucket.{BucketItem, Bucket}
use nose.ConfReader.{ConfReader, File, read_conf, get_value}
use nose.MasterPeer.{MasterPeer, init_master_peer}
use nose.Peer.{Peer}

pub data WorkMode : Type 0 where
  master_peer peer : WorkMode

-- "peer", "-c"
abbrev pub peer_arg : List ℕ
peer_arg = 112 ∷ 101 ∷ 101 ∷ 114 ∷ []

abbrev pub conf_arg : List ℕ
conf_arg = 45 ∷ 99 ∷ []

-- `strncpy(conf_path, path, strlen(path))`
abbrev pub put_path : List ℕ → List ℕ → Outcome (List ℕ)
put_path conf_path path =
    let n = length (c_str path) in
    if ltb (length conf_path) n then fault else done (strncpy conf_path path n)

-- The loop over the arguments: none for the usage, and otherwise the mode and the path.
unfoldable pub parse_args : List (List ℕ) → WorkMode → List ℕ → Outcome (Option (WorkMode × List ℕ))
parse_args [] mode conf_path = done (some (mode, conf_path))
parse_args (arg ∷ []) mode conf_path =
    if same_str arg peer_arg
    then done (some (peer, conf_path))
    else if same_str arg conf_arg
    then done none
    else done (some (mode, conf_path))
parse_args (arg ∷ path ∷ rest) mode conf_path =
    let as_peer = parse_args (path ∷ rest) peer conf_path in
    let other = parse_args (path ∷ rest) mode conf_path in
    let with_path = put_path conf_path path >>= λ conf_path'. parse_args rest mode conf_path' in
    if same_str arg peer_arg
    then as_peer
    else if same_str arg conf_arg
    then (if length (c_str path) == 0 then done none else with_path)
    else other

-- get_value whose answer is not looked at.
abbrev pub fill : ConfReader → List ℕ → List ℕ → Outcome (List ℕ)
fill cread key value = get_value cread key value >>= λ (status, value'). done value'

-- The keys of the configuration file.
abbrev pub source_ipv4_key : List ℕ
source_ipv4_key = 115 ∷ 111 ∷ 117 ∷ 114 ∷ 99 ∷ 101 ∷ 95 ∷ 105 ∷ 112 ∷ 118 ∷ 52 ∷ []

abbrev pub master_peer_ipv4_key : List ℕ
master_peer_ipv4_key =
    109 ∷ 97 ∷ 115 ∷ 116 ∷ 101 ∷ 114 ∷ 95 ∷ 112 ∷ 101 ∷ 101 ∷ 114 ∷ 95 ∷ 105 ∷ 112 ∷ 118 ∷ 52 ∷ []

abbrev pub mstp_id_key : List ℕ
mstp_id_key = 109 ∷ 115 ∷ 116 ∷ 112 ∷ 95 ∷ 105 ∷ 100 ∷ []

abbrev pub vlan_local_ipv4_key : List ℕ
vlan_local_ipv4_key =
    118 ∷ 108 ∷ 97 ∷ 110 ∷ 95 ∷ 108 ∷ 111 ∷ 99 ∷ 97 ∷ 108 ∷ 95 ∷ 105 ∷ 112 ∷ 118 ∷ 52 ∷ []

abbrev pub vlan_remote_ipv4_key : List ℕ
vlan_remote_ipv4_key =
    118 ∷ 108 ∷ 97 ∷ 110 ∷ 95 ∷ 114 ∷ 101 ∷ 109 ∷ 111 ∷ 116 ∷ 101 ∷ 95 ∷ 105 ∷ 112 ∷ 118 ∷ 52 ∷ []

abbrev pub stun_server_ipv4_key : List ℕ
stun_server_ipv4_key =
    115 ∷ 116 ∷ 117 ∷ 110 ∷ 95 ∷ 115 ∷ 101 ∷ 114 ∷ 118 ∷ 101 ∷ 114 ∷ 95 ∷ 105 ∷ 112 ∷ 118 ∷ 52 ∷ []

abbrev pub source_port_key : List ℕ
source_port_key = 115 ∷ 111 ∷ 117 ∷ 114 ∷ 99 ∷ 101 ∷ 95 ∷ 112 ∷ 111 ∷ 114 ∷ 116 ∷ []

abbrev pub master_peer_port_key : List ℕ
master_peer_port_key =
    109 ∷ 97 ∷ 115 ∷ 116 ∷ 101 ∷ 114 ∷ 95 ∷ 112 ∷ 101 ∷ 101 ∷ 114 ∷ 95 ∷ 112 ∷ 111 ∷ 114 ∷ 116 ∷ []

abbrev pub key_key : List ℕ
key_key = 107 ∷ 101 ∷ 121 ∷ []

abbrev ipv4_key : List ℕ
ipv4_key = 105 ∷ 112 ∷ 118 ∷ 52 ∷ []

abbrev port_key : List ℕ
port_key = 112 ∷ 111 ∷ 114 ∷ 116 ∷ []

abbrev node_id_key : List ℕ
node_id_key = 110 ∷ 111 ∷ 100 ∷ 101 ∷ 95 ∷ 105 ∷ 100 ∷ []

module _ (atoi : List ℕ → ℕ) where
  -- `pr` after memset. The port of the STUN server is not read.
  unfoldable pub configure_peer : ConfReader → Peer → Outcome Peer
  configure_peer cread pr = do
    source_ipv4 ← fill cread source_ipv4_key pr.source_ipv4
    master_peer_ipv4 ← fill cread master_peer_ipv4_key pr.master_peer_ipv4
    mstp_id ← fill cread mstp_id_key pr.mstp_id
    vlan_local_ipv4 ← fill cread vlan_local_ipv4_key pr.vlan_local_ipv4
    vlan_remote_ipv4 ← fill cread vlan_remote_ipv4_key pr.vlan_remote_ipv4
    stun_server_ipv4 ← fill cread stun_server_ipv4_key pr.stun_server_ipv4
    source_port ← fill cread source_port_key (replicate 10 0)
    master_peer_port ← fill cread master_peer_port_key (replicate 10 0)
    key ← fill cread key_key pr.key
    done (record pr {
      source_ipv4 = source_ipv4;
      master_peer_ipv4 = master_peer_ipv4;
      mstp_id = mstp_id;
      vlan_local_ipv4 = vlan_local_ipv4;
      vlan_remote_ipv4 = vlan_remote_ipv4;
      stun_server_ipv4 = stun_server_ipv4;
      source_port = atoi source_port;
      master_peer_port = atoi master_peer_port;
      key = key;
    })

  -- `mstp` after memset, and `blank` an item of zeros for the other master peer.
  unfoldable pub configure_master_peer :
      (ℕ → ℕ × ℕ)
      → ConfReader
      → MasterPeer
      → BucketItem
      → Bool
      → Outcome (Status × Bool × MasterPeer)
  configure_master_peer clock cread mstp blank held = do
    ipv4 ← fill cread ipv4_key (replicate 16 0)
    port ← fill cread port_key (replicate 6 0)
    node_id ← fill cread node_id_key mstp.node_id
    other_ipv4 ← fill cread master_peer_ipv4_key blank.ipv4
    other_port ← fill cread master_peer_port_key (replicate 6 0)
    other_id ← fill cread mstp_id_key blank.node_id
    let item : BucketItem = record blank {
      ipv4 = other_ipv4;
      port = atoi other_port;
      node_id = other_id;
    }
    init_master_peer clock (record mstp { node_id = node_id }) ipv4 (atoi port) (item ∷ []) held

-- What main comes to before the loops start: the usage, a file that cannot be read, a peer to be
-- initialised, or a master peer.
pub data Started : Type 0 where
  usage unread : Started
  as_peer : Peer → Started
  as_master : Status → Bool → MasterPeer → Started

-- `args` are the arguments behind the program's name, and `files` the contents of a file.
unfoldable pub main :
    (List ℕ → ℕ)
    → (ℕ → ℕ × ℕ)
    → (List ℕ → Option File)
    → List (List ℕ)
    → ConfReader
    → Peer
    → MasterPeer
    → BucketItem
    → Bool
    → Outcome Started
unfolding parse_args
main atoi clock files [] cread pr mstp blank held = done usage
main atoi clock files (arg ∷ args) cread pr mstp blank held =
    parse_args (arg ∷ args) master_peer (replicate 256 0) >>= λ parsed. elim parsed [
      | none ↦ done usage
      | some (mode, path) ↦
          if length (c_str path) == 0
          then done usage
          else (read_conf cread path (files (c_str path)) >>= λ (status, cread'). elim status [
            | error ↦ done unread
            | failed ↦ done unread
            | ok ↦ elim mode [
              | peer ↦ configure_peer atoi cread' pr >>= λ pr'. done (as_peer pr')
              | master_peer ↦
                  configure_master_peer atoi clock cread' mstp blank held >>= λ (st, held', mstp').
                  done (as_master st held' mstp')
            ]
          ])
    ]
