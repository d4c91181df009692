-- ===== src/Nose/Config.antt =====
-- What a peer of src/nose.c starts with.
use nose.Common.{
  ℕ, ◌≤◌, ◌≡◌, refl, Option, none, some, List, ◌++◌, length, drop, replicate, done, ◌>>=◌, le→ltb,
  ok,
}
use nose.Common.Strings.{c_str}
use nose.ConfReader.{max, ConfReader, readable, read_conf, get_value}
use nose.ConfReader.Lookup.{Entries, file_of, AreEntries, lookup, copied, read_conf-all}
use nose.Peer.{Peer}
use nose.Nose.{
  fill, configure_peer, source_ipv4_key, master_peer_ipv4_key, mstp_id_key, vlan_local_ipv4_key,
  vlan_remote_ipv4_key, stun_server_ipv4_key, source_port_key, master_peer_port_key, key_key,
}

-- The value of a key in front of an array, or the array as it is.
abbrev pub filled : Entries → List ℕ → List ℕ → List ℕ
filled entries key array = elim (lookup (c_str key) entries) [
  | none ↦ array
  | some v ↦ v ++ drop (length v) array
]

-- A value that there is has room in the array.
abbrev pub HasRoom : Option (List ℕ) → List ℕ → Type 0
HasRoom none array = Unit {0}
HasRoom (some v) array = length v ≤ length array

abbrev pub Room : Entries → List ℕ → List ℕ → Type 0
Room entries key array = HasRoom (lookup (c_str key) entries) array

copied_lem :
    (o : Option (List ℕ)) (array : List ℕ)
    → HasRoom o array
    → (copied o array >>= λ (status, value). done value)
      ≡ done (elim o [ none ↦ array | some v ↦ v ++ drop (length v) array ])
copied_lem none array h = refl
copied_lem (some v) array h = rw (le→ltb (length array) (length v) h) refl

fill-lookup :
    (reader : ConfReader) (entries : Entries) (key array : List ℕ)
    → get_value reader key array ≡ copied (lookup (c_str key) entries) array
    → Room entries key array
    → fill reader key array ≡ done (filled entries key array)
fill-lookup reader entries key array e h = rw e (copied_lem (lookup (c_str key) entries) array h)

-- The values that a peer takes from its file fit the arrays they go to.
pub record Fits (entries : Entries) (pr : Peer) : Type 0 where
  pub source_ipv4_room : Room entries source_ipv4_key pr.source_ipv4
  pub master_peer_ipv4_room : Room entries master_peer_ipv4_key pr.master_peer_ipv4
  pub mstp_id_room : Room entries mstp_id_key pr.mstp_id
  pub vlan_local_ipv4_room : Room entries vlan_local_ipv4_key pr.vlan_local_ipv4
  pub vlan_remote_ipv4_room : Room entries vlan_remote_ipv4_key pr.vlan_remote_ipv4
  pub stun_server_ipv4_room : Room entries stun_server_ipv4_key pr.stun_server_ipv4
  pub source_port_room : Room entries source_port_key (replicate 10 0)
  pub master_peer_port_room : Room entries master_peer_port_key (replicate 10 0)
  pub key_room : Room entries key_key pr.key

-- A peer is configured with the file of lines `key=value` that was read for it: each of its texts is
-- the value of the first line with its key, in front of what its array held, or the array as it was
-- where there is no such line, and its two ports are atoi of theirs. The values fit their arrays.
pub configure_peer-filled :
    (atoi : List ℕ → ℕ) (reader : ConfReader) (path : List ℕ) (entries : Entries) (pr : Peer)
    → length (c_str path) ≤ length reader.file_path
    → AreEntries entries
    → length entries ≤ max
    → Fits entries pr
    → (reader' : ConfReader) × (read_conf reader path (some (readable (file_of entries)))
        ≡ done (ok, reader'))
      × (configure_peer atoi reader' pr
          ≡ done (record pr {
            source_ipv4 = filled entries source_ipv4_key pr.source_ipv4;
            master_peer_ipv4 = filled entries master_peer_ipv4_key pr.master_peer_ipv4;
            mstp_id = filled entries mstp_id_key pr.mstp_id;
            vlan_local_ipv4 = filled entries vlan_local_ipv4_key pr.vlan_local_ipv4;
            vlan_remote_ipv4 = filled entries vlan_remote_ipv4_key pr.vlan_remote_ipv4;
            stun_server_ipv4 = filled entries stun_server_ipv4_key pr.stun_server_ipv4;
            source_port = atoi (filled entries source_port_key (replicate 10 0));
            master_peer_port = atoi (filled entries master_peer_port_key (replicate 10 0));
            key = filled entries key_key pr.key;
          }))
unfolding configure_peer
configure_peer-filled atoi reader path entries pr p v h f =
    let (reader', e, get) = read_conf-all reader path entries p v h in
    let take_in : (key array : List ℕ)
        → Room entries key array
        → fill reader' key array ≡ done (filled entries key array) =
      λ key array room. fill-lookup reader' entries key array (get key array) room in
    (
      reader',
      e,
      rw
          (
            take_in source_ipv4_key pr.source_ipv4 f.source_ipv4_room,
            take_in master_peer_ipv4_key pr.master_peer_ipv4 f.master_peer_ipv4_room,
            take_in mstp_id_key pr.mstp_id f.mstp_id_room,
            take_in vlan_local_ipv4_key pr.vlan_local_ipv4 f.vlan_local_ipv4_room,
            take_in vlan_remote_ipv4_key pr.vlan_remote_ipv4 f.vlan_remote_ipv4_room,
            take_in stun_server_ipv4_key pr.stun_server_ipv4 f.stun_server_ipv4_room,
            take_in source_port_key (replicate 10 0) f.source_port_room,
            take_in master_peer_port_key (replicate 10 0) f.master_peer_port_room,
            take_in key_key pr.key f.key_room,
          )
          refl,
    )
