-- ===== src/Pmp/Parse.antt =====
-- The functions of src/pmp.c that read a packet, of which `size` bytes are in `buf`. Arrays that
-- a caller passes, and the item on the stack, come in with whatever stood in them. `clock i` is
-- the time that gettimeofday gives in the i-th push.
use nose.Common.{
  ℕ, zero, suc, ◌+◌, ◌*◌, Bool, ltb, if◌then◌else◌, List, length, set, drop, Outcome, done, blocked,
  fault, ◌>>=◌, Status, ok, error, replicate,
}
use nose.Common.Strings.{memcpy, strncpy}
use nose.Common.Words.{htons, u8_at, u16_at, u32_at, bytes_at}
use nose.Bucket.{BucketItem, Bucket, push_front_bucket, get_item_by_vlan_ipv4}
use nose.Pmp.{Inet}

-- sizeof
abbrev pub discovery_req_len : ℕ
discovery_req_len = 44

abbrev pub discovery_rsp_len : ℕ
discovery_rsp_len = 24

abbrev pub options_len : ℕ
options_len = 28

abbrev pub ping_req_len : ℕ
ping_req_len = 44

abbrev pub get_peers_options_len : ℕ
get_peers_options_len = 32

abbrev pub peer_registry_req_len : ℕ
peer_registry_req_len = 56

abbrev pub find_peer_req_len : ℕ
find_peer_req_len = 48

-- `strncpy(id, field, 20); id[20] = '\0';`
abbrev pub id_copied : List ℕ → List ℕ → List ℕ
id_copied id field = set (strncpy id field 20) 20 0

-- `memcpy(id, field, 20); id[20] = '\0';`
abbrev pub id_taken : List ℕ → List ℕ → List ℕ
id_taken id field = set (memcpy id field 20) 20 0

-- `memcpy(field, text, strlen(text)); field[strlen(text)] = '\0';`
abbrev pub put_text : List ℕ → List ℕ → List ℕ
put_text field text = set (memcpy field text (length text)) (length text) 0

-- The port is taken as it stands, with its bytes in network order.
unfoldable pub discovery_req_unpack :
    ℕ → List ℕ → List ℕ → List ℕ → ℕ → Status × ℕ × List ℕ × List ℕ
discovery_req_unpack port source_id target_id buf size =
    if ltb size discovery_req_len then (error, port, source_id, target_id) else (
      ok,
      u16_at buf 2,
      id_copied source_id (bytes_at buf 24 20),
      id_copied target_id (bytes_at buf 4 20),
    )

-- Also the reader of ping responses, get-peers requests and registry responses.
unfoldable pub ping_req_unpack : List ℕ → List ℕ → List ℕ → ℕ → Status × List ℕ × List ℕ
ping_req_unpack source_id target_id buf size =
    if ltb size ping_req_len
    then (error, source_id, target_id)
    else (ok, id_copied source_id (bytes_at buf 24 20), id_copied target_id (bytes_at buf 4 20))

module _ (net : Inet) (clock : ℕ → ℕ × ℕ) where
  open net use {inet_ntoa}

  -- The item that a round of PMP_discovery_rsp_unpack fills in: the port is not converted, and
  -- neither the address in the virtual network nor the end of the node's name is set.
  unfoldable pub option_item : BucketItem → List ℕ → BucketItem
  option_item item buf = record item {
    port = u16_at buf 0;
    node_id = memcpy item.node_id (bytes_at buf 8 20) 20;
    ipv4 = put_text item.ipv4 (inet_ntoa (u32_at buf 4));
  }

  unfoldable pub discovery_rsp_loop :
      ℕ → ℕ → List ℕ → BucketItem → Bool → Bucket → Outcome (Bool × Bucket)
  unfolding option_item
  discovery_rsp_loop zero i buf item held bkt = done (held, bkt)
  discovery_rsp_loop (suc n) i buf item held bkt =
      elim (push_front_bucket (option_item item buf) (clock i).0 (clock i).1 held bkt) [
        | done (held', bkt') ↦
            discovery_rsp_loop n (i + 1) (drop options_len buf) (option_item item buf) held' bkt'
        | blocked ↦ blocked
        | fault ↦ fault
      ]

  -- The first check is against the size of a request, and the count is not converted.
  unfoldable pub discovery_rsp_unpack :
      Bool → Bucket → BucketItem → List ℕ → ℕ → Outcome (Status × Bool × Bucket)
  discovery_rsp_unpack held bkt item buf size =
      if ltb size discovery_req_len
      then done (error, held, bkt)
      else if ltb size (u16_at buf 2 * options_len + discovery_rsp_len)
      then done (error, held, bkt)
      else (discovery_rsp_loop (u16_at buf 2) 0 (drop discovery_rsp_len buf) item held bkt
          >>= λ (held, bkt). done (ok, held, bkt))

  unfoldable pub get_peers_item : BucketItem → List ℕ → BucketItem
  get_peers_item item buf = record item {
    port = htons (u16_at buf 2);
    nat_type = u8_at buf 0;
    node_id = memcpy item.node_id (bytes_at buf 12 20) 20;
    ipv4 = put_text item.ipv4 (inet_ntoa (u32_at buf 4));
    vlan_ipv4 = put_text item.vlan_ipv4 (inet_ntoa (u32_at buf 8));
  }

  unfoldable pub get_peers_rsp_loop :
      ℕ → ℕ → List ℕ → BucketItem → Bool → Bucket → Outcome (Bool × Bucket)
  get_peers_rsp_loop zero i buf item held bkt = done (held, bkt)
  get_peers_rsp_loop (suc n) i buf item held bkt =
      elim (push_front_bucket (get_peers_item item buf) (clock i).0 (clock i).1 held bkt) [
        | done (held', bkt') ↦
            get_peers_rsp_loop n (i + 1) (drop get_peers_options_len buf) (get_peers_item item buf)
              held' bkt'
        | blocked ↦ blocked
        | fault ↦ fault
      ]

  unfoldable pub get_peers_rsp_unpack :
      Bool → Bucket → BucketItem → List ℕ → ℕ → Outcome (Status × Bool × Bucket)
  get_peers_rsp_unpack held bkt item buf size =
      if ltb size discovery_rsp_len
      then done (error, held, bkt)
      else if ltb size (discovery_rsp_len + get_peers_options_len * htons (u16_at buf 2))
      then done (error, held, bkt)
      else (get_peers_rsp_loop (htons (u16_at buf 2)) 0 (drop discovery_rsp_len buf) item held bkt
          >>= λ (held, bkt). done (ok, held, bkt))

  -- The item that a registry request describes.
  unfoldable pub registry_item : BucketItem → List ℕ → BucketItem
  registry_item item buf = record item {
    nat_type = htons (u16_at buf 2);
    port = htons (u16_at buf 6);
    ipv4 = put_text item.ipv4 (inet_ntoa (u32_at buf 8));
    vlan_ipv4 = put_text item.vlan_ipv4 (inet_ntoa (u32_at buf 12));
    node_id = id_taken item.node_id (bytes_at buf 36 20);
  }

  -- Also the reader of find-peer responses.
  unfoldable pub peer_registry_req_unpack :
      List ℕ → Bool → Bucket → BucketItem → List ℕ → ℕ → Outcome (Status × List ℕ × Bool × Bucket)
  peer_registry_req_unpack peer_id held bkt item buf size =
      if ltb size peer_registry_req_len
      then done (error, peer_id, held, bkt)
      else (push_front_bucket (registry_item item buf) (clock 0).0 (clock 0).1 held bkt
          >>= λ (held, bkt).
              done (ok, id_taken peer_id (registry_item item buf).node_id, held, bkt))

  -- `char ipv4[16] = {0}; strcpy(ipv4, inet_ntoa(in));` and the search for that address.
  unfoldable pub find_peer_req_unpack :
      List ℕ
      → List ℕ
      → Bool
      → Bucket
      → BucketItem
      → List ℕ
      → ℕ
      → Outcome (Status × List ℕ × List ℕ × Bool × BucketItem)
  find_peer_req_unpack peer_id mstp_id held bkt item buf size =
      if ltb size find_peer_req_len
      then done (error, peer_id, mstp_id, held, item)
      else (get_item_by_vlan_ipv4 held bkt (put_text (replicate 16 0) (inet_ntoa (u32_at buf 4)))
            item
          >>= λ (held, status, item). done (
            status,
            id_taken peer_id (bytes_at buf 28 20),
            id_taken mstp_id (bytes_at buf 8 20),
            held,
            item,
          ))
