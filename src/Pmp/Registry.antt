-- ===== src/Pmp/Registry.antt =====
-- Registry requests and find-peer requests of src/pmp.c, from the builder to the bucket.
use nose.Common.{
  ℕ, ◌+◌, ◌*◌, ◌/◌, ◌%◌, ◌^◌, ◌≤◌, ◌≡◌, sym, Bool, List, [], ◌∷◌, ◌++◌, length, some, arith, ok,
  le→ltb, eq_of_some, done, ◌>>=◌, length-append,
}
use nose.Common.Strings.{c_str}
use nose.Common.Words.{htons, IsU16, IsU32, htons-htons, htons-lt}
use nose.Bucket.{BucketItem, Bucket, push_front_bucket}
use nose.Pmp.{Inet, PmpPeerRegistryReq, peer_registry_req_bytes}
use nose.Pmp.Build.{peer_registry_req_pkt, NatType}
use nose.Pmp.Parse.{
  peer_registry_req_unpack, registry_item, peer_registry_req_len, id_taken, put_text,
}
use nose.Pmp.Fields.{
  IsNodeId, second_of_two, memcpy-id, id_taken_lem, id_taken-ended, c_str-put_text, addr-put_text,
}

u16_bytes : (v : ℕ) → IsU16 v → v % 256 + 256 * (v / 256 % 256) ≡ v
u16_bytes v h = omega arith

pub u32_bytes :
    (v : ℕ)
    → IsU32 v
    → v % 256 + 256 * (v / 256 % 256) + 65536 * (v / 65536 % 256) + 16777216 * (v / 16777216 % 256)
      ≡ v
u32_bytes v h = omega arith

-- The fields of a registry request or of a find-peer response, as they fit their places.
pub record IsRegistryReq (p : PmpPeerRegistryReq) : Type 0 where
  pub nat_type_fits : IsU16 p.nat_type
  pub port_fits : IsU16 p.port
  pub ipv4_fits : IsU32 p.ipv4
  pub vlan_fits : IsU32 p.vlan_ipv4
  pub mstp_wide : length p.mstp_id ≡ 20
  pub peer_wide : length p.peer_id ≡ 20

module _ (net : Inet) where
  pub registry_item-bytes :
      (clock : ℕ → ℕ × ℕ) (item : BucketItem) (p : PmpPeerRegistryReq) (rest : List ℕ)
      → IsRegistryReq p
      → registry_item net clock item (peer_registry_req_bytes p ++ rest) ≡ record item {
        nat_type = htons p.nat_type;
        port = htons p.port;
        ipv4 = put_text item.ipv4 (net.inet_ntoa p.ipv4);
        vlan_ipv4 = put_text item.vlan_ipv4 (net.inet_ntoa p.vlan_ipv4);
        node_id = id_taken item.node_id p.peer_id;
      }
  unfolding registry_item
  registry_item-bytes clock item p rest v = rw (
    u16_bytes p.nat_type v.nat_type_fits,
    u16_bytes p.port v.port_fits,
    u32_bytes p.ipv4 v.ipv4_fits,
    u32_bytes p.vlan_ipv4 v.vlan_fits,
    second_of_two 20 20 p.mstp_id p.peer_id rest (sym v.mstp_wide) (sym v.peer_wide),
  )

  -- An item as a registry request describes it: the type and the port cut to 16 bits, the two
  -- addresses, and the name.
  pub record Describes (item : BucketItem) (type : NatType) (vlan s : List ℕ) : Type 0 where
    pub nat_type_is : item.nat_type ≡ type.nat_type % 2 ^ 16
    pub port_is : item.port ≡ type.port % 2 ^ 16
    pub ipv4_is : net.inet_addr item.ipv4 ≡ net.inet_addr type.ipv4
    pub vlan_is : c_str item.vlan_ipv4 ≡ net.inet_ntoa (net.inet_addr vlan)
    pub node_is : item.node_id ≡ s ++ 0 ∷ []

  -- The arrays of an item have the widths of struct bucket_item.
  pub record IsWide (item : BucketItem) : Type 0 where
    pub ipv4_wide : length item.ipv4 ≡ 16
    pub vlan_wide : length item.vlan_ipv4 ≡ 16
    pub node_wide : length item.node_id ≡ 21

  -- The structure that peer_registry_req_pkt sends.
  sent_req : PmpPeerRegistryReq → List ℕ → NatType → List ℕ → List ℕ → PmpPeerRegistryReq
  sent_req pr vlan type m s = record pr {
    header = record { type = 3; code = 0 };
    nat_type = htons (type.nat_type % 2 ^ 16);
    port = htons (type.port % 2 ^ 16);
    ipv4 = net.inet_addr type.ipv4;
    vlan_ipv4 = net.inet_addr vlan;
    mstp_id = m;
    peer_id = s;
  }

  sent_req-IsRegistryReq :
      (pr : PmpPeerRegistryReq) (vlan : List ℕ) (type : NatType) (m s : List ℕ)
      → length m ≡ 20
      → length s ≡ 20
      → IsRegistryReq (sent_req pr vlan type m s)
  unfolding sent_req
  sent_req-IsRegistryReq pr vlan type m s hm hs = record {
    nat_type_fits = htons-lt (type.nat_type % 2 ^ 16);
    port_fits = htons-lt (type.port % 2 ^ 16);
    ipv4_fits = net.addr_lt type.ipv4;
    vlan_fits = net.addr_lt vlan;
    mstp_wide = hm;
    peer_wide = hs;
  }

  registry_item-Describes :
      (clock : ℕ → ℕ × ℕ) (item : BucketItem) (pr : PmpPeerRegistryReq) (vlan : List ℕ)
      (type : NatType) (m s rest : List ℕ)
      → IsWide item
      → length m ≡ 20
      → length s ≡ 20
      → Describes
          (registry_item net clock item
            (peer_registry_req_bytes (sent_req pr vlan type m s) ++ rest))
          type
          vlan
          s
  registry_item-Describes clock item pr vlan type m s rest w hm hs =
      rw
        (registry_item-bytes clock item (sent_req pr vlan type m s) rest
          (sent_req-IsRegistryReq pr vlan type m s hm hs))
        (unfold sent_req in
          record {
            nat_type_is = htons-htons (type.nat_type % 2 ^ 16) (omega arith);
            port_is = htons-htons (type.port % 2 ^ 16) (omega arith);
            ipv4_is =
                addr-put_text net item.ipv4 (net.inet_addr type.ipv4) (net.addr_lt type.ipv4)
                  (omega arith);
            vlan_is =
                c_str-put_text item.vlan_ipv4 (net.inet_ntoa (net.inet_addr vlan)) (net.ntoa_text _)
                  (omega (arith, net.ntoa_short (net.inet_addr vlan)));
            node_is = id_taken_lem item.node_id s w.node_wide hs;
          })

  sent_req-bytes :
      (pr : PmpPeerRegistryReq) (mstp m peer s vlan : List ℕ) (type : NatType) (bytes : List ℕ)
      → IsRegistryReq pr
      → IsNodeId mstp m
      → IsNodeId peer s
      → peer_registry_req_pkt net (some pr) mstp peer vlan type ≡ some bytes
      → peer_registry_req_bytes (sent_req pr vlan type m s) ≡ bytes
  unfolding peer_registry_req_pkt sent_req
  sent_req-bytes pr mstp m peer s vlan type bytes v hm hs e = eq_of_some (
      rw (memcpy-id pr.mstp_id mstp m hm v.mstp_wide, memcpy-id pr.peer_id peer s hs v.peer_wide) at
        e)

  -- A registry request takes 56 bytes.
  pub length-registry_req :
      (pr : PmpPeerRegistryReq) (mstp m peer s vlan bytes : List ℕ) (type : NatType)
      → IsRegistryReq pr
      → IsNodeId mstp m
      → IsNodeId peer s
      → peer_registry_req_pkt net (some pr) mstp peer vlan type ≡ some bytes
      → length bytes ≡ peer_registry_req_len
  length-registry_req pr mstp m peer s vlan bytes type v hm hs e =
      rw (← sent_req-bytes pr mstp m peer s vlan type bytes v hm hs e)
        (unfold sent_req in omega (arith, hm.wide, hs.wide, length-append m s))

  pub unpack-pushes :
      (clock : ℕ → ℕ × ℕ) (peer_id s buf : List ℕ) (held : Bool) (bkt : Bucket) (item : BucketItem)
      (size : ℕ)
      → peer_registry_req_len ≤ size
      → length peer_id ≡ 21
      → length s ≡ 20
      → (registry_item net clock item buf).node_id ≡ s ++ 0 ∷ []
      → peer_registry_req_unpack net clock peer_id held bkt item buf size ≡ (
          push_front_bucket (registry_item net clock item buf) (clock 0).0 (clock 0).1 held bkt
          >>= λ (held', bkt'). done (ok, s ++ 0 ∷ [], held', bkt'))
  unfolding peer_registry_req_unpack
  unpack-pushes clock peer_id s buf held bkt item size h hp hs e =
      rw (le→ltb size peer_registry_req_len h, e, id_taken-ended peer_id s hp hs)

  -- A registry request that is built over any block of memory from malloc, followed by anything and
  -- read at its size of 56 bytes or more, makes the reader push one item, which the request
  -- describes, and hand back the peer's name, at whatever the push answers.
  pub registry_req-pushes :
      (clock : ℕ → ℕ × ℕ) (pr : PmpPeerRegistryReq) (mstp m peer s vlan peer_id rest bytes : List ℕ)
      (type : NatType) (held : Bool) (bkt : Bucket) (item : BucketItem) (size : ℕ)
      → IsRegistryReq pr
      → IsWide item
      → IsNodeId mstp m
      → IsNodeId peer s
      → length peer_id ≡ 21
      → peer_registry_req_len ≤ size
      → peer_registry_req_pkt net (some pr) mstp peer vlan type ≡ some bytes
      → (item' : BucketItem) × Describes item' type vlan s
        × (peer_registry_req_unpack net clock peer_id held bkt item (bytes ++ rest) size ≡ (
            push_front_bucket item' (clock 0).0 (clock 0).1 held bkt >>= λ (held', bkt').
            done (ok, s ++ 0 ∷ [], held', bkt')))
  registry_req-pushes clock pr mstp m peer s vlan peer_id rest bytes type held bkt item size v w hm
        hs hp h e =
      let b = sent_req-bytes pr mstp m peer s vlan type bytes v hm hs e in
      let d = registry_item-Describes clock item pr vlan type m s rest w hm.wide hs.wide in
      rw (← b) (
        registry_item net clock item (peer_registry_req_bytes (sent_req pr vlan type m s) ++ rest),
        d,
        unpack-pushes clock peer_id s _ held bkt item size h hp hs.wide d.node_is,
      )
