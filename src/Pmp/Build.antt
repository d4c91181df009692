-- ===== src/Pmp/Build.antt =====
-- The functions of src/pmp.c that build a packet. `none` is ERROR; otherwise the bytes that are
-- written to the front of `buf`, whose number is the result. What malloc gives is an argument: the
-- null pointer, or a structure with whatever stood in that memory.
use nose.Common.{ℕ, ◌%◌, ◌^◌, Option, none, some, List, [], ◌∷◌, ◌++◌, length}
use nose.Common.Strings.{c_str, memcpy}
use nose.Common.Words.{htons}
use nose.Bucket.{BucketItem}
use nose.Pmp.{
  Inet, PmpHeader, PmpDiscoveryReq, PmpDiscoveryRsp, PmpOptions, PmpPingReq, PmpGetPeersOptions,
  PmpPeerRegistryReq, PmpFindPeerReq, disc, ping, g_ps, r_p, f_p, req, rsp, discovery_req_bytes,
  discovery_rsp_bytes, options_bytes, ping_req_bytes, get_peers_options_bytes,
  peer_registry_req_bytes, find_peer_req_bytes,
}

abbrev header_of : ℕ → ℕ → PmpHeader
header_of type code = record { type = type; code = code }

-- `memcpy(field, id, strlen(id))`: a field keeps what stood behind a shorter text.
abbrev pub copy_text : List ℕ → List ℕ → List ℕ
copy_text field id = memcpy field id (length (c_str id))

unfoldable pub discovery_req_pkt : Option PmpDiscoveryReq → ℕ → List ℕ → List ℕ → Option (List ℕ)
discovery_req_pkt none port source_id target_id = none
discovery_req_pkt (some dreq) port source_id target_id = some (
    discovery_req_bytes (record {
      header = header_of disc req;
      port = htons port;
      target_id = copy_text dreq.target_id target_id;
      source_id = copy_text dreq.source_id source_id;
    }))

unfoldable pub ping_req_pkt : Option PmpPingReq → List ℕ → List ℕ → Option (List ℕ)
ping_req_pkt none source_id target_id = none
ping_req_pkt (some preq) source_id target_id = some (
    ping_req_bytes (record {
      header = header_of ping req;
      reserve = 0;
      target_id = memcpy preq.target_id target_id 20;
      source_id = memcpy preq.source_id source_id 20;
    }))

-- The two reserved bytes are not set.
unfoldable pub ping_rsp_pkt : Option PmpPingReq → List ℕ → List ℕ → Option (List ℕ)
ping_rsp_pkt none source_id target_id = none
ping_rsp_pkt (some prsp) source_id target_id = some (
    ping_req_bytes (record {
      header = header_of ping rsp;
      reserve = prsp.reserve;
      target_id = memcpy prsp.target_id target_id 20;
      source_id = memcpy prsp.source_id source_id 20;
    }))

unfoldable pub get_peers_req_pkt : Option PmpPingReq → List ℕ → List ℕ → Option (List ℕ)
get_peers_req_pkt none source_id target_id = none
get_peers_req_pkt (some gp_req) source_id target_id = some (
    ping_req_bytes (record {
      header = header_of g_ps req;
      reserve = 0;
      target_id = copy_text gp_req.target_id target_id;
      source_id = copy_text gp_req.source_id source_id;
    }))

unfoldable pub peer_registry_rsp_pkt : Option PmpPingReq → List ℕ → List ℕ → Option (List ℕ)
peer_registry_rsp_pkt none mstp_id peer_id = none
peer_registry_rsp_pkt (some pr) mstp_id peer_id = some (
    ping_req_bytes (record {
      header = header_of r_p rsp;
      reserve = pr.reserve;
      target_id = memcpy pr.target_id peer_id 20;
      source_id = memcpy pr.source_id mstp_id 20;
    }))

-- struct nat_type of src/stun/nat_types.h.
pub record NatType : Type 0 where
  pub nat_type : ℕ
  pub port : ℕ
  pub ipv4 : List ℕ

module _ (net : Inet) where
  open net use {inet_addr}

  -- One round for each item; `opt` is written over again and again.
  unfoldable pub option_bytes : PmpOptions → List BucketItem → List ℕ
  option_bytes opt [] = []
  option_bytes opt (x ∷ xs) =
      let opt' : PmpOptions = record opt {
        port = htons x.port;
        ipv4 = inet_addr x.ipv4;
        node_id = memcpy opt.node_id x.node_id 20;
      } in
      options_bytes opt' ++ option_bytes opt' xs

  unfoldable pub discovery_rsp_pkt :
      Option PmpDiscoveryRsp → Option PmpOptions → List ℕ → List BucketItem → Option (List ℕ)
  unfolding option_bytes
  discovery_rsp_pkt none opt target_id items = none
  discovery_rsp_pkt (some drsp) none target_id items = none
  discovery_rsp_pkt (some drsp) (some opt) target_id items = some (
      discovery_rsp_bytes (record {
        header = header_of disc rsp;
        count = htons (length items % 2 ^ 16);
        target_id = copy_text drsp.target_id target_id;
      })
      ++ option_bytes opt items)

  unfoldable pub get_peers_option_bytes : PmpGetPeersOptions → List BucketItem → List ℕ
  get_peers_option_bytes opt [] = []
  get_peers_option_bytes opt (x ∷ xs) =
      let opt' : PmpGetPeersOptions = record opt {
        nat_type = x.nat_type % 256;
        port = htons x.port;
        ipv4 = inet_addr x.ipv4;
        vlan_ipv4 = inet_addr x.vlan_ipv4;
        node_id = memcpy opt.node_id x.node_id 20;
      } in
      get_peers_options_bytes opt' ++ get_peers_option_bytes opt' xs

  -- An empty list of items is an error.
  unfoldable pub get_peers_rsp_pkt :
      Option PmpDiscoveryRsp
      → Option PmpGetPeersOptions
      → List ℕ
      → List BucketItem
      → Option (List ℕ)
  get_peers_rsp_pkt gp_rsp opt target_id [] = none
  get_peers_rsp_pkt none opt target_id (x ∷ xs) = none
  get_peers_rsp_pkt (some gp_rsp) none target_id (x ∷ xs) = none
  get_peers_rsp_pkt (some gp_rsp) (some opt) target_id (x ∷ xs) = some (
      discovery_rsp_bytes (record {
        header = header_of g_ps rsp;
        count = htons (length (x ∷ xs) % 2 ^ 16);
        target_id = copy_text gp_rsp.target_id target_id;
      })
      ++ get_peers_option_bytes opt (x ∷ xs))

  unfoldable pub peer_registry_req_pkt :
      Option PmpPeerRegistryReq → List ℕ → List ℕ → List ℕ → NatType → Option (List ℕ)
  peer_registry_req_pkt none mstp_id peer_id vlan_ipv4 type = none
  peer_registry_req_pkt (some pr) mstp_id peer_id vlan_ipv4 type = some (
      peer_registry_req_bytes (record pr {
        header = header_of r_p req;
        nat_type = htons (type.nat_type % 2 ^ 16);
        port = htons (type.port % 2 ^ 16);
        ipv4 = inet_addr type.ipv4;
        vlan_ipv4 = inet_addr vlan_ipv4;
        mstp_id = memcpy pr.mstp_id mstp_id 20;
        peer_id = memcpy pr.peer_id peer_id 20;
      }))

  unfoldable pub find_peer_req_pkt :
      Option PmpFindPeerReq → List ℕ → List ℕ → List ℕ → Option (List ℕ)
  find_peer_req_pkt none peer_id mstp_id vlan_ipv4 = none
  find_peer_req_pkt (some fpreq) peer_id mstp_id vlan_ipv4 = some (
      find_peer_req_bytes (record fpreq {
        header = header_of f_p req;
        vlan_ipv4 = inet_addr vlan_ipv4;
        mstp_id = memcpy fpreq.mstp_id mstp_id 20;
        peer_id = memcpy fpreq.peer_id peer_id 20;
      }))

  unfoldable pub find_peer_rsp_pkt :
      Option PmpPeerRegistryReq → List ℕ → List ℕ → BucketItem → Option (List ℕ)
  find_peer_rsp_pkt none mstp_id peer_id item = none
  find_peer_rsp_pkt (some fprsp) mstp_id peer_id item = some (
      peer_registry_req_bytes (record fprsp {
        header = header_of f_p rsp;
        nat_type = htons (item.nat_type % 2 ^ 16);
        port = htons item.port;
        ipv4 = inet_addr item.ipv4;
        vlan_ipv4 = inet_addr item.vlan_ipv4;
        mstp_id = memcpy fprsp.mstp_id mstp_id 20;
        peer_id = memcpy fprsp.peer_id peer_id 20;
      }))
