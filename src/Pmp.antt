-- ===== src/Pmp.antt =====
-- src/pmp.h: the packets of the peer management protocol, as structures and as the bytes that
-- they are in memory (none of them has padding), and the address functions of the C library.
pub mod Build
pub mod Parse
pub mod Fields
pub mod Ping
pub mod Samples
mod Tests
pub mod Find
pub mod Registry
pub mod Tables
pub mod Discovery
pub mod Options
pub mod Named
pub mod Learned
pub mod Gossip
use nose.Common.{ℕ, ◌≤◌, ◌≡◌, List, ◌∷◌, ◌++◌, length}
use nose.Common.Strings.{c_str, IsText}
use nose.Common.Words.{IsU32, bytes16, bytes32}

-- inet_addr reads a text up to its NUL; inet_ntoa gives a text without its NUL. An address is the
-- number whose bytes in memory are in network order.
pub record Inet : Type 0 where
  pub inet_addr : List ℕ → ℕ
  pub inet_ntoa : ℕ → List ℕ
  pub addr_lt : (s : List ℕ) → IsU32 (inet_addr s)
  pub addr_text : (s : List ℕ) → inet_addr s ≡ inet_addr (c_str s)
  pub ntoa_text : (a : ℕ) → IsText (inet_ntoa a)
  pub ntoa_short : (a : ℕ) → length (inet_ntoa a) ≤ 15
  pub addr-ntoa : (a : ℕ) → IsU32 a → inet_addr (inet_ntoa a) ≡ a

-- Types of a packet.
abbrev pub disc : ℕ
disc = 0

abbrev pub ping : ℕ
ping = 1

abbrev pub g_ps : ℕ
g_ps = 2

abbrev pub r_p : ℕ
r_p = 3

abbrev pub f_p : ℕ
f_p = 4

-- Codes of a packet.
abbrev pub req : ℕ
req = 0

abbrev pub rsp : ℕ
rsp = 1

pub record PmpHeader : Type 0 where
  pub type : ℕ
  pub code : ℕ

pub record PmpDiscoveryReq : Type 0 where
  pub header : PmpHeader
  pub port : ℕ
  pub target_id : List ℕ
  pub source_id : List ℕ

-- Also PMP_get_peers_rsp_t, which has the same fields.
pub record PmpDiscoveryRsp : Type 0 where
  pub header : PmpHeader
  pub count : ℕ
  pub target_id : List ℕ

pub record PmpOptions : Type 0 where
  pub port : ℕ
  pub reserve : ℕ
  pub ipv4 : ℕ
  pub node_id : List ℕ

-- Also the type of ping responses, get-peers requests and registry responses.
pub record PmpPingReq : Type 0 where
  pub header : PmpHeader
  pub reserve : ℕ
  pub target_id : List ℕ
  pub source_id : List ℕ

pub record PmpGetPeersOptions : Type 0 where
  pub nat_type : ℕ
  pub reserve : ℕ
  pub port : ℕ
  pub ipv4 : ℕ
  pub vlan_ipv4 : ℕ
  pub node_id : List ℕ

-- Also the type of find-peer responses.
pub record PmpPeerRegistryReq : Type 0 where
  pub header : PmpHeader
  pub nat_type : ℕ
  pub reserved : ℕ
  pub port : ℕ
  pub ipv4 : ℕ
  pub vlan_ipv4 : ℕ
  pub mstp_id : List ℕ
  pub peer_id : List ℕ

pub record PmpFindPeerReq : Type 0 where
  pub header : PmpHeader
  pub reserve : ℕ
  pub vlan_ipv4 : ℕ
  pub mstp_id : List ℕ
  pub peer_id : List ℕ

abbrev pub header_bytes : PmpHeader → List ℕ → List ℕ
header_bytes h rest = h.type ∷ h.code ∷ rest

abbrev pub discovery_req_bytes : PmpDiscoveryReq → List ℕ
discovery_req_bytes p = header_bytes p.header (bytes16 p.port ++ (p.target_id ++ p.source_id))

abbrev pub discovery_rsp_bytes : PmpDiscoveryRsp → List ℕ
discovery_rsp_bytes p = header_bytes p.header (bytes16 p.count ++ p.target_id)

abbrev pub options_bytes : PmpOptions → List ℕ
options_bytes p = bytes16 p.port ++ (bytes16 p.reserve ++ (bytes32 p.ipv4 ++ p.node_id))

abbrev pub ping_req_bytes : PmpPingReq → List ℕ
ping_req_bytes p = header_bytes p.header (bytes16 p.reserve ++ (p.target_id ++ p.source_id))

abbrev pub get_peers_options_bytes : PmpGetPeersOptions → List ℕ
get_peers_options_bytes p =
    p.nat_type
    ∷ p.reserve
    ∷ (bytes16 p.port ++ (bytes32 p.ipv4 ++ (bytes32 p.vlan_ipv4 ++ p.node_id)))

abbrev pub peer_registry_req_bytes : PmpPeerRegistryReq → List ℕ
peer_registry_req_bytes p = header_bytes p.header (
    bytes16 p.nat_type
    ++ (bytes16 p.reserved
        ++ (bytes16 p.port
            ++ (bytes32 p.ipv4 ++ (bytes32 p.vlan_ipv4 ++ (p.mstp_id ++ p.peer_id))))))

abbrev pub find_peer_req_bytes : PmpFindPeerReq → List ℕ
find_peer_req_bytes p =
    header_bytes p.header (bytes16 p.reserve ++ (bytes32 p.vlan_ipv4 ++ (p.mstp_id ++ p.peer_id)))
