-- ===== src/Pmp/Samples.antt =====
-- Test data for the packets of src/pmp.h, with an address library that writes eight letters.
use nose.Common.{
  ℕ, ◌+◌, ◌-◌, ◌*◌, ◌/◌, ◌%◌, ◌≤◌, ◌≡◌, sym, ap, ◌∙◌, List, [], ◌∷◌, ◌++◌, length, replicate,
  get_or, arith,
}
use nose.Common.Strings.{c_str, IsText, IsText-c_str, c_str-eq_self}
use nose.Common.Words.{IsU32}
use nose.Bucket.{BucketItem, Bucket}
use nose.Pmp.{
  Inet, PmpDiscoveryReq, PmpDiscoveryRsp, PmpOptions, PmpPingReq, PmpPeerRegistryReq,
  PmpFindPeerReq, PmpGetPeersOptions,
}
use nose.Pmp.Build.{NatType}

abbrev digit : List ℕ → ℕ → ℕ
digit t i = (get_or t i 97 - 97) % 16

abbrev value : List ℕ → ℕ
value t =
    digit t 0
    + 16 * digit t 1
    + 256 * digit t 2
    + 4096 * digit t 3
    + 65536 * digit t 4
    + 1048576 * digit t 5
    + 16777216 * digit t 6
    + 268435456 * digit t 7

abbrev letters : ℕ → List ℕ
letters a =
    (a % 16 + 97)
    ∷ (a / 16 % 16 + 97)
    ∷ (a / 256 % 16 + 97)
    ∷ (a / 4096 % 16 + 97)
    ∷ (a / 65536 % 16 + 97)
    ∷ (a / 1048576 % 16 + 97)
    ∷ (a / 16777216 % 16 + 97)
    ∷ (a / 268435456 % 16 + 97)
    ∷ []

pub value-lt : (s : List ℕ) → IsU32 (value (c_str s))
value-lt s = omega arith

pub letters-IsText : (a : ℕ) → IsText (letters a)
letters-IsText a = omega arith

digit-back : (x : ℕ) → (x % 16 + 97 - 97) % 16 ≡ x % 16
digit-back x = omega arith

value-letters : (a : ℕ) → IsU32 a → value (letters a) ≡ a
value-letters a h =
    rw
      (
        digit-back a,
        digit-back (a / 16),
        digit-back (a / 256),
        digit-back (a / 4096),
        digit-back (a / 65536),
        digit-back (a / 1048576),
        digit-back (a / 16777216),
        digit-back (a / 268435456),
      )
      (omega arith)

pub addr_letters : (a : ℕ) → IsU32 a → value (c_str (letters a)) ≡ a
addr_letters a h = ap value (c_str-eq_self (letters a) (letters-IsText a)) ∙ value-letters a h

pub addr_c_str : (s : List ℕ) → value (c_str s) ≡ value (c_str (c_str s))
addr_c_str s = ap value (sym (c_str-eq_self (c_str s) (IsText-c_str s)))

pub letters_short : (a : ℕ) → length (letters a) ≤ 15
letters_short a = omega arith

abbrev pub plain_inet : Inet
plain_inet = record {
  inet_addr = λ s. value (c_str s);
  inet_ntoa = letters;
  addr_lt = value-lt;
  addr_text = addr_c_str;
  ntoa_text = letters-IsText;
  ntoa_short = letters_short;
  addr-ntoa = addr_letters;
}

-- A name of 20 times one letter, and its array.
abbrev pub name_of : ℕ → List ℕ
name_of c = replicate 20 c

abbrev pub id_of : ℕ → List ℕ
id_of c = name_of c ++ 0 ∷ []

-- Memory that malloc gives, with other things in it.
abbrev pub ping_blk : PmpPingReq
ping_blk = record {
  header = record { type = 9; code = 9 };
  reserve = 513;
  target_id = replicate 20 35;
  source_id = replicate 20 36;
}

abbrev pub discovery_req_blk : PmpDiscoveryReq
discovery_req_blk = record {
  header = record { type = 9; code = 9 };
  port = 1;
  target_id = replicate 20 35;
  source_id = replicate 20 36;
}

abbrev pub discovery_rsp_blk : PmpDiscoveryRsp
discovery_rsp_blk = record {
  header = record { type = 9; code = 9 };
  count = 1;
  target_id = replicate 20 35;
}

abbrev pub options_blk : PmpOptions
options_blk = record { port = 1; reserve = 2; ipv4 = 3; node_id = replicate 20 35 }

abbrev pub get_peers_blk : PmpGetPeersOptions
get_peers_blk = record {
  nat_type = 1;
  reserve = 2;
  port = 3;
  ipv4 = 4;
  vlan_ipv4 = 5;
  node_id = replicate 20 35;
}

abbrev pub registry_blk : PmpPeerRegistryReq
registry_blk = record {
  header = record { type = 9; code = 9 };
  nat_type = 1;
  reserved = 2;
  port = 3;
  ipv4 = 4;
  vlan_ipv4 = 5;
  mstp_id = replicate 20 35;
  peer_id = replicate 20 36;
}

abbrev pub find_blk : PmpFindPeerReq
find_blk = record {
  header = record { type = 9; code = 9 };
  reserve = 1;
  vlan_ipv4 = 2;
  mstp_id = replicate 20 35;
  peer_id = replicate 20 36;
}

abbrev pub item_of : ℕ → BucketItem
item_of c = record {
  port = 9998;
  ipv4 = replicate 9 97 ++ replicate 7 0;
  node_id = id_of c;
  state = 0;
  join_timestap = 0;
  vlan_ipv4 = replicate 9 98 ++ replicate 7 0;
  nat_type = 3;
}

abbrev pub empty_bucket : Bucket
empty_bucket = record { count = 0; visited = 0; b = replicate 255 (item_of 120) }

abbrev pub home : NatType
home = record { nat_type = 4; port = 4660; ipv4 = 98 ∷ 99 ∷ 0 ∷ [] }

abbrev pub still_clock : ℕ → ℕ × ℕ
still_clock i = (7, i)
