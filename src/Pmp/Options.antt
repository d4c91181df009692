-- ===== src/Pmp/Options.antt =====
-- The items of a get-peers response of src/pmp.c.
use nose.Common.{
  ℕ, ◌+◌, ◌*◌, ◌/◌, ◌%◌, ◌≡◌, refl, sym, ap, ◌∙◌, List, [], ◌∷◌, ◌++◌, length, take, drop, arith,
  All, length-append, length-take, length-drop, take-append_length, drop-append_length, take_long,
}
use mathlib.Core.List.{append-nil}
use nose.Common.Strings.{c_str, memcpy}
use nose.Common.Words.{htons, IsU16, htons-htons, htons-lt}
use nose.Bucket.{BucketItem}
use nose.Pmp.{Inet, PmpGetPeersOptions, get_peers_options_bytes}
use nose.Pmp.Build.{get_peers_option_bytes}
use nose.Pmp.Parse.{get_peers_item, get_peers_options_len}
use nose.Pmp.Fields.{drop-length, c_str-put_text, addr-put_text, length-put_text}
use nose.Pmp.Registry.{IsWide, u32_bytes}
use nose.Pmp.Discovery.{length-memcpy_id}

-- An item that has room for a name and a port of 16 bits.
pub record IsSendable (x : BucketItem) : Type 0 where
  pub named : length x.node_id ≡ 21
  pub port_fits : IsU16 x.port

pub port_bytes : (v : ℕ) → IsU16 v → v % 256 + 256 * (v / 256 % 256) ≡ v
port_bytes v h = omega arith

module _ (net : Inet) where
  -- The item `y` says what the response says about `x`: the type cut to 8 bits, the port, the two
  -- addresses, and the name, which ends as the array on the reader's stack did.
  pub record Repeats (x y : BucketItem) (tail : List ℕ) : Type 0 where
    pub nat_type_is : y.nat_type ≡ x.nat_type % 256
    pub port_is : y.port ≡ x.port
    pub ipv4_is : net.inet_addr y.ipv4 ≡ net.inet_addr x.ipv4
    pub vlan_is : c_str y.vlan_ipv4 ≡ net.inet_ntoa (net.inet_addr x.vlan_ipv4)
    pub node_is : y.node_id ≡ take 20 x.node_id ++ tail

  unfoldable pub sent_option : PmpGetPeersOptions → BucketItem → PmpGetPeersOptions
  sent_option opt x = record opt {
    nat_type = x.nat_type % 256;
    port = htons x.port;
    ipv4 = net.inet_addr x.ipv4;
    vlan_ipv4 = net.inet_addr x.vlan_ipv4;
    node_id = memcpy opt.node_id x.node_id 20;
  }

  -- The name of an item is what stands in the response.
  name_kept :
      (field id rest : List ℕ)
      → length field ≡ 20
      → length id ≡ 21
      → take 20 (memcpy field id 20 ++ rest) ≡ take 20 id
  name_kept field id rest h k =
      let wide = length-take 20 id in
      rw (drop-length 20 field (sym h), append-nil (take 20 id))
        (take-append_length (take 20 id) rest 20 (omega (arith, wide)))

  pub get_peers_item-Repeats :
      (clock : ℕ → ℕ × ℕ) (item x : BucketItem) (opt : PmpGetPeersOptions) (rest : List ℕ)
      → IsWide net item
      → length opt.node_id ≡ 20
      → IsSendable x
      → Repeats x
          (get_peers_item net clock item (get_peers_options_bytes (sent_option opt x) ++ rest))
          (drop 20 item.node_id)
  unfolding get_peers_item sent_option
  get_peers_item-Repeats clock item x opt rest w h v = record {
    nat_type_is = refl;
    port_is =
        ap htons (port_bytes (htons x.port) (htons-lt x.port)) ∙ htons-htons x.port v.port_fits;
    ipv4_is =
        rw (u32_bytes (net.inet_addr x.ipv4) (net.addr_lt x.ipv4))
          (addr-put_text net item.ipv4 (net.inet_addr x.ipv4) (net.addr_lt x.ipv4) (omega arith));
    vlan_is = rw (u32_bytes (net.inet_addr x.vlan_ipv4) (net.addr_lt x.vlan_ipv4)) (
        c_str-put_text item.vlan_ipv4 (net.inet_ntoa (net.inet_addr x.vlan_ipv4)) (net.ntoa_text _)
          (omega (arith, net.ntoa_short (net.inet_addr x.vlan_ipv4))));
    node_is =
        ap (λ id. take 20 id ++ drop 20 item.node_id)
          (name_kept opt.node_id x.node_id rest h v.named)
        ∙ ap (◌++ drop 20 item.node_id)
            (take_long 20 (take 20 x.node_id) (omega (arith, length-take 20 x.node_id)));
  }

  -- The item of one round is as wide as that of the round before, and its name ends the same way.
  pub get_peers_item-IsWide :
      (clock : ℕ → ℕ × ℕ) (item x : BucketItem) (opt : PmpGetPeersOptions) (rest : List ℕ)
      → IsWide net item
      → length opt.node_id ≡ 20
      → IsSendable x
      → IsWide net
          (get_peers_item net clock item (get_peers_options_bytes (sent_option opt x) ++ rest))
        × (drop 20
              (get_peers_item net clock item
                (get_peers_options_bytes (sent_option opt x) ++ rest)).node_id
            ≡ drop 20 item.node_id)
  get_peers_item-IsWide clock item x opt rest w h v =
      let r = get_peers_item-Repeats clock item x opt rest w h v in
      let n : length (take 20 x.node_id) ≡ 20 = omega (arith, length-take 20 x.node_id) in
      (
        record {
          ipv4_wide =
              unfold get_peers_item in
              length-put_text item.ipv4 _ (omega (arith, net.ntoa_short _)) ∙ w.ipv4_wide;
          vlan_wide =
              unfold get_peers_item in
              length-put_text item.vlan_ipv4 _ (omega (arith, net.ntoa_short _)) ∙ w.vlan_wide;
          node_wide =
              ap length r.node_is
              ∙ omega (
                arith,
                length-append (take 20 x.node_id) (drop 20 item.node_id),
                n,
                length-drop 20 item.node_id,
              );
        },
        ap (drop 20) r.node_is
            ∙ drop-append_length (take 20 x.node_id) (drop 20 item.node_id) 20 (sym n),
      )

  pub option_ended :
      (opt : PmpGetPeersOptions) (x : BucketItem) (behind : List ℕ)
      → length opt.node_id ≡ 20
      → IsSendable x
      → drop get_peers_options_len (get_peers_options_bytes (sent_option opt x) ++ behind) ≡ behind
  unfolding sent_option
  option_ended opt x behind h v =
      drop-append_length (memcpy opt.node_id x.node_id 20) behind 20
        (sym (length-memcpy_id opt.node_id x.node_id h v.named))

  pub length-get_peers_option_bytes :
      (opt : PmpGetPeersOptions) (items : List BucketItem)
      → length opt.node_id ≡ 20
      → All IsSendable items
      → length (get_peers_option_bytes net opt items) ≡ 32 * length items
  unfolding get_peers_option_bytes sent_option
  length-get_peers_option_bytes opt [] h v = omega arith
  length-get_peers_option_bytes opt (x ∷ xs) h v =
      let opt' = sent_option opt x in
      let wide = length-memcpy_id opt.node_id x.node_id h v.0.named in
      omega (
        arith,
        wide,
        length-append (memcpy opt.node_id x.node_id 20) (get_peers_option_bytes net opt' xs),
        length-get_peers_option_bytes opt' xs wide v.1,
      )
