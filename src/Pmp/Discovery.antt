-- ===== src/Pmp/Discovery.antt =====
-- The discovery packets of src/pmp.c. Neither reader converts a number from network order.
use nose.Common.{
  ℕ, ◌+◌, ◌*◌, ◌%◌, ◌/◌, ◌^◌, ◌≤◌, ◌<◌, ◌≡◌, refl, ap, Bool, true, List, [], ◌∷◌, ◌++◌, length,
  take, drop, some, arith, ok, error, length-append, length-take, length-drop, le→ltb, lt→ltb, ltb,
  eq_of_some, All, done, Bool-cases, inl, inr,
}
use mathlib.Core.Path.{subst}
use nose.Common.Strings.{c_str, memcpy}
use nose.Common.Words.{htons, IsU16, u16_at}
use nose.Bucket.{BucketItem, Bucket}
use nose.Pmp.{Inet, PmpDiscoveryReq, PmpDiscoveryRsp, PmpOptions}
use nose.Pmp.Build.{discovery_req_pkt, discovery_rsp_pkt, option_bytes, copy_text}
use nose.Pmp.Parse.{discovery_req_unpack, discovery_rsp_unpack, discovery_req_len}
use nose.Pmp.Ping.{copy_text-c_str, length-copied}

-- An item whose name fills its array of 21 characters.
abbrev pub HasNodeId : BucketItem → Type 0
HasNodeId x = length x.node_id ≡ 21

-- A discovery request whose names are built over a block of memory from malloc, followed by
-- anything and read at its size of 44 bytes or more, is accepted, and gives the port with its two
-- bytes exchanged: the reader does not convert it back.
pub discovery_req_unpack-port :
    (blk : PmpDiscoveryReq) (port port' size : ℕ) (source target src tgt rest bytes : List ℕ)
    → IsU16 port
    → discovery_req_len ≤ size
    → discovery_req_pkt (some blk) port source target ≡ some bytes
    → ((discovery_req_unpack port' src tgt (bytes ++ rest) size).0 ≡ ok)
      × ((discovery_req_unpack port' src tgt (bytes ++ rest) size).1 ≡ htons port)
unfolding discovery_req_pkt discovery_req_unpack
discovery_req_unpack-port blk port port' size source target src tgt rest bytes p h e =
    subst
      (λ b.
        ((discovery_req_unpack port' src tgt (b ++ rest) size).0 ≡ ok)
        × ((discovery_req_unpack port' src tgt (b ++ rest) size).1 ≡ htons port))
      (eq_of_some e) (rw (le→ltb size discovery_req_len h) (refl, swapped))
  where
    swapped : htons port % 256 + 256 * (htons port / 256 % 256) ≡ htons port
    swapped = unfold htons in omega arith

pub length-memcpy_id :
    (field id : List ℕ) → length field ≡ 20 → length id ≡ 21 → length (memcpy field id 20) ≡ 20
length-memcpy_id field id h k =
    omega
      (arith, length-append (take 20 id) (drop 20 field), length-take 20 id, length-drop 20 field)

module _ (net : Inet) where
  length-option_bytes :
      (opt : PmpOptions) (items : List BucketItem)
      → length opt.node_id ≡ 20
      → All HasNodeId items
      → length (option_bytes net opt items) ≡ 28 * length items
  unfolding option_bytes
  length-option_bytes opt [] h v = omega arith
  length-option_bytes opt (x ∷ xs) h v =
      let opt' : PmpOptions = record opt {
        port = htons x.port;
        ipv4 = net.inet_addr x.ipv4;
        node_id = memcpy opt.node_id x.node_id 20;
      } in
      omega (
        arith,
        length-memcpy_id opt.node_id x.node_id h v.0,
        length-append (memcpy opt.node_id x.node_id 20) (option_bytes net opt' xs),
        length-option_bytes opt' xs (length-memcpy_id opt.node_id x.node_id h v.0) v.1,
      )

count_read :
    (n : ℕ) → n < 256 → htons (n % 2 ^ 16) % 256 + 256 * (htons (n % 2 ^ 16) / 256 % 256) ≡ 256 * n
unfolding htons
count_read n h = omega arith

too_short :
    (net : Inet) (clock : ℕ → ℕ × ℕ) (buf : List ℕ) (held : Bool) (bkt : Bucket) (item : BucketItem)
    (n size : ℕ)
    → size ≡ 24 + 28 * n
    → u16_at buf 2 ≡ 256 * n
    → discovery_rsp_unpack net clock held bkt item buf size ≡ done (error, held, bkt)
unfolding discovery_rsp_unpack
too_short net clock buf held bkt item n size e c = elim (Bool-cases (ltb size 44)) [
  | inl short ↦ rw short
  | inr long ↦
      let lacking : ltb size (u16_at buf 2 * 28 + 24) ≡ true = lt→ltb _ _ (ground arith) in
      rw (long, lacking)
]

pub length-discovery_rsp :
    (net : Inet) (blk : PmpDiscoveryRsp) (opt : PmpOptions) (target_id bytes : List ℕ)
    (items : List BucketItem)
    → length blk.target_id ≡ 20
    → length (c_str target_id) ≤ 20
    → length opt.node_id ≡ 20
    → All HasNodeId items
    → discovery_rsp_pkt net (some blk) (some opt) target_id items ≡ some bytes
    → length bytes ≡ 24 + 28 * length items
unfolding discovery_rsp_pkt
length-discovery_rsp net blk opt target_id bytes items hb ht ho v e =
    subst (λ b. length b ≡ 24 + 28 * length items) (eq_of_some e)
      (omega (
        arith,
        length-append (copy_text blk.target_id target_id) (option_bytes net opt items),
        ap length (copy_text-c_str blk.target_id target_id),
        length-copied blk.target_id (c_str target_id) hb ht,
        length-option_bytes net opt items ho v,
      ))

-- Whatever its items, fewer than 256 of them and each with a name of its own, a discovery response
-- that the master peer builds is refused by the reader of discovery responses at the length that
-- was sent: the bucket stays as it was.
pub discovery_rsp_unpack-error :
    (net : Inet) (clock : ℕ → ℕ × ℕ) (blk : PmpDiscoveryRsp) (opt : PmpOptions)
    (target_id bytes rest : List ℕ) (items : List BucketItem) (held : Bool) (bkt : Bucket)
    (item : BucketItem)
    → length blk.target_id ≡ 20
    → length (c_str target_id) ≤ 20
    → length opt.node_id ≡ 20
    → All HasNodeId items
    → length items < 256
    → discovery_rsp_pkt net (some blk) (some opt) target_id items ≡ some bytes
    → discovery_rsp_unpack net clock held bkt item (bytes ++ rest) (length bytes)
      ≡ done (error, held, bkt)
unfolding discovery_rsp_pkt
discovery_rsp_unpack-error net clock blk opt target_id bytes rest items held bkt item hb ht ho v n
      e =
    subst
      (λ b.
        discovery_rsp_unpack net clock held bkt item (b ++ rest) (length b)
        ≡ done (error, held, bkt))
      (eq_of_some e)
      (too_short net clock _ held bkt item (length items) _
        (length-discovery_rsp net blk opt target_id _ items hb ht ho v refl)
        (count_read (length items) n))
