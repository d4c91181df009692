-- ===== src/Pmp/Gossip.antt =====
-- Get-peers responses of src/pmp.c: what a reader learns from a response that was built.
use nose.Common.{
  ℕ, suc, ◌+◌, ◌*◌, ◌/◌, ◌%◌, ◌^◌, ◌≤◌, ◌<◌, ◌≡◌, refl, sym, ap, ◌∙◌, false, List, [], ◌∷◌, ◌++◌,
  length, drop, some, arith, All, done, ok, length-append, le→ltb, eq_of_some, drop-append_length,
}
use mathlib.Core.Path.{subst}
use mathlib.Core.List.{append_assoc}
use nose.Common.Strings.{c_str}
use nose.Common.Words.{htons, htons-htons, htons-lt}
use nose.Bucket.{BucketItem, Bucket, push_front_bucket, max_bucket_size}
use nose.Bucket.Newest.{IsValid}
use nose.Pmp.{Inet, PmpDiscoveryRsp, PmpGetPeersOptions, get_peers_options_bytes}
use nose.Pmp.Build.{get_peers_rsp_pkt, get_peers_option_bytes, copy_text}
use nose.Pmp.Parse.{get_peers_item, get_peers_rsp_loop, get_peers_rsp_unpack, get_peers_options_len}
use nose.Pmp.Registry.{IsWide}
use nose.Pmp.Ping.{copy_text-c_str, length-copied}
use nose.Pmp.Discovery.{length-memcpy_id}
use nose.Pmp.Options.{
  IsSendable, Repeats, sent_option, port_bytes, get_peers_item-Repeats, get_peers_item-IsWide,
  option_ended, length-get_peers_option_bytes,
}
use nose.Pmp.Learned.{Learned, push-Pushed, learn_first}
use nose.Common.Words.{bytes16}

module _ (net : Inet) where
  loop_step :
      (clock : ℕ → ℕ × ℕ) (i n : ℕ) (item : BucketItem) (buf behind : List ℕ)
      (bkt bkt' bkt'' : Bucket)
      → push_front_bucket (get_peers_item net clock item buf) (clock i).0 (clock i).1 false bkt
        ≡ done (false, bkt')
      → drop get_peers_options_len buf ≡ behind
      → get_peers_rsp_loop net clock n (i + 1) behind (get_peers_item net clock item buf) false bkt'
        ≡ done (false, bkt'')
      → get_peers_rsp_loop net clock (suc n) i buf item false bkt ≡ done (false, bkt'')
  unfolding get_peers_rsp_loop
  loop_step clock i n item buf behind bkt bkt' bkt'' p d e = rw (p, d, e, get_peers_rsp_loop) refl

  -- The rounds over the items of a response.
  get_peers_rsp_loop-Learned :
      (clock : ℕ → ℕ × ℕ) (i : ℕ) (xs : List BucketItem) (opt : PmpGetPeersOptions)
      (item : BucketItem) (tail rest : List ℕ) (bkt : Bucket)
      → IsWide net item
      → drop 20 item.node_id ≡ tail
      → length opt.node_id ≡ 20
      → All IsSendable xs
      → IsValid bkt
      → bkt.count + length xs ≤ max_bucket_size
      → (bkt' : Bucket) × Learned net xs tail bkt bkt'
        × (get_peers_rsp_loop net clock
              (length xs)
              i
              (get_peers_option_bytes net opt xs ++ rest)
              item
              false
              bkt
            ≡ done (false, bkt'))
  unfolding get_peers_option_bytes get_peers_rsp_loop sent_option
  get_peers_rsp_loop-Learned clock i [] opt item tail rest bkt w t h v b room = (
    bkt,
    record {
      added = [];
      in_front = refl;
      said = tt;
      complete = tt;
      valid = b;
      small = omega arith;
    },
    refl,
  )
  get_peers_rsp_loop-Learned clock i (x ∷ xs) opt item tail rest bkt w t h v b room =
      let opt' = sent_option net opt x in
      let behind = get_peers_option_bytes net opt' xs ++ rest in
      let y = get_peers_item net clock item (get_peers_options_bytes opt' ++ behind) in
      let r = get_peers_item-Repeats net clock item x opt behind w h v.0 in
      let (w', t') = get_peers_item-IsWide net clock item x opt behind w h v.0 in
      let (bkt', p) = push-Pushed net y (clock i).0 (clock i).1 bkt b (omega arith) in
      let (bkt'', l, e) =
        get_peers_rsp_loop-Learned clock (i + 1) xs opt' y tail rest bkt' w' (t' ∙ t)
          (length-memcpy_id opt.node_id x.node_id h v.0.named) v.1 p.valid
          (omega (arith, p.small)) in
      (
        bkt'',
        learn_first net x y xs tail (clock i).0 (clock i).1 bkt bkt' bkt''
            (subst (λ z. Repeats net x y z) t r) p l,
        subst
            (λ buf.
              get_peers_rsp_loop net clock (suc (length xs)) i buf item false bkt
              ≡ done (false, bkt''))
            (sym (
              append_assoc (get_peers_options_bytes opt') (get_peers_option_bytes net opt' xs)
                rest))
            (loop_step clock i (length xs) item (get_peers_options_bytes opt' ++ behind) behind bkt
              bkt' bkt'' p.done_so (option_ended net opt x behind h v.0) e),
      )

  -- A get-peers response takes 24 bytes and 32 for each of its items.
  pub length-get_peers_rsp :
      (blk : PmpDiscoveryRsp) (opt : PmpGetPeersOptions) (target_id bytes : List ℕ)
      (items : List BucketItem)
      → length blk.target_id ≡ 20
      → length (c_str target_id) ≤ 20
      → length opt.node_id ≡ 20
      → All IsSendable items
      → get_peers_rsp_pkt net (some blk) (some opt) target_id items ≡ some bytes
      → length bytes ≡ 24 + 32 * length items
  unfolding get_peers_rsp_pkt
  length-get_peers_rsp blk opt target_id bytes [] hb ht ho v e = cc
  length-get_peers_rsp blk opt target_id bytes (x ∷ xs) hb ht ho v e =
      subst (λ b. length b ≡ 24 + 32 * length (x ∷ xs)) (eq_of_some e)
        (omega (
          arith,
          length-append (copy_text blk.target_id target_id)
              (get_peers_option_bytes net opt (x ∷ xs)),
          ap length (copy_text-c_str blk.target_id target_id),
          length-copied blk.target_id (c_str target_id) hb ht,
          length-get_peers_option_bytes net opt (x ∷ xs) ho v,
        ))

  rsp_bytes :
      (blk : PmpDiscoveryRsp) (opt : PmpGetPeersOptions) (target_id bytes : List ℕ)
      (items : List BucketItem)
      → get_peers_rsp_pkt net (some blk) (some opt) target_id items ≡ some bytes
      → bytes
        ≡ 2
          ∷ 1
          ∷ (bytes16 (htons (length items % 2 ^ 16))
              ++ (copy_text blk.target_id target_id ++ get_peers_option_bytes net opt items))
  unfolding get_peers_rsp_pkt
  rsp_bytes blk opt target_id bytes [] e = cc
  rsp_bytes blk opt target_id bytes (x ∷ xs) e = sym (eq_of_some e)

  loop_entered :
      (clock : ℕ → ℕ × ℕ) (n size : ℕ) (target opts : List ℕ) (type code : ℕ) (bkt bkt' : Bucket)
      (item : BucketItem)
      → length target ≡ 20
      → n < 2 ^ 16
      → size ≡ 24 + 32 * n
      → get_peers_rsp_loop net clock n 0 opts item false bkt ≡ done (false, bkt')
      → get_peers_rsp_unpack net clock false bkt item
          (type ∷ code ∷ (bytes16 (htons (n % 2 ^ 16)) ++ (target ++ opts)))
          size
        ≡ done (ok, false, bkt')
  unfolding get_peers_rsp_unpack
  loop_entered clock n size target opts type code bkt bkt' item ht h k e =
      let read : htons (n % 2 ^ 16) % 256 + 256 * (htons (n % 2 ^ 16) / 256 % 256)
          ≡ htons (n % 2 ^ 16) =
        port_bytes (htons (n % 2 ^ 16)) (htons-lt (n % 2 ^ 16)) in
      let count : htons (htons (n % 2 ^ 16)) ≡ n =
        htons-htons (n % 2 ^ 16) (omega arith) ∙ omega arith in
      rw
        (
          read,
          count,
          le→ltb size 24 (omega arith),
          le→ltb size (24 + 32 * n) (omega arith),
          drop-append_length target opts 20 (sym ht),
          e,
          get_peers_rsp_unpack,
        )
        refl

  -- A get-peers response about up to 255 items, built over any blocks of memory from malloc,
  -- followed by anything and read at its length into a table with room for all of them, is accepted:
  -- every node in it is known then, under its 20 bytes and what stood behind them in the array on
  -- the reader's stack, the items that came in each repeat one of the response, and the table's
  -- other items are as they were. The mutex is free before and after.
  pub get_peers_rsp_unpack-Learned :
      (clock : ℕ → ℕ × ℕ) (blk : PmpDiscoveryRsp) (opt : PmpGetPeersOptions)
      (target_id bytes rest : List ℕ) (items : List BucketItem) (bkt : Bucket) (item : BucketItem)
      → length blk.target_id ≡ 20
      → length (c_str target_id) ≤ 20
      → length opt.node_id ≡ 20
      → All IsSendable items
      → IsWide net item
      → IsValid bkt
      → bkt.count + length items ≤ max_bucket_size
      → get_peers_rsp_pkt net (some blk) (some opt) target_id items ≡ some bytes
      → (bkt' : Bucket) × Learned net items (drop 20 item.node_id) bkt bkt'
        × (get_peers_rsp_unpack net clock false bkt item (bytes ++ rest) (length bytes)
            ≡ done (ok, false, bkt'))
  get_peers_rsp_unpack-Learned clock blk opt target_id bytes rest items bkt item hb ht ho v w b room
        e =
      let (bkt', l, r) =
        get_peers_rsp_loop-Learned clock 0 items opt item (drop 20 item.node_id) rest bkt w refl ho
          v b room in
      let long = length-get_peers_rsp blk opt target_id bytes items hb ht ho v e in
      let wide = length-copied blk.target_id (c_str target_id) hb ht in
      let copied = ap length (copy_text-c_str blk.target_id target_id) in
      let target = copy_text blk.target_id target_id in
      let opts = get_peers_option_bytes net opt items ++ rest in
      let whole : bytes ++ rest
          ≡ 2 ∷ 1 ∷ (bytes16 (htons (length items % 2 ^ 16)) ++ (target ++ opts)) =
        ap (◌++ rest) (rsp_bytes blk opt target_id bytes items e)
        ∙ ap (λ b. 2 ∷ 1 ∷ (bytes16 (htons (length items % 2 ^ 16)) ++ b))
            (append_assoc target (get_peers_option_bytes net opt items) rest) in
      (
        bkt',
        l,
        rw whole (
            loop_entered clock (length items) (length bytes) target opts 2 1 bkt bkt' item
              (omega (arith, wide, copied)) (omega arith) long r),
      )
