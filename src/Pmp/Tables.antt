-- ===== src/Pmp/Tables.antt =====
-- What the readers of src/pmp.c that push into a table leave of it.
use nose.Common.{
  ℕ, zero, suc, ◌+◌, ◌≡◌, refl, Bool, true, false, if◌then◌else◌, List, drop, replicate, Outcome,
  done, blocked, fault, ◌>>=◌, arith, Status, error,
}
use mathlib.Core.Path.{subst}
use nose.Bucket.{BucketItem, Bucket, push_front_bucket}
use nose.Bucket.Locks.{Sound, get_item_by_vlan_ipv4-frees}
use nose.Common.Words.{htons, u16_at, u32_at}
use nose.Bucket.Push.{push_front_bucket-keeps}
use nose.Pmp.{Inet}
use nose.Pmp.Parse.{
  discovery_rsp_loop, discovery_rsp_unpack, get_peers_rsp_loop, get_peers_rsp_unpack,
  peer_registry_req_unpack, find_peer_req_unpack, option_item, get_peers_item, registry_item,
  put_text, options_len, discovery_rsp_len, get_peers_options_len,
}

pub push-Sound :
    (bkt bkt' : Bucket) (item : BucketItem) (s u : ℕ) (held held' : Bool)
    → Sound held bkt
    → push_front_bucket item s u held bkt ≡ done (held', bkt')
    → Sound held' bkt'
push-Sound bkt bkt' item s u held held' (h, v, d) e =
    push_front_bucket-keeps bkt bkt' item s u held' v d
      (subst (λ b. push_front_bucket item s u b bkt ≡ done (held', bkt')) h e)

next_round :
    (m : Outcome (Bool × Bucket)) (f : Bool → Bucket → Outcome (Bool × Bucket)) (r : Bool × Bucket)
    → elim m [ done (held, bkt) ↦ f held bkt | blocked ↦ blocked | fault ↦ fault ] ≡ done r
    → (held : Bool) × (bkt : Bucket) × (m ≡ done (held, bkt)) × (f held bkt ≡ done r)
next_round (done (held, bkt)) f r e = (held, bkt, refl, e)
next_round blocked f r e = cc
next_round fault f r e = cc

module _ (net : Inet) (clock : ℕ → ℕ × ℕ) where
  discovery_rsp_loop-Sound :
      (n i : ℕ) (buf : List ℕ) (item : BucketItem) (held held' : Bool) (bkt bkt' : Bucket)
      → Sound held bkt
      → discovery_rsp_loop net clock n i buf item held bkt ≡ done (held', bkt')
      → Sound held' bkt'
  unfolding discovery_rsp_loop
  discovery_rsp_loop-Sound zero i buf item held held' bkt bkt' v e = ground arith
  discovery_rsp_loop-Sound (suc n) i buf item held held' bkt bkt' v e =
      let x = option_item net clock item buf in
      let (h, b, p, q) =
        next_round (push_front_bucket x (clock i).0 (clock i).1 held bkt)
          (discovery_rsp_loop net clock n (i + 1) (drop options_len buf) x) (held', bkt') e in
      discovery_rsp_loop-Sound n (i + 1) (drop options_len buf) x h held' b bkt'
        (push-Sound bkt b x (clock i).0 (clock i).1 held h v p) q

  get_peers_rsp_loop-Sound :
      (n i : ℕ) (buf : List ℕ) (item : BucketItem) (held held' : Bool) (bkt bkt' : Bucket)
      → Sound held bkt
      → get_peers_rsp_loop net clock n i buf item held bkt ≡ done (held', bkt')
      → Sound held' bkt'
  unfolding get_peers_rsp_loop
  get_peers_rsp_loop-Sound zero i buf item held held' bkt bkt' v e = ground arith
  get_peers_rsp_loop-Sound (suc n) i buf item held held' bkt bkt' v e =
      let x = get_peers_item net clock item buf in
      let (h, b, p, q) =
        next_round (push_front_bucket x (clock i).0 (clock i).1 held bkt)
          (get_peers_rsp_loop net clock n (i + 1) (drop get_peers_options_len buf) x) (held', bkt')
          e in
      get_peers_rsp_loop-Sound n (i + 1) (drop get_peers_options_len buf) x h held' b bkt'
        (push-Sound bkt b x (clock i).0 (clock i).1 held h v p) q

  pub discovery_rsp_unpack-Sound :
      (held held' : Bool) (bkt bkt' : Bucket) (item : BucketItem) (buf : List ℕ) (size : ℕ)
      (status : Status)
      → Sound held bkt
      → discovery_rsp_unpack net clock held bkt item buf size ≡ done (status, held', bkt')
      → Sound held' bkt'
  unfolding discovery_rsp_unpack
  discovery_rsp_unpack-Sound held held' bkt bkt' item buf size status v e = ground (
    arith,
    discovery_rsp_loop-Sound (u16_at buf 2) 0 (drop discovery_rsp_len buf) item held held' bkt bkt'
        v,
  )

  pub get_peers_rsp_unpack-Sound :
      (held held' : Bool) (bkt bkt' : Bucket) (item : BucketItem) (buf : List ℕ) (size : ℕ)
      (status : Status)
      → Sound held bkt
      → get_peers_rsp_unpack net clock held bkt item buf size ≡ done (status, held', bkt')
      → Sound held' bkt'
  unfolding get_peers_rsp_unpack
  get_peers_rsp_unpack-Sound held held' bkt bkt' item buf size status v e = ground (
    arith,
    get_peers_rsp_loop-Sound (htons (u16_at buf 2)) 0 (drop discovery_rsp_len buf) item held held'
        bkt bkt' v,
  )

  pub registry_req_unpack-Sound :
      (held held' : Bool) (bkt bkt' : Bucket) (item : BucketItem) (peer_id id buf : List ℕ)
      (size : ℕ) (status : Status)
      → Sound held bkt
      → peer_registry_req_unpack net clock peer_id held bkt item buf size
        ≡ done (status, id, held', bkt')
      → Sound held' bkt'
  unfolding peer_registry_req_unpack
  registry_req_unpack-Sound held held' bkt bkt' item peer_id id buf size status v e = ground (
    arith,
    push-Sound bkt bkt' (registry_item net clock item buf) (clock 0).0 (clock 0).1 held held' v,
  )

  answered-frees :
      (b held : Bool) (m : Outcome (Bool × Status × BucketItem)) (p q p' q' : List ℕ)
      (item : BucketItem) (r : Status × List ℕ × List ℕ × Bool × BucketItem)
      → held ≡ false
      → ((held' : Bool) (status : Status) (x : BucketItem)
          → m ≡ done (held', status, x)
          → held' ≡ false)
      → (if b
          then done (error, p, q, held, item)
          else (m >>= λ (held', status, x). done (status, p', q', held', x)))
        ≡ done r
      → r.3 ≡ false
  answered-frees true held m p q p' q' item r h k e = ground arith
  answered-frees false held (done (held', status, x)) p q p' q' item r h k e =
      ground (arith, k held' status x refl)
  answered-frees false held blocked p q p' q' item r h k e = cc
  answered-frees false held fault p q p' q' item r h k e = cc

  pub find_peer_req_unpack-frees :
      (held held' : Bool) (bkt : Bucket) (item x : BucketItem) (p m p' m' buf : List ℕ) (size : ℕ)
      (status : Status)
      → held ≡ false
      → find_peer_req_unpack net clock p m held bkt item buf size ≡ done (status, p', m', held', x)
      → held' ≡ false
  unfolding find_peer_req_unpack
  find_peer_req_unpack-frees held held' bkt item x p m p' m' buf size status h e =
      answered-frees _ held _ p m _ _ item (status, p', m', held', x) h
        (λ free st y.
          get_item_by_vlan_ipv4-frees bkt (put_text (replicate 16 0) (net.inet_ntoa (u32_at buf 4)))
            item y held free st)
        e
