-- ===== src/MasterPeer/Start.antt =====
-- init_master_peer of src/master_peer.c.
use nose.Common.{
  ℕ, ◌+◌, ◌≤◌, ◌≡◌, refl, ◌∙◌, true, false, List, [], ◌∷◌, reverse, length, take, arith, done, ok,
  All, if◌then◌else◌, ltb, length-take, take-length, drop, replicate, ◌-◌, le→ltb,
}
use nose.Common.Strings.{c_str, bytes_eq_refl, padded}
use nose.Bucket.{BucketItem, Bucket, max_bucket_size}
use nose.Bucket.Newest.{IsValid, newest, known, known-reverse}
use nose.Bucket.Push.{push_known}
use nose.Bucket.Start.{init_bucket-newest, init_bucket-none}
use nose.Pmp.Fields.{first_of_two}
use nose.MasterPeer.{MasterPeer, init_master_peer, push_all, put_address}

-- Every item of `xs` is of a node of `ys`.
abbrev AllKnown : List BucketItem → List BucketItem → Type 0
AllKnown ys xs = All (λ x. known x.node_id ys ≡ true) xs

AllKnown-weaken : (y : BucketItem) (ys xs : List BucketItem) → AllKnown ys xs → AllKnown (y ∷ ys) xs
unfolding known
AllKnown-weaken y ys [] h = tt
AllKnown-weaken y ys (x ∷ xs) h = (ground (arith, h.0), AllKnown-weaken y ys xs h.1)

AllKnown-refl : (xs : List BucketItem) → AllKnown xs xs
unfolding known
AllKnown-refl [] = tt
AllKnown-refl (x ∷ xs) =
    (rw (bytes_eq_refl (c_str x.node_id)) refl, AllKnown-weaken x xs xs (AllKnown-refl xs))

AllKnown-reverse : (ys xs : List BucketItem) → AllKnown ys xs → AllKnown (reverse ys) xs
AllKnown-reverse ys [] h = tt
AllKnown-reverse ys (x ∷ xs) h = (known-reverse x.node_id ys ∙ h.0, AllKnown-reverse ys xs h.1)

push_all-known :
    (clock : ℕ → ℕ × ℕ) (i : ℕ) (items : List BucketItem) (bkt : Bucket)
    → AllKnown (newest bkt) items
    → push_all clock i items false bkt ≡ done (false, bkt)
unfolding push_all
push_all-known clock i [] bkt h = refl
push_all-known clock i (x ∷ xs) bkt h =
    rw (push_known bkt x (clock i).0 (clock i).1 h.0, push_all)
      (push_all-known clock (i + 1) xs bkt h.1)

-- `ipv4` stands at the start of the array.
put_address-done :
    (dst ipv4 : List ℕ)
    → length (c_str ipv4) ≤ length dst
    → (dst' : List ℕ) × (put_address dst ipv4 ≡ done dst')
      × (take (length (c_str ipv4)) dst' ≡ c_str ipv4)
unfolding put_address padded
put_address-done dst ipv4 h =
    let t = c_str ipv4 in
    let n = length t in
    rw (le→ltb (length dst) n h) (
      _,
      refl,
      first_of_two n (take n t) (replicate (n - n) 0) (drop n dst) (omega (arith, length-take n t))
          ∙ take-length t,
    )

-- A master peer with room for 255 items in both buckets, the mutex free, that is started with at
-- most 255 items and an address that fits its array: init_master_peer returns OK, the master bucket
-- holds exactly these items, the last one newest, the peer bucket is empty and both are valid. The
-- port is stored and the address stands at the start of its array.
pub init_master_peer-newest :
    (clock : ℕ → ℕ × ℕ) (mstp : MasterPeer) (ipv4 : List ℕ) (port : ℕ) (items : List BucketItem)
    → length mstp.master_peer_bkt.b ≡ 255
    → length mstp.peer_bkt.b ≡ 255
    → length items ≤ 255
    → length (c_str ipv4) ≤ length mstp.ipv4
    → (mstp' : MasterPeer) × (init_master_peer clock mstp ipv4 port items false
        ≡ done (ok, false, mstp'))
      × (newest mstp'.master_peer_bkt ≡ reverse items)
      × (newest mstp'.peer_bkt ≡ [])
      × IsValid mstp'.master_peer_bkt
      × IsValid mstp'.peer_bkt
      × (take (length (c_str ipv4)) mstp'.ipv4 ≡ c_str ipv4)
      × (mstp'.port ≡ port)
unfolding init_master_peer
init_master_peer-newest clock mstp ipv4 port items hm hp few fit =
    let (masters, em, nm, vm, _) = init_bucket-newest mstp.master_peer_bkt items hm in
    let (dst, ed, t) = put_address-done mstp.ipv4 ipv4 fit in
    let small : ltb max_bucket_size (length items) ≡ false = le→ltb 255 (length items) few in
    let n : newest masters ≡ reverse items = nm ∙ fewer small in
    let known_all : AllKnown (newest masters) items =
      rw n (AllKnown-reverse items items (AllKnown-refl items)) in
    let started : MasterPeer = record mstp {
      master_peer_bkt = masters;
      peer_bkt = record mstp.peer_bkt { count = 0; visited = 0 };
      ipv4 = dst;
      port = port;
    } in
    (
      started,
      rw (em, init_bucket-none mstp.peer_bkt, push_all-known clock 0 items masters known_all, ed)
          refl,
      n,
      refl,
      vm,
      record { small = omega arith; fits = hp },
      t,
      refl,
    )
  where
    fewer :
        ltb max_bucket_size (length items) ≡ false
        → (if ltb max_bucket_size (length items) then [] else reverse items) ≡ reverse items
    fewer e = rw e
