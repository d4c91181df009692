-- ===== src/Bucket/Access.antt =====
-- The reading operations of src/bucket.c on the list of items, newest first.
use nose.Common.{
  true, ℕ, zero, suc, ◌+◌, ◌-◌, ◌≤◌, ◌<◌, ◌≡◌, refl, ap, ◌∙◌, false, Option, none, some, List, [],
  ◌∷◌, ◌++◌, reverse, length, get_elem?, set, take, drop, arith, done, ◌==◌, length-set, ok, failed,
  get_elem?-lt, get_elem?-set_self, load, if◌then◌else◌, ltb, min, take-set_end, drop-set,
  take-append-drop,
}
use mathlib.Core.List.{append_assoc, head?}
use nose.Common.Strings.{same_str, c_str, bytes_eq_refl}
use nose.Bucket.{
  bucket_size, BucketItem, Bucket, copy_down, get_top_bucket_items, get_front_bucket, find_vlan,
  get_item_by_vlan_ipv4,
}
use nose.Bucket.Push.{pushed}
use nose.Bucket.Newest.{newest, reverse-take-suc, IsValid}

-- The first item with that virtual address.
unfoldable pub first_vlan : List ℕ → List BucketItem → Option BucketItem
first_vlan vlan [] = none
first_vlan vlan (x ∷ xs) = if same_str x.vlan_ipv4 vlan then some x else first_vlan vlan xs

find_vlan-first :
    (n : ℕ) (b : List BucketItem) (vlan : List ℕ)
    → n ≤ length b
    → find_vlan n b vlan ≡ done (first_vlan vlan (reverse (take n b)))
unfolding find_vlan first_vlan
find_vlan-first zero b vlan h = refl
find_vlan-first (suc n) b vlan h =
    let (x, e) = get_elem?-lt b n (omega arith) in
    rw (reverse-take-suc n b x e) (ground (arith, find_vlan-first n b vlan (omega arith)))

-- get_item_by_vlan_ipv4 on a bucket within its array, with the mutex free, answers OK with the
-- newest item that has the address, and FAILED with the caller's item as it was if there is none.
pub get_item_by_vlan_ipv4-first :
    (bkt : Bucket) (vlan : List ℕ) (item : BucketItem)
    → IsValid bkt
    → get_item_by_vlan_ipv4 false bkt vlan item ≡ elim (first_vlan vlan (newest bkt)) [
      | none ↦ done (false, failed, item)
      | some x ↦ done (false, ok, x)
    ]
unfolding get_item_by_vlan_ipv4
get_item_by_vlan_ipv4-first bkt vlan item v =
    rw (find_vlan-first bkt.count bkt.b vlan (omega arith))

copy_down_step :
    (i j : ℕ) (b dst : List BucketItem) (x : BucketItem)
    → get_elem? b i ≡ some x
    → j < length dst
    → copy_down (suc i) j b dst ≡ copy_down i (j + 1) b (set dst j x)
unfolding copy_down
copy_down_step i j b dst x e h = ground arith

-- What is written so far, one item further.
written_step :
    (i j : ℕ) (dst rest : List BucketItem) (x : BucketItem)
    → j < length dst
    → take (j + 1) (set dst j x) ++ (rest ++ drop (j + 1 + i) (set dst j x))
      ≡ take j dst ++ (x ∷ rest ++ drop (j + suc i) dst)
written_step i j dst rest x h =
    let e : j + 1 ≡ suc j = omega arith in
    let f : suc j + i ≡ j + suc i = omega arith in
    rw (e, take-set_end dst j x h, f, drop-set (j + suc i) dst j x (omega arith))
      (append_assoc (take j dst) (x ∷ []) (rest ++ drop (j + suc i) dst))

copy_down-newest :
    (i j : ℕ) (b dst : List BucketItem)
    → i ≤ length b
    → i + j ≤ length dst
    → copy_down i j b dst ≡ done (take j dst ++ (reverse (take i b) ++ drop (j + i) dst))
copy_down-newest zero j b dst h k =
    let e : j + 0 ≡ j = omega arith in rw (e, take-append-drop j dst) (unfold copy_down in refl)
copy_down-newest (suc i) j b dst h k =
    let (x, e) = get_elem?-lt b i (omega arith) in
    copy_down_step i j b dst x e (omega arith)
    ∙ copy_down-newest i (j + 1) b (set dst j x) (omega arith) (omega (arith, length-set dst j x))
    ∙ rw (reverse-take-suc i b x e)
        (ap done (written_step i j dst (reverse (take i b)) x (omega arith)))

-- get_top_bucket_items on a bucket within its array, with the mutex free and room in `dst` for
-- every item of it, copies all the items, newest first, leaves the rest of `dst` alone, and
-- answers the smaller of `size` and the number of items; it never writes past the end of `dst`.
pub get_top_bucket_items-newest :
    (bkt : Bucket) (dst : List BucketItem) (size : ℕ)
    → IsValid bkt
    → bkt.count ≤ length dst
    → get_top_bucket_items false bkt dst size
      ≡ done (false, newest bkt ++ drop bkt.count dst, min size bkt.count)
unfolding get_top_bucket_items
get_top_bucket_items-newest bkt dst size v room =
    rw (copy_down-newest bkt.count 0 bkt.b dst (omega arith) (omega arith)) (rw (all, smaller))
  where
    all : 0 + bkt.count ≡ bkt.count
    all = omega arith

    smaller : (if ltb bkt.count size then bkt.count else size) ≡ min size bkt.count
    smaller = ground arith

get_front-suc :
    (n visited : ℕ) (b : List BucketItem) (x : BucketItem)
    → get_elem? b n ≡ some x
    → get_front_bucket false (record { count = suc n; visited = visited; b = b })
      ≡ done (false, some x)
unfolding get_front_bucket
get_front-suc n visited b x e =
    let shorter : suc n - 1 ≡ n = omega arith in ground (arith, ap (get_elem? b) shorter)

get_front-count :
    (n visited : ℕ) (b : List BucketItem)
    → n ≤ length b
    → get_front_bucket false (record { count = n; visited = visited; b = b })
      ≡ done (false, head? (reverse (take n b)))
get_front-count zero visited b h = unfold get_front_bucket in refl
get_front-count (suc n) visited b h =
    let (x, e) = get_elem?-lt b n h in get_front-suc n visited b x e ∙ rw (reverse-take-suc n b x e)

-- get_front_bucket answers the newest item, and the null pointer exactly for an empty bucket.
pub get_front_bucket-newest :
    (bkt : Bucket) → IsValid bkt → get_front_bucket false bkt ≡ done (false, head? (newest bkt))
get_front_bucket-newest bkt v = get_front-count bkt.count bkt.visited bkt.b (omega arith)

pub bucket_size-count : (bkt : Bucket) → bucket_size false bkt ≡ done (false, bkt.count)
unfolding bucket_size
bucket_size-count bkt = refl

-- The newest item is found by its own address.
pub first_vlan-head :
    (vlan : List ℕ) (x : BucketItem) (xs : List BucketItem)
    → c_str x.vlan_ipv4 ≡ c_str vlan
    → first_vlan vlan (x ∷ xs) ≡ some x
unfolding first_vlan
first_vlan-head vlan x xs e =
    let same : same_str x.vlan_ipv4 vlan ≡ true = rw e (bytes_eq_refl (c_str vlan)) in rw same

-- The item that was pushed last is the front one.
pub get_front_bucket-pushed :
    (bkt : Bucket) (item : BucketItem)
    → IsValid bkt
    → bkt.count < 255
    → get_front_bucket false (pushed bkt item) ≡ done (false, some item)
unfolding get_front_bucket load
get_front_bucket-pushed bkt item v h =
    let last : bkt.count + 1 - 1 ≡ bkt.count = omega arith in
    let some_left : (bkt.count + 1 == 0) ≡ false = ground arith in
    rw (some_left, last, get_elem?-set_self bkt.b bkt.count item (omega arith), load) refl
