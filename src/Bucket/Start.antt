-- ===== src/Bucket/Start.antt =====
-- init_bucket of src/bucket.c.
use nose.Common.{
  ℕ, suc, ◌+◌, ◌≤◌, ◌<◌, ◌≡◌, refl, sym, ap, ◌∙◌, none, some, List, [], ◌∷◌, ◌++◌, length, reverse,
  set, take, arith, done, length-set, take-set_end, if◌then◌else◌, ltb, Bool-cases, inl, inr,
}
use mathlib.Core.List.{append-nil, append_assoc}
use nose.Bucket.{BucketItem, Bucket, max_bucket_size, init_bucket, copy_items}
use nose.Bucket.Newest.{IsValid, newest}

copy_items_step :
    (i : ℕ) (x : BucketItem) (xs : List BucketItem) (bkt : Bucket)
    → i < length bkt.b
    → copy_items i (x ∷ xs) bkt
      ≡ copy_items (i + 1) xs (record bkt { b = set bkt.b i x; count = bkt.count + 1 })
unfolding copy_items
copy_items_step i x xs bkt h = ground arith

-- `bkt` after `items` were copied behind its first `bkt.count` items.
record Copied (bkt : Bucket) (items : List BucketItem) (bkt' : Bucket) : Type 0 where
  counted : bkt'.count ≡ bkt.count + length items
  kept : length bkt'.b ≡ length bkt.b
  copied : take bkt'.count bkt'.b ≡ take bkt.count bkt.b ++ items
  unvisited : bkt'.visited ≡ bkt.visited

copied_step :
    (i : ℕ) (x : BucketItem) (xs : List BucketItem) (bkt : Bucket)
    → i ≡ bkt.count
    → i < length bkt.b
    → take (bkt.count + 1) (set bkt.b i x) ++ xs ≡ take bkt.count bkt.b ++ x ∷ xs
copied_step i x xs bkt e h =
    let s : bkt.count + 1 ≡ suc i = omega arith in
    rw (s, take-set_end bkt.b i x h, ← e) (append_assoc (take i bkt.b) (x ∷ []) xs)

copy_items-Copied :
    (i : ℕ) (items : List BucketItem) (bkt : Bucket)
    → i ≡ bkt.count
    → i + length items ≤ length bkt.b
    → (bkt' : Bucket) × (copy_items i items bkt ≡ done bkt') × Copied bkt items bkt'
copy_items-Copied i [] bkt e h = (
  bkt,
  unfold copy_items in refl,
  record {
    counted = omega arith;
    kept = refl;
    copied = sym (append-nil (take bkt.count bkt.b));
    unvisited = refl;
  },
)
copy_items-Copied i (x ∷ xs) bkt e h =
    let (bkt', r, c) =
      copy_items-Copied (i + 1) xs (record bkt { b = set bkt.b i x; count = bkt.count + 1 })
        (omega arith) (omega (arith, length-set bkt.b i x)) in
    (
      bkt',
      copy_items_step i x xs bkt (omega arith) ∙ r,
      record {
        counted = omega (arith, c.counted);
        kept = c.kept ∙ length-set bkt.b i x;
        copied = c.copied ∙ copied_step i x xs bkt e (omega arith);
        unvisited = c.unvisited;
      },
    )

pub init_bucket-none :
    (bkt : Bucket) → init_bucket bkt none ≡ done (record bkt { count = 0; visited = 0 })
unfolding init_bucket
init_bucket-none bkt = refl

-- init_bucket on an array of 255 items gives a bucket within its array that nobody has visited:
-- it holds the given items, the last one newest, if they are at most 255, and nothing otherwise.
pub init_bucket-newest :
    (bkt : Bucket) (items : List BucketItem)
    → length bkt.b ≡ 255
    → (bkt' : Bucket) × (init_bucket bkt (some items) ≡ done bkt')
      × (newest bkt' ≡ (if ltb max_bucket_size (length items) then [] else reverse items))
      × IsValid bkt'
      × (bkt'.visited ≡ 0)
unfolding init_bucket
init_bucket-newest bkt items h = elim (Bool-cases (ltb max_bucket_size (length items))) [
  | inl many ↦ rw many (fresh, refl, refl, omega arith, refl)
  | inr few ↦
      let (bkt', r, c) = copy_items-Copied 0 items fresh refl (ground arith) in
      rw few (
        bkt',
        r,
        ap reverse c.copied,
        record { small = ground (arith, c.counted); fits = omega (arith, c.kept) },
        c.unvisited,
      )
]
  where
    fresh : Bucket
    fresh = record bkt { count = 0; visited = 0 }
