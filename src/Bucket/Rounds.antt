-- ===== src/Bucket/Rounds.antt =====
-- get_next_bucket_item of src/bucket.c, by which the master peer chooses whom to ping.
use nose.Common.{
  ℕ, zero, suc, ◌+◌, ◌≤◌, ◌<◌, ◌≡◌, ap, ◌∙◌, false, some, List, [], ◌∷◌, length, get_elem?, take,
  drop, arith, Outcome, done, blocked, fault, ◌>>=◌, get_elem?-lt, ◌⊎◌, inl, inr, ◌%◌, drop-suc,
}
use native.Mathlib.Nat.{mod-eq_of_lt}
use nose.Bucket.{BucketItem, Bucket, get_next_bucket_item}
use nose.Bucket.Newest.{IsValid}

-- A division by zero: the call does not check for an empty bucket.
pub get_next_bucket_item-empty :
    (bkt : Bucket) → bkt.count ≡ 0 → get_next_bucket_item false bkt ≡ fault
unfolding get_next_bucket_item
get_next_bucket_item-empty bkt e = ground arith

-- The items that `k` calls answer, in their order.
pub next_items : ℕ → Bucket → Outcome (Bucket × List BucketItem)
next_items zero bkt = done (bkt, [])
next_items (suc k) bkt = elim (get_next_bucket_item false bkt) [
  | done (held, bkt', x) ↦ next_items k bkt' >>= λ (bkt'', xs). done (bkt'', x ∷ xs)
  | blocked ↦ blocked
  | fault ↦ fault
]

pub next_step :
    (bkt : Bucket) (x : BucketItem)
    → bkt.visited < bkt.count
    → get_elem? bkt.b bkt.visited ≡ some x
    → get_next_bucket_item false bkt ≡ done (false, record bkt { visited = bkt.visited + 1 }, x)
unfolding get_next_bucket_item
next_step bkt x h e =
    let r : bkt.visited % bkt.count ≡ bkt.visited = mod-eq_of_lt h in
    ground (arith, r, ap (get_elem? bkt.b) r)

next_items_step :
    (k : ℕ) (bkt : Bucket) (x : BucketItem) {bkt' : Bucket}
    → get_next_bucket_item false bkt ≡ done (false, bkt', x)
    → (bkt'' : Bucket) (xs : List BucketItem) → next_items k bkt' ≡ done (bkt'', xs)
    → next_items (suc k) bkt ≡ done (bkt'', x ∷ xs)
unfolding next_items
next_items_step k bkt x e bkt'' xs r = rw (e, next_items, r)

next_items-from :
    (k : ℕ) (bkt : Bucket)
    → bkt.visited + k ≡ bkt.count
    → bkt.count ≤ length bkt.b
    → next_items k bkt ≡ done (record bkt { visited = bkt.count }, take k (drop bkt.visited bkt.b))
next_items-from zero bkt h f = unfold next_items in ground arith
next_items-from (suc k) bkt h f =
    let (x, e) = get_elem?-lt bkt.b bkt.visited (omega arith) in
    let s : bkt.visited + 1 ≡ suc bkt.visited = omega arith in
    next_items_step k bkt x (next_step bkt x (omega arith) e) _ _
      (next_items-from k (record bkt { visited = bkt.visited + 1 }) (omega arith) f)
    ∙ rw (s, drop-suc bkt.visited bkt.b x e)

-- The counter stands at the end of a round where it stands at its start.
next_wraps :
    (bkt : Bucket)
    → 0 < bkt.count
    → bkt.visited ≡ bkt.count
    → get_next_bucket_item false bkt ≡ get_next_bucket_item false (record bkt { visited = 0 })
unfolding get_next_bucket_item
next_wraps bkt h e = let r : bkt.visited % bkt.count ≡ 0 % bkt.count = grind arith in rw r

next_items_wraps :
    (k : ℕ) (bkt : Bucket)
    → 0 < k
    → 0 < bkt.count
    → bkt.visited ≡ bkt.count
    → next_items k bkt ≡ next_items k (record bkt { visited = 0 })
unfolding next_items
next_items_wraps zero bkt k h e = absurd (omega arith)
next_items_wraps (suc k) bkt _ h e = rw (next_wraps bkt h e, next_items)

-- From the start or the end of a round, as many calls as there are items, in a bucket within its
-- array that is not empty, answer every item once, oldest first, and end the round.
pub next_items-round :
    (bkt : Bucket)
    → IsValid bkt
    → 0 < bkt.count
    → (bkt.visited ≡ 0) ⊎ (bkt.visited ≡ bkt.count)
    → next_items bkt.count bkt ≡ done (record bkt { visited = bkt.count }, take bkt.count bkt.b)
next_items-round bkt v h (inl e) =
    next_items-from bkt.count bkt (omega arith) (omega arith)
    ∙ ap (λ i. done (record bkt { visited = bkt.count }, take bkt.count (drop i bkt.b))) e
next_items-round bkt v h (inr e) =
    next_items_wraps bkt.count bkt h h e
    ∙ next_items-from bkt.count (record bkt { visited = 0 }) (omega arith) (omega arith)
