-- ===== src/Bucket/Newest.antt =====
-- The bucket of src/bucket.c seen as the list of its items, newest first.
use nose.Common.{
  ℕ, zero, suc, ◌+◌, ◌*◌, ◌≤◌, ◌<◌, ◌≡◌, refl, sym, ap, ◌∙◌, Bool, false, ◌||◌, some, List, [], ◌∷◌,
  ◌++◌, reverse, length, get_elem?, set, take, arith, Outcome, done, blocked, fault, take-suc,
  take-set_end, length-take, length-append,
}
use nose.Common.Strings.{same_str}
use nose.Bucket.{BucketItem, Bucket, has_node}
use mathlib.Core.List.{reverse-append}

abbrev pub newest : Bucket → List BucketItem
newest bkt = reverse (take bkt.count bkt.b)

pub record IsValid (bkt : Bucket) : Type 0 where
  pub small : bkt.count ≤ 255
  pub fits : length bkt.b ≡ 255

-- Some item is of that node.
unfoldable pub known : List ℕ → List BucketItem → Bool
known id [] = false
known id (x ∷ xs) = same_str id x.node_id || known id xs

-- No node stands twice.
abbrev pub IsDistinct : List BucketItem → Type 0
IsDistinct [] = Unit {0}
IsDistinct (x ∷ xs) = (known x.node_id xs ≡ false) × IsDistinct xs

abbrev pub stamped : BucketItem → ℕ → ℕ → BucketItem
stamped item tv_sec tv_usec = record item { join_timestap = tv_sec * 1000000 + tv_usec }

known-append :
    (id : List ℕ) (xs ys : List BucketItem) → known id (xs ++ ys) ≡ (known id xs || known id ys)
unfolding known
known-append id [] ys = refl
known-append id (x ∷ xs) ys = ground (arith, known-append id xs ys)

pub known-reverse : (id : List ℕ) (xs : List BucketItem) → known id (reverse xs) ≡ known id xs
unfolding known
known-reverse id [] = refl
known-reverse id (x ∷ xs) =
    rw (reverse-append (x ∷ []) xs)
      (ground (arith, known-append id (reverse xs) (x ∷ []), known-reverse id xs))

has_node-known : (n : ℕ) (b : List BucketItem) (id : List ℕ) → has_node n b id ≡ known id (take n b)
unfolding has_node known
has_node-known zero b id = refl
has_node-known (suc n) [] id = refl
has_node-known (suc n) (x ∷ xs) id = ground (arith, has_node-known n xs id)

pub has_node-newest :
    (bkt : Bucket) (id : List ℕ) → has_node bkt.count bkt.b id ≡ known id (newest bkt)
has_node-newest bkt id =
    has_node-known bkt.count bkt.b id ∙ sym (known-reverse id (take bkt.count bkt.b))

pub reverse-take-suc :
    (n : ℕ) (b : List BucketItem) (x : BucketItem)
    → get_elem? b n ≡ some x
    → reverse (take (suc n) b) ≡ x ∷ reverse (take n b)
reverse-take-suc n b x h = rw (take-suc n b x h) (reverse-append (take n b) (x ∷ []))

pub reverse-take-set :
    (n : ℕ) (b : List BucketItem) (x : BucketItem)
    → n < length b
    → reverse (take (n + 1) (set b n x)) ≡ x ∷ reverse (take n b)
reverse-take-set n b x h =
    let e : n + 1 ≡ suc n = omega arith in
    rw (e, take-set_end b n x h) (reverse-append (take n b) (x ∷ []))

-- What a caller of an operation sees: the mutex and the list of items.
abbrev pub view : Outcome (Bool × Bucket) → Outcome (Bool × List BucketItem)
view (done (held, bkt)) = done (held, newest bkt)
view blocked = blocked
view fault = fault

length-reverse : (xs : List BucketItem) → length (reverse xs) ≡ length xs
length-reverse [] = refl
length-reverse (x ∷ xs) = omega (
  arith,
  ap length (reverse-append (x ∷ []) xs),
  length-append (reverse xs) (x ∷ []),
  length-reverse xs,
)

pub length-newest : (bkt : Bucket) → IsValid bkt → length (newest bkt) ≡ bkt.count
length-newest bkt v =
    omega (arith, length-reverse (take bkt.count bkt.b), length-take bkt.count bkt.b)
