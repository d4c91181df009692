-- ===== src/Bucket/Push.antt =====
-- push_front_bucket, pop_front_bucket and pop_back_bucket of src/bucket.c on the list of items.
use nose.Common.{
  ℕ, zero, suc, ◌+◌, ◌-◌, ◌≤◌, ◌<◌, ◌≡◌, ◌≢◌, ◌⊎◌, refl, sym, ◌∙◌, Bool, true, false, inl, inr,
  some, List, ◌∷◌, reverse, length, get_elem?, set, take, drop, arith, Outcome, done, blocked,
  length-set, lt→ltb, ==_iff, get_elem?-lt, Bool-cases, if◌then◌else◌, ◌==◌,
}
use mathlib.Core.Path.{subst}
use nose.Bucket.{
  BucketItem, Bucket, max_bucket_size, has_node, push_front_bucket, pop_front_bucket,
  pop_back_bucket, shift_down,
}
use nose.Bucket.Newest.{
  newest, known, stamped, has_node-newest, reverse-take-set, reverse-take-suc, IsValid, IsDistinct,
  view, length-newest,
}

shift_down_step :
    (rounds i : ℕ) (b : List BucketItem) (x : BucketItem)
    → get_elem? b i ≡ some x
    → i < length b
    → shift_down (suc rounds) i b ≡ shift_down rounds (i + 1) (set b (i - 1) x)
unfolding shift_down
shift_down_step rounds i b x e h = ground arith

-- The loop of pop_back_bucket stays inside the array.
shift_down-done :
    (rounds i : ℕ) (b : List BucketItem)
    → rounds + i ≤ length b
    → (b' : List BucketItem) × (shift_down rounds i b ≡ done b')
shift_down-done zero i b h = (b, unfold shift_down in refl)
shift_down-done (suc rounds) i b h =
    let (x, e) = get_elem?-lt b i (omega arith) in
    let (b', r) =
      shift_down-done rounds (i + 1) (set b (i - 1) x) (omega (arith, length-set b (i - 1) x)) in
    (b', shift_down_step rounds i b x e (omega arith) ∙ r)

-- pop_back_bucket never returns, since it locks the mutex that it holds.
pub pop_back_bucket-blocked :
    (held : Bool) (bkt : Bucket) → IsValid bkt → pop_back_bucket held bkt ≡ blocked
unfolding pop_back_bucket
pop_back_bucket-blocked true bkt v = refl
pop_back_bucket-blocked false bkt v =
    let (b', e) = shift_down-done (bkt.count - 1) 1 bkt.b rounds_fit in rw e
  where
    rounds_fit : bkt.count - 1 + 1 ≤ length bkt.b
    rounds_fit = omega arith

pub push_known :
    (bkt : Bucket) (item : BucketItem) (s u : ℕ)
    → known item.node_id (newest bkt) ≡ true
    → push_front_bucket item s u false bkt ≡ done (false, bkt)
unfolding push_front_bucket
push_known bkt item s u h =
    let e : has_node bkt.count bkt.b item.node_id ≡ true = has_node-newest bkt item.node_id ∙ h in
    rw e

abbrev pub pushed : Bucket → BucketItem → Bucket
pushed bkt item = record bkt { b = set bkt.b bkt.count item; count = bkt.count + 1 }

pub newest-pushed :
    (bkt : Bucket) (item : BucketItem)
    → IsValid bkt
    → bkt.count < max_bucket_size
    → newest (pushed bkt item) ≡ item ∷ newest bkt
newest-pushed bkt item v room = reverse-take-set bkt.count bkt.b item (omega arith)

pub pushed-IsValid :
    (bkt : Bucket) (item : BucketItem)
    → IsValid bkt
    → bkt.count < max_bucket_size
    → IsValid (pushed bkt item)
pushed-IsValid bkt item v room = omega (arith, length-set bkt.b bkt.count item)

pub push_fresh :
    (bkt : Bucket) (item : BucketItem) (s u : ℕ)
    → IsValid bkt
    → bkt.count ≢ max_bucket_size
    → known item.node_id (newest bkt) ≡ false
    → push_front_bucket item s u false bkt ≡ done (false, pushed bkt (stamped item s u))
unfolding push_front_bucket
push_fresh bkt item s u v n h =
    let e : has_node bkt.count bkt.b item.node_id ≡ false = has_node-newest bkt item.node_id ∙ h in
    rw e (ground arith)

push_full :
    (bkt : Bucket) (item : BucketItem) (s u : ℕ)
    → IsValid bkt
    → bkt.count ≡ max_bucket_size
    → known item.node_id (newest bkt) ≡ false
    → push_front_bucket item s u false bkt ≡ blocked
unfolding push_front_bucket
push_full bkt item s u v n h =
    let e : has_node bkt.count bkt.b item.node_id ≡ false = has_node-newest bkt item.node_id ∙ h in
    rw e (ground arith)

-- push_front_bucket on the list: a node that is known leaves it alone, a new one becomes the
-- newest item and gets the time, and a full bucket is never left.
unfoldable pub push_newest : BucketItem → ℕ → ℕ → List BucketItem → Outcome (Bool × List BucketItem)
push_newest item s u xs =
    if known item.node_id xs
    then done (false, xs)
    else if length xs == max_bucket_size
    then blocked
    else done (false, stamped item s u ∷ xs)

push_cases :
    (bkt : Bucket) (item : BucketItem) (s u : ℕ)
    → IsValid bkt
    → push_front_bucket item s u false bkt ≡ (
        if known item.node_id (newest bkt)
        then done (false, bkt)
        else if bkt.count == max_bucket_size
        then blocked
        else done (false, pushed bkt (stamped item s u)))
push_cases bkt item s u v =
    ground (arith, push_known bkt item s u, push_fresh bkt item s u, push_full bkt item s u)

-- On an array of 255 items with the mutex free, push_front_bucket is `push_newest` on the list of
-- the bucket's items, newest first: it changes nothing for a known node, never returns for a new
-- node at 255 items, and otherwise puts the item, with the time, in front.
pub push_front_bucket-newest :
    (bkt : Bucket) (item : BucketItem) (s u : ℕ)
    → IsValid bkt
    → view (push_front_bucket item s u false bkt) ≡ push_newest item s u (newest bkt)
unfolding push_newest
push_front_bucket-newest bkt item s u v =
    ground (
      arith,
      push_cases bkt item s u v,
      length-newest bkt v,
      newest-pushed bkt (stamped item s u) v,
    )

arrives :
    (k k' : Bucket) (held : Bool)
    → ◌≡◌ {A = Outcome (Bool × Bucket)} (done (false, k)) (done (held, k'))
    → IsValid k
    → IsDistinct (newest k)
    → (held ≡ false) × IsValid k' × IsDistinct (newest k')
arrives k k' held e v d =
    let p : k ≡ k' = cc in (cc, subst IsValid p v, subst (λ x. IsDistinct (newest x)) p d)

-- The same of a push that is known to return.
pub push_front_bucket-keeps :
    (bkt bkt' : Bucket) (item : BucketItem) (s u : ℕ) (held : Bool)
    → IsValid bkt
    → IsDistinct (newest bkt)
    → push_front_bucket item s u false bkt ≡ done (held, bkt')
    → (held ≡ false) × IsValid bkt' × IsDistinct (newest bkt')
push_front_bucket-keeps bkt bkt' item s u held v d e =
    elim (Bool-cases (known item.node_id (newest bkt))) [
      | inl old ↦ arrives bkt bkt' held (sym (push_known bkt item s u old) ∙ e) v d
      | inr new ↦ elim (Bool-cases (bkt.count == max_bucket_size)) [
        | inl full ↦ absurd (never (sym (push_full bkt item s u v ((==_iff _ _).0 full) new) ∙ e))
        | inr room ↦
            arrives (pushed bkt (stamped item s u)) bkt' held
              (sym (push_fresh bkt item s u v (ground arith) new) ∙ e)
              (pushed-IsValid bkt (stamped item s u) v (ground arith))
              (rw (newest-pushed bkt (stamped item s u) v (ground arith)) (new, d))
      ]
    ]
  where
    never : {r : Bool × Bucket} → blocked ≡ done r → ⊥
    never p = cc

-- On a bucket within its array that has no node twice, with the mutex free, a push never leaves the
-- array: it returns with the mutex free, the bucket within its array and no node in it twice, or it
-- never returns, and this only for a new node at 255 items.
pub push_front_bucket-IsValid :
    (bkt : Bucket) (item : BucketItem) (s u : ℕ)
    → IsValid bkt
    → IsDistinct (newest bkt)
    → ((bkt' : Bucket) × (push_front_bucket item s u false bkt ≡ done (false, bkt'))
        × IsValid bkt'
        × IsDistinct (newest bkt'))
      ⊎ ((push_front_bucket item s u false bkt ≡ blocked)
          × (bkt.count ≡ max_bucket_size)
          × (known item.node_id (newest bkt) ≡ false))
push_front_bucket-IsValid bkt item s u v d = elim (Bool-cases (known item.node_id (newest bkt))) [
  | inl old ↦ inl (bkt, push_known bkt item s u old, v, d)
  | inr new ↦ elim (Bool-cases (bkt.count == max_bucket_size)) [
    | inl full ↦
        let n : bkt.count ≡ max_bucket_size = (==_iff _ _).0 full in
        inr (push_full bkt item s u v n new, n, new)
    | inr room ↦
        let bkt' = pushed bkt (stamped item s u) in
        let e = push_fresh bkt item s u v (ground arith) new in
        let (free, v', d') = push_front_bucket-keeps bkt bkt' item s u false v d e in
        inl (bkt', e, v', d')
  ]
]

pop_front-suc :
    (n visited : ℕ) (b : List BucketItem)
    → n < length b
    → view (pop_front_bucket false (record { count = suc n; visited = visited; b = b }))
      ≡ done (false, drop 1 (reverse (take (suc n) b)))
unfolding pop_front_bucket
pop_front-suc n visited b h =
    let (x, e) = get_elem?-lt b n h in
    let shorter : suc n - 1 ≡ n = omega arith in
    rw (reverse-take-suc n b x e, shorter, lt→ltb 0 (suc n) (omega arith))

pop_front-count :
    (n visited : ℕ) (b : List BucketItem)
    → n ≤ length b
    → view (pop_front_bucket false (record { count = n; visited = visited; b = b }))
      ≡ done (false, drop 1 (reverse (take n b)))
pop_front-count zero visited b h = unfold pop_front_bucket in refl
pop_front-count (suc n) visited b h = pop_front-suc n visited b h

-- pop_front_bucket takes the newest item away, and does nothing to an empty bucket.
pub pop_front_bucket-newest :
    (bkt : Bucket)
    → IsValid bkt
    → view (pop_front_bucket false bkt) ≡ done (false, drop 1 (newest bkt))
pop_front_bucket-newest bkt v = pop_front-count bkt.count bkt.visited bkt.b (omega arith)
