-- ===== src/Bucket.antt =====
-- src/bucket.h and src/bucket.c: the table of known nodes, newest last, behind a mutex.
-- `count` is `top + 1`. The mutex is one static object that every bucket shares: `held` says
-- whether it is locked. It is not recursive, so a second lock by the same thread waits for ever.
pub mod Newest
pub mod Push
mod Tests
pub mod Start
pub mod Rounds
pub mod Locks
pub mod Access
pub mod Names
use nose.Common.{
  ℕ, zero, suc, ◌+◌, ◌-◌, ◌*◌, ◌%◌, Bool, true, false, ◌||◌, ◌==◌, ltb, if◌then◌else◌, Option, none,
  some, List, [], ◌∷◌, length, get_elem?, set, arith, Outcome, done, blocked, fault, ◌>>=◌, ◌>>◌,
  store, load, Status, ok, failed,
}
use nose.Common.Strings.{c_str, bytes_eq, same_str}

-- struct bucket_item, with its character arrays as they stand in memory.
pub record BucketItem : Type 0 where
  pub port : ℕ
  pub ipv4 : List ℕ
  pub node_id : List ℕ
  pub state : ℕ
  pub join_timestap : ℕ
  pub vlan_ipv4 : List ℕ
  pub nat_type : ℕ

abbrev pub max_bucket_size : ℕ
max_bucket_size = 255

pub record Bucket : Type 0 where
  pub count : ℕ
  pub visited : ℕ
  pub b : List BucketItem

-- pthread_mutex_lock and pthread_mutex_unlock.
abbrev pub lock : Bool → Outcome Bool
lock true = blocked
lock false = done true

abbrev pub unlock : Bool → Outcome Bool
unlock held = done false

-- `for (i …) { bkt->b[i] = init_items[i]; bkt->top++; }`
copy_items : ℕ → List BucketItem → Bucket → Outcome Bucket
unfolding store
copy_items i [] bkt = done bkt
copy_items i (x ∷ xs) bkt = elim (store bkt.b i x) [
  | done b' ↦ copy_items (i + 1) xs (record bkt { b = b'; count = bkt.count + 1 })
  | blocked ↦ blocked
  | fault ↦ fault
]

-- The initial items are an array of `init_items_size` items, or the null pointer.
pub init_bucket : Bucket → Option (List BucketItem) → Outcome Bucket
unfolding copy_items
init_bucket bkt none = done (record bkt { count = 0; visited = 0 })
init_bucket bkt (some items) =
    let fresh = record bkt { count = 0; visited = 0 } in
    if ltb max_bucket_size (length items) then done fresh else copy_items 0 items fresh

-- The search over b[0] … b[top] for an item of that node. A name without a NUL ends with its array
-- here, where strcmp would read on: Names shows when that makes no difference.
pub has_node : ℕ → List BucketItem → List ℕ → Bool
has_node zero b id = false
has_node (suc n) [] id = false
has_node (suc n) (x ∷ xs) id = same_str id x.node_id || has_node n xs id

-- `for (i = 1; i <= top; i++) b[i - 1] = b[i];` with the rounds left.
shift_down : ℕ → ℕ → List BucketItem → Outcome (List BucketItem)
unfolding store load
shift_down zero i b = done b
shift_down (suc rounds) i b = elim (load b i >>= λ x. store b (i - 1) x) [
  | done b' ↦ shift_down rounds (i + 1) b'
  | blocked ↦ blocked
  | fault ↦ fault
]

-- The last call locks again where it should unlock, so nothing comes back.
pub pop_back_bucket : Bool → Bucket → Outcome (Bool × Bucket)
unfolding shift_down
pop_back_bucket held bkt = do
  held ← lock held
  b' ← shift_down (bkt.count - 1) 1 bkt.b
  held ← lock held
  done (held, record bkt { b = b'; count = bkt.count - 1 })

-- `tv_sec` and `tv_usec` are what gettimeofday gives.
pub push_front_bucket : BucketItem → ℕ → ℕ → Bool → Bucket → Outcome (Bool × Bucket)
unfolding pop_back_bucket has_node store
push_front_bucket item tv_sec tv_usec held bkt = do
  held ← lock held
  if has_node bkt.count bkt.b item.node_id then (unlock held >>= λ held. done (held, bkt)) else do
    (held, bkt) ←
        if bkt.count == max_bucket_size then pop_back_bucket held bkt else done (held, bkt)
    b' ← store bkt.b bkt.count (record item { join_timestap = tv_sec * 1000000 + tv_usec })
    held ← unlock held
    done (held, record bkt { b = b'; count = bkt.count + 1 })

-- `for (i = top, j = 0; i >= 0; i--, j++) item[j] = b[i];` with `i + 1` rounds left.
copy_down : ℕ → ℕ → List BucketItem → List BucketItem → Outcome (List BucketItem)
unfolding store load
copy_down zero j b dst = done dst
copy_down (suc i) j b dst = elim (load b i >>= λ x. store dst j x) [
  | done dst' ↦ copy_down i (j + 1) b dst'
  | blocked ↦ blocked
  | fault ↦ fault
]

-- The whole bucket is copied to `dst`, whatever `size` says; the result counts at most `size`.
pub get_top_bucket_items :
    Bool → Bucket → List BucketItem → ℕ → Outcome (Bool × List BucketItem × ℕ)
unfolding copy_down
get_top_bucket_items held bkt dst size = do
  held ← lock held
  let r_size = if ltb bkt.count size then bkt.count else size
  dst' ← copy_down bkt.count 0 bkt.b dst
  held ← unlock held
  done (held, dst', r_size)

-- The null pointer for an empty bucket.
pub get_front_bucket : Bool → Bucket → Outcome (Bool × Option BucketItem)
unfolding load
get_front_bucket held bkt = do
  held ← lock held
  item ← if bkt.count == 0 then done none else (load bkt.b (bkt.count - 1) >>= λ x. done (some x))
  held ← unlock held
  done (held, item)

-- b[0], also when nothing is in use.
pub get_back_bucket : Bool → Bucket → Outcome (Bool × BucketItem)
unfolding load
get_back_bucket held bkt = do
  held ← lock held
  item ← load bkt.b 0
  held ← unlock held
  done (held, item)

-- `visited %= top + 1` divides by zero on an empty bucket.
pub get_next_bucket_item : Bool → Bucket → Outcome (Bool × Bucket × BucketItem)
unfolding load
get_next_bucket_item held bkt = do
  held ← lock held
  visited ← if bkt.count == 0 then fault else done (bkt.visited % bkt.count)
  item ← load bkt.b visited
  held ← unlock held
  done (held, record bkt { visited = visited + 1 }, item)

pub pop_front_bucket : Bool → Bucket → Outcome (Bool × Bucket)
pop_front_bucket held bkt = do
  held ← lock held
  let count = if ltb 0 bkt.count then bkt.count - 1 else bkt.count
  held ← unlock held
  done (held, record bkt { count = count })

pub is_empty_bucket : Bool → Bucket → Outcome (Bool × Bool)
is_empty_bucket held bkt = do
  held ← lock held
  let is = bkt.count == 0
  held ← unlock held
  done (held, is)

pub bucket_size : Bool → Bucket → Outcome (Bool × ℕ)
bucket_size held bkt = do
  held ← lock held
  let size = bkt.count
  held ← unlock held
  done (held, size)

-- `for (i = top; i >= 0; i--)`, with `i + 1` rounds left: the item found, if any.
find_vlan : ℕ → List BucketItem → List ℕ → Outcome (Option BucketItem)
unfolding load
find_vlan zero b vlan = done none
find_vlan (suc i) b vlan = elim (load b i) [
  | done x ↦ elim (same_str x.vlan_ipv4 vlan) [ true ↦ done (some x) | false ↦ find_vlan i b vlan ]
  | blocked ↦ blocked
  | fault ↦ fault
]

-- On success the item is copied to `item`.
pub get_item_by_vlan_ipv4 :
    Bool → Bucket → List ℕ → BucketItem → Outcome (Bool × Status × BucketItem)
unfolding find_vlan
get_item_by_vlan_ipv4 held bkt vlan_ipv4 item = do
  held ← lock held
  found ← find_vlan bkt.count bkt.b vlan_ipv4
  held ← unlock held
  elim found [ none ↦ done (held, failed, item) | some x ↦ done (held, ok, x) ]

-- Destroying a mutex that is locked is undefined.
unfoldable pub destory_bucket : Bool → Bucket → Outcome Bucket
destory_bucket held bkt = if held then fault else done bkt
