-- ===== src/Bucket/Locks.antt =====
-- The functions of src/bucket.c that read a table: the mutex is free after each that returns.
use nose.Common.{ℕ, ◌≡◌, refl, Bool, false, Option, none, List, done, Status, arith, fault}
use nose.Bucket.{
  BucketItem, Bucket, get_front_bucket, get_next_bucket_item, get_top_bucket_items, bucket_size,
  get_item_by_vlan_ipv4,
}
use nose.Bucket.Newest.{IsValid, newest, IsDistinct}

-- The mutex is free, and a table is within its array with no node in it twice.
abbrev pub Sound : Bool → Bucket → Type 0
Sound held bkt = (held ≡ false) × IsValid bkt × IsDistinct (newest bkt)

pub get_front_bucket-frees :
    (bkt : Bucket) (held held' : Bool) (item : Option BucketItem)
    → get_front_bucket held bkt ≡ done (held', item)
    → held' ≡ false
unfolding get_front_bucket
get_front_bucket-frees bkt held held' item e = ground arith

pub get_top_bucket_items-frees :
    (bkt : Bucket) (dst items : List BucketItem) (size n : ℕ) (held held' : Bool)
    → get_top_bucket_items held bkt dst size ≡ done (held', items, n)
    → held' ≡ false
unfolding get_top_bucket_items
get_top_bucket_items-frees bkt dst items size n held held' e = ground arith

pub bucket_size-frees :
    (bkt : Bucket) (held held' : Bool) (n : ℕ)
    → bucket_size held bkt ≡ done (held', n)
    → held' ≡ false
unfolding bucket_size
bucket_size-frees bkt held held' n e = ground arith

pub get_item_by_vlan_ipv4-frees :
    (bkt : Bucket) (vlan_ipv4 : List ℕ) (item x : BucketItem) (held held' : Bool) (status : Status)
    → get_item_by_vlan_ipv4 held bkt vlan_ipv4 item ≡ done (held', status, x)
    → held' ≡ false
unfolding get_item_by_vlan_ipv4
get_item_by_vlan_ipv4-frees bkt vlan_ipv4 item x held held' status e = ground arith

-- The next item is taken from a table that stays as it was but for the position.
pub get_next_bucket_item-Sound :
    (bkt bkt' : Bucket) (item : BucketItem) (held held' : Bool)
    → Sound held bkt
    → get_next_bucket_item held bkt ≡ done (held', bkt', item)
    → Sound held' bkt'
unfolding get_next_bucket_item
get_next_bucket_item-Sound bkt bkt' item held held' v e = ground arith

-- On an empty table.
pub get_front_bucket-empty :
    (bkt : Bucket) → bkt.count ≡ 0 → get_front_bucket false bkt ≡ done (false, none)
unfolding get_front_bucket
get_front_bucket-empty bkt h = rw h refl

pub get_next_bucket_item-empty :
    (bkt : Bucket) → bkt.count ≡ 0 → get_next_bucket_item false bkt ≡ fault
unfolding get_next_bucket_item
get_next_bucket_item-empty bkt h = rw h refl
