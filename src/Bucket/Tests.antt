-- ===== src/Bucket/Tests.antt =====
-- The bucket on concrete items.
use nose.Common.{
  ℕ, ◌≡◌, ◌⊎◌, refl, false, inl, some, [], ◌∷◌, ◌++◌, replicate, arith, done, blocked, ok,
}
use nose.Common.Strings.{c_str, bytes_eq}
use nose.Bucket.{
  BucketItem, Bucket, init_bucket, push_front_bucket, get_item_by_vlan_ipv4, get_top_bucket_items,
  pop_front_bucket, get_front_bucket, max_bucket_size,
}
use nose.Bucket.Newest.{IsValid, newest, view, IsDistinct, known, stamped}
use nose.Bucket.Push.{
  push_front_bucket-newest, push_front_bucket-IsValid, pop_front_bucket-newest, push_newest,
}
use nose.Bucket.Access.{
  first_vlan, get_item_by_vlan_ipv4-first, get_top_bucket_items-newest, get_front_bucket-newest,
}
use nose.Bucket.Rounds.{next_items, next_items-round}
use nose.Bucket.Start.{init_bucket-newest}

abbrev item_of : ℕ → BucketItem
item_of c = record {
  port = 9998;
  ipv4 = 49 ∷ 0 ∷ [];
  node_id = c ∷ c ∷ 0 ∷ [];
  state = 0;
  join_timestap = 0;
  vlan_ipv4 = 50 ∷ c ∷ 0 ∷ [];
  nat_type = 3;
}

abbrev two_items : Bucket
two_items = record {
  count = 2;
  visited = 0;
  b = item_of 97 ∷ item_of 98 ∷ replicate 253 (item_of 99);
}

two_items-IsValid : IsValid two_items
two_items-IsValid = omega arith

abbrev full_bucket : Bucket
full_bucket = record { count = 255; visited = 0; b = replicate 255 (item_of 97) }

push_test :
    view (push_front_bucket (item_of 100) 1 2 false two_items)
    ≡ done (false, stamped (item_of 100) 1 2 ∷ item_of 98 ∷ item_of 97 ∷ [])
unfolding push_front_bucket c_str bytes_eq
push_test = refl

push_full_test : push_front_bucket (item_of 100) 1 2 false full_bucket ≡ blocked
unfolding push_front_bucket c_str bytes_eq
push_full_test = refl

push_front_bucket-newest_example :
    view (push_front_bucket (item_of 100) 1 2 false two_items)
    ≡ push_newest (item_of 100) 1 2 (item_of 98 ∷ item_of 97 ∷ [])
push_front_bucket-newest_example =
    push_front_bucket-newest two_items (item_of 100) 1 2 two_items-IsValid

two_items-IsDistinct : IsDistinct (newest two_items)
unfolding known c_str bytes_eq
two_items-IsDistinct = (refl, (refl, tt))

push_front_bucket-IsValid_example :
    ((bkt' : Bucket) × (push_front_bucket (item_of 100) 1 2 false two_items ≡ done (false, bkt'))
      × IsValid bkt'
      × IsDistinct (newest bkt'))
    ⊎ ((push_front_bucket (item_of 100) 1 2 false two_items ≡ blocked)
        × (two_items.count ≡ max_bucket_size)
        × (known (item_of 100).node_id (newest two_items) ≡ false))
push_front_bucket-IsValid_example =
    push_front_bucket-IsValid two_items (item_of 100) 1 2 two_items-IsValid two_items-IsDistinct

newest_popped : view (pop_front_bucket false two_items) ≡ done (false, item_of 97 ∷ [])
newest_popped = pop_front_bucket-newest two_items two_items-IsValid

get_item_by_vlan_ipv4-first_example :
    get_item_by_vlan_ipv4 false two_items (50 ∷ 97 ∷ 0 ∷ []) (item_of 120)
    ≡ done (false, ok, item_of 97)
unfolding first_vlan c_str bytes_eq
get_item_by_vlan_ipv4-first_example =
    get_item_by_vlan_ipv4-first two_items (50 ∷ 97 ∷ 0 ∷ []) (item_of 120) two_items-IsValid

get_top_bucket_items-newest_example :
    get_top_bucket_items false two_items (replicate 3 (item_of 120)) 1
    ≡ done (false, item_of 98 ∷ item_of 97 ∷ item_of 120 ∷ [], 1)
get_top_bucket_items-newest_example =
    get_top_bucket_items-newest two_items (replicate 3 (item_of 120)) 1 two_items-IsValid
      (omega arith)

get_front_bucket-newest_example : get_front_bucket false two_items ≡ done (false, some (item_of 98))
get_front_bucket-newest_example = get_front_bucket-newest two_items two_items-IsValid

next_items-round_example :
    next_items 2 two_items ≡ done (record two_items { visited = 2 }, item_of 97 ∷ item_of 98 ∷ [])
next_items-round_example = next_items-round two_items two_items-IsValid (omega arith) (inl refl)

init_bucket-newest_here :
    (bkt : Bucket) × (init_bucket full_bucket (some (item_of 97 ∷ item_of 98 ∷ [])) ≡ done bkt)
    × (newest bkt ≡ item_of 98 ∷ item_of 97 ∷ [])
    × IsValid bkt
    × (bkt.visited ≡ 0)
init_bucket-newest_here = init_bucket-newest full_bucket (item_of 97 ∷ item_of 98 ∷ []) refl

-- A name of 21 characters, the last of which is given.
abbrev named : ℕ → BucketItem
named last = record (item_of 97) { node_id = replicate 20 97 ++ (last ∷ []) }
