-- ===== src/Bucket/Names.antt =====
-- The names that push_front_bucket of src/bucket.c compares, with the memory behind their arrays.
use nose.Common.{ℕ, List, [], ◌∷◌, ◌++◌}
use nose.Bucket.{BucketItem}

-- The items with `behind` behind their names.
abbrev pub followed : (BucketItem → List ℕ) → List BucketItem → List BucketItem
followed behind [] = []
followed behind (x ∷ xs) = record x { node_id = x.node_id ++ behind x } ∷ followed behind xs
