-- ===== src/Pmp/Learned.antt =====
-- What a table of src/bucket.c learns from a list of items that a packet of src/pmp.c tells it.
use nose.Common.{
  ℕ, zero, suc, ◌==◌, ◌+◌, ◌≤◌, ◌<◌, ◌≡◌, refl, sym, ap, ◌∙◌, true, false, List, [], ◌∷◌, ◌++◌,
  length, take, arith, All, ◌⊎◌, inl, inr, Bool-cases, done,
}
use mathlib.Core.Path.{subst}
use mathlib.Core.List.{append_assoc}
use nose.Common.Strings.{c_str, bytes_eq_refl}
use nose.Bucket.{BucketItem, Bucket, push_front_bucket, max_bucket_size}
use nose.Bucket.Newest.{newest, known, stamped, IsValid}
use nose.Bucket.Push.{push_known, push_fresh, pushed, newest-pushed, pushed-IsValid}
use nose.Pmp.{Inet}
use nose.Pmp.Options.{Repeats}

-- A NUL after the first `n` bytes of a shorter text is not seen.
c_str-cut :
    (n : ℕ) (id rest : List ℕ) → length (c_str id) ≤ n → c_str (take n id ++ 0 ∷ rest) ≡ c_str id
unfolding c_str
c_str-cut zero [] rest h = refl
c_str-cut (suc n) [] rest h = refl
c_str-cut zero (c ∷ cs) rest h = elim (Bool-cases (c == 0)) [
  | inl z ↦ rw z refl
  | inr z ↦ absurd (omega (arith, rw z at h))
]
c_str-cut (suc n) (c ∷ cs) rest h = elim (Bool-cases (c == 0)) [
  | inl z ↦ rw z refl
  | inr z ↦ rw z (ap (◌∷◌ c) (c_str-cut n cs rest (omega (arith, rw z at h))))
]

known-c_str :
    (id id' : List ℕ) (xs : List BucketItem) → c_str id ≡ c_str id' → known id xs ≡ known id' xs
unfolding known
known-c_str id id' [] e = refl
known-c_str id id' (x ∷ xs) e = rw (e, known-c_str id id' xs e) refl

-- With a NUL for the end of the names, the nodes are known by the names that the list has.
pub known-names :
    (xs items : List BucketItem) (tail : List ℕ)
    → tail ≡ 0 ∷ []
    → All (λ x. length (c_str x.node_id) ≤ 20) xs
    → All (λ x. known (take 20 x.node_id ++ tail) items ≡ true) xs
    → All (λ x. known x.node_id items ≡ true) xs
known-names [] items tail e n h = tt
known-names (x ∷ xs) items tail e (n, ns) (h, hs) =
    let same : c_str x.node_id ≡ c_str (take 20 x.node_id ++ tail) =
      rw e (sym (c_str-cut 20 x.node_id [] n)) in
    (
      known-c_str x.node_id (take 20 x.node_id ++ tail) items same ∙ h,
      known-names xs items tail e ns hs,
    )

module _ (net : Inet) where
  -- Some item of the list is repeated by `y`.
  abbrev pub Said : List BucketItem → List ℕ → BucketItem → Type 0
  Said [] tail y = ⊥
  Said (x ∷ xs) tail y = Repeats net x y tail ⊎ Said xs tail y

  -- What a table of nodes learned from a list of items: the items that came in front each repeat one
  -- of the list, what was there stays behind them, and every node of the list is known.
  pub record Learned (xs : List BucketItem) (tail : List ℕ) (bkt bkt' : Bucket) : Type 0 where
    pub added : List BucketItem
    pub in_front : newest bkt' ≡ added ++ newest bkt
    pub said : All (Said xs tail) added
    pub complete : All (λ x. known (take 20 x.node_id ++ tail) (newest bkt') ≡ true) xs
    pub valid : IsValid bkt'
    pub small : bkt'.count ≤ bkt.count + length xs

  -- One push, which may be of a known node.
  pub record Pushed (item : BucketItem) (s u : ℕ) (bkt bkt' : Bucket) : Type 0 where
    pub done_so : push_front_bucket item s u false bkt ≡ done (false, bkt')
    pub in_front : (newest bkt' ≡ newest bkt) ⊎ (newest bkt' ≡ stamped item s u ∷ newest bkt)
    pub there : known item.node_id (newest bkt') ≡ true
    pub valid : IsValid bkt'
    pub small : bkt'.count ≤ bkt.count + 1

  pub push-Pushed :
      (item : BucketItem) (s u : ℕ) (bkt : Bucket)
      → IsValid bkt
      → bkt.count < max_bucket_size
      → (bkt' : Bucket) × Pushed item s u bkt bkt'
  unfolding known
  push-Pushed item s u bkt v room = elim (Bool-cases (known item.node_id (newest bkt))) [
    | inl old ↦ (
      bkt,
      record {
        done_so = push_known bkt item s u old;
        in_front = inl refl;
        there = old;
        valid = v;
        small = omega arith;
      },
    )
    | inr new ↦
        let n = newest-pushed bkt (stamped item s u) v room in
        (
          pushed bkt (stamped item s u),
          record {
            done_so = push_fresh bkt item s u v (λ e. omega arith) new;
            in_front = inr n;
            there = rw (n, bytes_eq_refl (c_str item.node_id)) refl;
            valid = pushed-IsValid bkt (stamped item s u) v room;
            small = omega arith;
          },
        )
  ]

  known-append_right :
      (id : List ℕ) (xs ys : List BucketItem) → known id ys ≡ true → known id (xs ++ ys) ≡ true
  unfolding known
  known-append_right id [] ys h = h
  known-append_right id (x ∷ xs) ys h = ground (arith, known-append_right id xs ys h)

  Said-weaken :
      (x : BucketItem) (xs ys : List BucketItem) (tail : List ℕ)
      → All (Said xs tail) ys
      → All (Said (x ∷ xs) tail) ys
  Said-weaken x xs [] tail h = tt
  Said-weaken x xs (y ∷ ys) tail h = (inr h.0, Said-weaken x xs ys tail h.1)

  Said-append :
      (xs ys zs : List BucketItem) (tail : List ℕ)
      → All (Said xs tail) ys
      → All (Said xs tail) zs
      → All (Said xs tail) (ys ++ zs)
  Said-append xs [] zs tail h k = k
  Said-append xs (y ∷ ys) zs tail h k = (h.0, Said-append xs ys zs tail h.1 k)

  stamped-Repeats :
      (x y : BucketItem) (tail : List ℕ) (s u : ℕ)
      → Repeats net x y tail
      → Repeats net x (stamped y s u) tail
  stamped-Repeats x y tail s u r = record {
    nat_type_is = r.nat_type_is;
    port_is = r.port_is;
    ipv4_is = r.ipv4_is;
    vlan_is = r.vlan_is;
    node_is = r.node_is;
  }

  -- A push of an item of the list, and then what was learned from the rest of it.
  pub learn_first :
      (x y : BucketItem) (xs : List BucketItem) (tail : List ℕ) (s u : ℕ) (bkt bkt' bkt'' : Bucket)
      → Repeats net x y tail
      → Pushed y s u bkt bkt'
      → Learned xs tail bkt' bkt''
      → Learned (x ∷ xs) tail bkt bkt''
  learn_first x y xs tail s u bkt bkt' bkt'' r p l =
      let there =
        subst (λ items. known (take 20 x.node_id ++ tail) items ≡ true) (sym l.in_front)
          (known-append_right (take 20 x.node_id ++ tail) l.added (newest bkt')
            (subst (λ id. known id (newest bkt') ≡ true) r.node_is p.there)) in
      elim p.in_front [
        | inl same ↦ record {
          added = l.added;
          in_front = l.in_front ∙ ap (λ items. l.added ++ items) same;
          said = Said-weaken x xs l.added tail l.said;
          complete = (there, l.complete);
          valid = l.valid;
          small = omega (arith, l.small, p.small);
        }
        | inr more ↦ record {
          added = l.added ++ stamped y s u ∷ [];
          in_front =
              l.in_front
              ∙ ap (λ items. l.added ++ items) more
              ∙ sym (append_assoc l.added (stamped y s u ∷ []) (newest bkt));
          said =
              Said-append (x ∷ xs) l.added (stamped y s u ∷ []) tail
                (Said-weaken x xs l.added tail l.said) (inl (stamped-Repeats x y tail s u r), tt);
          complete = (there, l.complete);
          valid = l.valid;
          small = omega (arith, l.small, p.small);
        }
      ]
