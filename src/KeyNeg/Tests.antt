-- ===== src/KeyNeg/Tests.antt =====
-- Concrete runs of src/key_neg.c.
use nose.Common.{
  ℕ, ◌+◌, ◌≡◌, refl, sym, ap, ◌∙◌, true, some, List, [], ◌∷◌, ◌++◌, length, replicate, get_or, ok,
  arith, eq_of_some,
}
use nose.KeyNeg.{
  Ecdh, KeyNeg, no_keys, key_neg_make_public, key_neg_make_secret, key_neg_pkt,
  key_neg_pkt_validate,
}
use nose.KeyNeg.Agreement.{make_secret-same}

abbrev number_bytes : ℕ → List ℕ
number_bytes n = n ∷ replicate 31 0

-- Addition in place of a curve.
abbrev plain_ecdh : Ecdh
plain_ecdh = record {
  seed = λ entropy. some (length entropy);
  group_load = true;
  gen_public = λ r. some (r, r);
  lset = λ heap. true;
  compute_shared = λ heap rng d q. some (d + q);
  write_binary = λ n. some (number_bytes n);
  read_binary = λ heap bytes. some (get_or bytes 0 0);
  write_length = λ n bytes e. sym (ap length (eq_of_some e));
  read-write =
      λ heap n m bytes e r. sym (eq_of_some r) ∙ ap (λ b. get_or b 0 0) (sym (eq_of_some e));
  shared_same = λ heap heap' rng rng' r r' d q d' q' z z' e e' s s'. ground arith;
}

abbrev made : ℕ → KeyNeg
made r = record { d = r; q = r; pub_key = number_bytes r; sec_key = replicate 32 0 }

made_two : key_neg_make_public plain_ecdh (7 ∷ 7 ∷ []) no_keys ≡ (ok, made 2)
unfolding key_neg_make_public
made_two = refl

made_three : key_neg_make_public plain_ecdh (7 ∷ 7 ∷ 7 ∷ []) no_keys ≡ (ok, made 3)
unfolding key_neg_make_public
made_three = refl

built : (r : ℕ) → (bytes : List ℕ) × (key_neg_pkt true 5 (number_bytes r) 32 ≡ some bytes)
unfolding key_neg_pkt
built r = (_, refl)

-- The same secret on both sides.
abbrev agreed : ℕ → KeyNeg
agreed r = record { d = 0; q = 0; pub_key = number_bytes r; sec_key = number_bytes 5 }

computed_two : key_neg_make_secret plain_ecdh 0 0 (made 2) (number_bytes 3) 32 ≡ (ok, agreed 2)
unfolding key_neg_make_secret
computed_two = refl

computed_three : key_neg_make_secret plain_ecdh 1 1 (made 3) (number_bytes 2) 32 ≡ (ok, agreed 3)
unfolding key_neg_make_secret
computed_three = refl

make_secret-same_example :
    (key_neg_pkt_validate ((built 2).0 ++ []) (replicate 32 1) 32 ≡ (ok, number_bytes 2))
    × (key_neg_pkt_validate ((built 3).0 ++ []) (replicate 32 1) 32 ≡ (ok, number_bytes 3))
    × ((agreed 2).sec_key ≡ (agreed 3).sec_key)
    × (length (agreed 2).sec_key ≡ 32)
make_secret-same_example =
    make_secret-same plain_ecdh (7 ∷ 7 ∷ []) (7 ∷ 7 ∷ 7 ∷ []) no_keys no_keys (made 2) (made 3)
      (agreed 2) (agreed 3) 5 5 0 1 0 1 (built 2).0 (built 3).0 [] [] (replicate 32 1)
      (replicate 32 1) made_two made_three (built 2).1 (built 3).1 refl refl computed_two
      computed_three
