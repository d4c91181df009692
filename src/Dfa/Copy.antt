-- ===== src/Dfa/Copy.antt =====
-- init_dfa of src/dfa.c copies the matrix.
use nose.Common.{
  ℕ, zero, suc, ◌+◌, ◌*◌, ◌≤◌, ◌<◌, ◌≡◌, refl, sym, ap, ◌∙◌, List, [], ◌∷◌, arith, length, take,
  set, get_or, get_elem?, take-suc, take-set_end, length-set, some, get_elem?-lt, take-length, ok,
}
use nose.Dfa.{Dfa, cell, copy_row, copy_rows, init_dfa}

get_or-eq_of_get_elem? : (xs : List ℕ) (i x : ℕ) → get_elem? xs i ≡ some x → get_or xs i 0 ≡ x
get_or-eq_of_get_elem? [] i x h = cc
get_or-eq_of_get_elem? (y ∷ ys) zero x h = cc
get_or-eq_of_get_elem? (y ∷ ys) (suc i) x h = get_or-eq_of_get_elem? ys i x h

-- One more integer copied.
copied_step :
    (matrix dst : List ℕ) (k : ℕ)
    → k < length dst
    → k < length matrix
    → take k dst ≡ take k matrix
    → take (suc k) (set dst k (get_or matrix k 0)) ≡ take (suc k) matrix
copied_step matrix dst k hd hm e =
    let (x, r) = get_elem?-lt matrix k hm in
    let v : get_or matrix k 0 ≡ x = get_or-eq_of_get_elem? matrix k x r in
    take-set_end dst k (get_or matrix k 0) hd ∙ rw (e, v) (sym (take-suc k matrix x r))

copy_row_step :
    (matrix dst : List ℕ) (m i n j : ℕ)
    → copy_row matrix m i (suc n) j dst
      ≡ copy_row matrix m i n (j + 1) (set dst (i * m + j) (cell matrix m i j))
unfolding copy_row
copy_row_step matrix dst m i n j = refl

copy_row-take :
    (matrix dst : List ℕ) (m i n j : ℕ)
    → i * m + j + n ≤ length matrix
    → length dst ≡ length matrix
    → take (i * m + j) dst ≡ take (i * m + j) matrix
    → (take (i * m + (j + n)) (copy_row matrix m i n j dst) ≡ take (i * m + (j + n)) matrix)
      × (length (copy_row matrix m i n j dst) ≡ length matrix)
copy_row-take matrix dst m i zero j h l e =
    let z : i * m + (j + 0) ≡ i * m + j = omega arith in rw z (unfold copy_row in (e, l))
copy_row-take matrix dst m i (suc n) j h l e =
    let z : i * m + (j + suc n) ≡ i * m + (j + 1 + n) = omega arith in
    let s : i * m + (j + 1) ≡ suc (i * m + j) = omega arith in
    rw (z, copy_row_step)
      (copy_row-take matrix (set dst (i * m + j) (cell matrix m i j)) m i n (j + 1) (omega arith)
        (length-set dst (i * m + j) (cell matrix m i j) ∙ l)
        (rw s (copied_step matrix dst (i * m + j) (omega arith) (omega arith) e)))

copy_rows_step :
    (matrix dst : List ℕ) (m n i : ℕ)
    → copy_rows matrix m (suc n) i dst ≡ copy_rows matrix m n (i + 1) (copy_row matrix m i m 0 dst)
unfolding copy_rows
copy_rows_step matrix dst m n i = refl

copy_rows-take :
    (matrix dst : List ℕ) (m n i : ℕ)
    → i * m + n * m ≤ length matrix
    → length dst ≡ length matrix
    → take (i * m) dst ≡ take (i * m) matrix
    → (take (i * m + n * m) (copy_rows matrix m n i dst) ≡ take (i * m + n * m) matrix)
      × (length (copy_rows matrix m n i dst) ≡ length matrix)
copy_rows-take matrix dst m zero i h l e =
    let z : i * m + 0 * m ≡ i * m = omega arith in rw z (unfold copy_rows in (e, l))
copy_rows-take matrix dst m (suc n) i h l e =
    let s : i * m + 0 ≡ i * m = omega arith in
    let r : i * m + (0 + m) ≡ (i + 1) * m = omega arith in
    let z : i * m + suc n * m ≡ (i + 1) * m + n * m = omega arith in
    let (e', l') = copy_row-take matrix dst m i m 0 (omega arith) l (rw s e) in
    rw (z, copy_rows_step)
      (copy_rows-take matrix (copy_row matrix m i m 0 dst) m n (i + 1) (omega arith) l'
        (rw r at e'))

eq_of_take :
    (n : ℕ) (xs ys : List ℕ) → n ≡ length xs → n ≡ length ys → take n xs ≡ take n ys → xs ≡ ys
eq_of_take n xs ys h k e =
    sym (take-length xs) ∙ ap (λ i. take i xs) (sym h) ∙ e ∙ ap (λ i. take i ys) k ∙ take-length ys

copy_rows-matrix :
    (matrix block : List ℕ) (m : ℕ)
    → length matrix ≡ m * m
    → length block ≡ m * m
    → copy_rows matrix m m 0 block ≡ matrix
copy_rows-matrix matrix block m hm hb =
    let z : 0 * m ≡ 0 = omega arith in
    let (e, l) = copy_rows-take matrix block m m 0 (omega arith) (omega arith) (rw z) in
    eq_of_take (0 * m + m * m) (copy_rows matrix m m 0 block) matrix (omega arith) (omega arith) e

-- init_dfa, given m * m integers and a block of memory for as many, answers OK with an automaton
-- in the first state whose matrix equals the given one, whatever stood in the block.
pub init_dfa-matrix :
    (d : Dfa) (matrix block : List ℕ) (m begin_state : ℕ)
    → length matrix ≡ m * m
    → length block ≡ m * m
    → init_dfa d matrix m begin_state block
      ≡ (ok, record d { matrix = matrix; m = m; current_state = begin_state })
init_dfa-matrix d matrix block m begin_state hm hb =
    copied
    ∙ ap (λ x. (ok, record d { matrix = x; m = m; current_state = begin_state }))
        (copy_rows-matrix matrix block m hm hb)
  where
    copied : init_dfa d matrix m begin_state block ≡ (
      ok,
      record d { matrix = copy_rows matrix m m 0 block; m = m; current_state = begin_state },
    )
    copied = unfold init_dfa in refl
