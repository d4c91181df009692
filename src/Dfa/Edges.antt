-- ===== src/Dfa/Edges.antt =====
-- Which transitions set_next_dfa_state of src/dfa.c takes, for any matrix.
use nose.Common.{
  ℕ, zero, suc, ◌+◌, ◌-◌, ◌≤◌, ◌<◌, ◌≡◌, ◌≢◌, ◌⊎◌, inl, inr, ap, ◌∙◌, true, none, some, List, arith,
  Status, ok, error, ◌==◌, Bool-cases, Option-cases,
}
use nose.Dfa.{Dfa, cell, find_line, find_col, column_first, line_first, move_to, set_next_dfa_state}

module _ (matrix : List ℕ) (m : ℕ) where
  cell_line : (col l r : ℕ) → l ≡ r → cell matrix m l col ≡ cell matrix m r col
  cell_line col l r e = ap (λ i. cell matrix m i col) e

  cell_col : (line l r : ℕ) → l ≡ r → cell matrix m line l ≡ cell matrix m line r
  cell_col line l r e = ap (λ i. cell matrix m line i) e

  find_line_sound :
      (col c n line r : ℕ)
      → find_line matrix m col c n line ≡ some r
      → (line ≤ r) × (r < line + n) × (cell matrix m r col ≡ c)
  unfolding find_line
  find_line_sound col c zero line r h = cc
  find_line_sound col c (suc n) line r h =
      ground (arith, find_line_sound col c n (line + 1) r, cell_line col line r)

  find_line_complete :
      (col c n line r : ℕ)
      → find_line matrix m col c n line ≡ none
      → line ≤ r
      → r < line + n
      → cell matrix m r col ≢ c
  unfolding find_line
  find_line_complete col c zero line r h lo hi = absurd (omega arith)
  find_line_complete col c (suc n) line r h lo hi =
      ground (arith, find_line_complete col c n (line + 1) r, cell_line col line r)

  find_col_sound :
      (line c n col r : ℕ)
      → find_col matrix m line c n col ≡ some r
      → (col ≤ r) × (r < col + n) × (cell matrix m line r ≡ c)
  unfolding find_col
  find_col_sound line c zero col r h = cc
  find_col_sound line c (suc n) col r h =
      ground (arith, find_col_sound line c n (col + 1) r, cell_col line col r)

  find_col_complete :
      (line c n col r : ℕ)
      → find_col matrix m line c n col ≡ none
      → col ≤ r
      → r < col + n
      → cell matrix m line r ≢ c
  unfolding find_col
  find_col_complete line c zero col r h lo hi = absurd (omega arith)
  find_col_complete line c (suc n) col r h lo hi =
      ground (arith, find_col_complete line c n (col + 1) r, cell_col line col r)

  -- A cell labelled `c` whose column is headed `s` and whose line is headed `t`.
  pub record IsUp (s c t line col : ℕ) : Type 0 where
    pub line_low : 1 ≤ line
    pub line_high : line < m
    pub col_low : 1 ≤ col
    pub col_high : col < m
    pub label : cell matrix m line col ≡ c
    pub from : cell matrix m 0 col ≡ s
    pub to : cell matrix m line 0 ≡ t

  -- One whose line is headed `s` and whose column is headed `t`.
  pub record IsAcross (s c t line col : ℕ) : Type 0 where
    pub line_low : 1 ≤ line
    pub line_high : line < m
    pub col_low : 1 ≤ col
    pub col_high : col < m
    pub label : cell matrix m line col ≡ c
    pub from : cell matrix m line 0 ≡ s
    pub to : cell matrix m 0 col ≡ t

  column_first_sound :
      (s c n col t : ℕ)
      → 1 ≤ col
      → col + n ≤ m
      → column_first matrix m s c n col ≡ some t
      → (line k : ℕ) × IsUp s c t line k
  unfolding column_first
  column_first_sound s c zero col t lo hi h = cc
  column_first_sound s c (suc n) col t lo hi h = elim (Bool-cases (cell matrix m 0 col == s)) [
    | inr other ↦ column_first_sound s c n (col + 1) t (omega arith) (omega arith) (rw other at h)
    | inl same ↦ elim (Option-cases (find_line matrix m col c (m - 1) 1)) [
      | inl e ↦ column_first_sound s c n (col + 1) t (omega arith) (omega arith) (rw (same, e) at h)
      | inr (l, e) ↦ (l, col, up l e same (rw (same, e) at h))
    ]
  ]
    where
      up :
          (l : ℕ)
          → find_line matrix m col c (m - 1) 1 ≡ some l
          → (cell matrix m 0 col == s) ≡ true
          → some (cell matrix m l 0) ≡ some t
          → IsUp s c t l col
      up l e same r = ground (arith, find_line_sound col c (m - 1) 1 l e)

  line_first_sound :
      (s c n line t : ℕ)
      → 1 ≤ line
      → line + n ≤ m
      → line_first matrix m s c n line ≡ some t
      → (l col : ℕ) × IsAcross s c t l col
  unfolding line_first
  line_first_sound s c zero line t lo hi h = cc
  line_first_sound s c (suc n) line t lo hi h = elim (Bool-cases (cell matrix m line 0 == s)) [
    | inr other ↦ line_first_sound s c n (line + 1) t (omega arith) (omega arith) (rw other at h)
    | inl same ↦ elim (Option-cases (find_col matrix m line c (m - 1) 1)) [
      | inl e ↦ line_first_sound s c n (line + 1) t (omega arith) (omega arith) (rw (same, e) at h)
      | inr (k, e) ↦ (line, k, across k e same (rw (same, e) at h))
    ]
  ]
    where
      across :
          (k : ℕ)
          → find_col matrix m line c (m - 1) 1 ≡ some k
          → (cell matrix m line 0 == s) ≡ true
          → some (cell matrix m 0 k) ≡ some t
          → IsAcross s c t line k
      across k e same r = ground (arith, find_col_sound line c (m - 1) 1 k e)

  column_first_complete :
      (s c n col line k : ℕ)
      → column_first matrix m s c n col ≡ none
      → 1 ≤ line
      → line < m
      → col ≤ k
      → k < col + n
      → cell matrix m line k ≡ c
      → cell matrix m 0 k ≢ s
  unfolding column_first
  column_first_complete s c zero col line k h l1 l2 k1 k2 e = absurd (omega arith)
  column_first_complete s c (suc n) col line k h l1 l2 k1 k2 e = ground (
    arith,
    column_first_complete s c n (col + 1) line k,
    find_line_complete col c (m - 1) 1 line,
    cell_col 0 col k,
    cell_col line col k,
  )

  line_first_complete :
      (s c n line l k : ℕ)
      → line_first matrix m s c n line ≡ none
      → 1 ≤ k
      → k < m
      → line ≤ l
      → l < line + n
      → cell matrix m l k ≡ c
      → cell matrix m l 0 ≢ s
  unfolding line_first
  line_first_complete s c zero line l k h k1 k2 l1 l2 e = absurd (omega arith)
  line_first_complete s c (suc n) line l k h k1 k2 l1 l2 e = ground (
    arith,
    line_first_complete s c n (line + 1) l k,
    find_col_complete line c (m - 1) 1 k,
    cell_line 0 line l,
    cell_line k line l,
  )

moved :
    (d d' : Dfa) (t c : ℕ)
    → ◌≡◌ {A = Status × Dfa} (ok, move_to d t c) (ok, d')
    → (t ≡ d'.current_state) × (d' ≡ move_to d d'.current_state c)
moved d d' t c e = ground arith

refused : (d d' : Dfa) → ◌≡◌ {A = Status × Dfa} (error, d) (ok, d') → ⊥
refused d d' e = cc (ap (λ (r : Status × Dfa). r.0) e)

-- Where set_next_dfa_state answers OK, some cell inside the matrix is labelled with the condition
-- and joins the old state and the new one: the one heads its line and the other its column, in
-- either way. The callback, if one is registered, is told of this move, and nothing else changes.
pub set_next_dfa_state-ok :
    (d d' : Dfa) (c : ℕ)
    → 1 ≤ d.m
    → set_next_dfa_state d c ≡ (ok, d')
    → (((line col : ℕ) × IsUp d.matrix d.m d.current_state c d'.current_state line col)
        ⊎ ((line col : ℕ) × IsAcross d.matrix d.m d.current_state c d'.current_state line col))
      × (d' ≡ move_to d d'.current_state c)
unfolding set_next_dfa_state
set_next_dfa_state-ok d d' c h e =
    elim (Option-cases (column_first d.matrix d.m d.current_state c (d.m - 1) 1)) [
      | inr (t, r) ↦
          let (p, q) = moved d d' t c (rw (r, set_next_dfa_state) at e) in
          (
            inl (
                column_first_sound d.matrix d.m d.current_state c (d.m - 1) 1 d'.current_state
                  (omega arith) (omega arith) (r ∙ ap some p)),
            q,
          )
      | inl u ↦ elim (Option-cases (line_first d.matrix d.m d.current_state c (d.m - 1) 1)) [
        | inr (t, r) ↦
            let (p, q) = moved d d' t c (rw (u, r, set_next_dfa_state) at e) in
            (
              inr (
                  line_first_sound d.matrix d.m d.current_state c (d.m - 1) 1 d'.current_state
                    (omega arith) (omega arith) (r ∙ ap some p)),
              q,
            )
        | inl r ↦ absurd (refused d d' (rw (u, r, set_next_dfa_state) at e))
      ]
    ]

-- Where it answers ERROR, the automaton is left as it was, and no cell inside the matrix that is
-- labelled with the condition has the current state at the head of its line or of its column. So it
-- is for a condition that labels no cell at all.
pub set_next_dfa_state-error :
    (d d' : Dfa) (c t line col : ℕ)
    → set_next_dfa_state d c ≡ (error, d')
    → (d' ≡ d)
      × (¬ IsUp d.matrix d.m d.current_state c t line col)
      × (¬ IsAcross d.matrix d.m d.current_state c t line col)
unfolding set_next_dfa_state
set_next_dfa_state-error d d' c t line col e =
    let (same, no_column, no_line) = nowhere d d' c e in
    (
      same,
      λ up.
          column_first_complete d.matrix d.m d.current_state c (d.m - 1) 1 line col no_column
            up.line_low up.line_high up.col_low (omega (arith, up.col_high)) up.label up.from,
      λ across.
          line_first_complete d.matrix d.m d.current_state c (d.m - 1) 1 line col no_line
            across.col_low across.col_high across.line_low (omega (arith, across.line_high))
            across.label across.from,
    )
  where
    nowhere :
        (d d' : Dfa) (c : ℕ)
        → set_next_dfa_state d c ≡ (error, d')
        → (d' ≡ d)
          × (column_first d.matrix d.m d.current_state c (d.m - 1) 1 ≡ none)
          × (line_first d.matrix d.m d.current_state c (d.m - 1) 1 ≡ none)
    nowhere d d' c e = ground arith
