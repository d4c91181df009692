-- ===== src/Dfa.antt =====
-- src/dfa.h, src/dfa.c and src/dfa_state.h: the table-driven automaton of the VPN handshake.
-- The matrix is the m * m integers behind the pointer, row by row. The callback is called with the
-- old state, the new state and the condition; the model records these calls in a log.
pub mod Edges
pub mod Handshake
pub mod Copy
mod Tests
use nose.Common.{
  ℕ, zero, suc, ◌+◌, ◌-◌, ◌*◌, Bool, true, false, ◌&&◌, ◌==◌, if◌then◌else◌, Option, none, some,
  List, [], ◌∷◌, get_or, arith, Status, ok, error, ltb, length, set,
}

pub record Dfa : Type 0 where
  pub matrix : List ℕ
  pub m : ℕ
  pub current_state : ℕ
  pub call_back : Bool
  pub calls : List (ℕ × ℕ × ℕ)

-- `*(matrix + line * m + col)`
abbrev pub cell : List ℕ → ℕ → ℕ → ℕ → ℕ
cell matrix m line col = get_or matrix (line * m + col) 0

-- One row of the copy loop of init_dfa: `n` columns left, the next one being `j`.
copy_row : List ℕ → ℕ → ℕ → ℕ → ℕ → List ℕ → List ℕ
copy_row matrix m i zero j dst = dst
copy_row matrix m i (suc n) j dst =
    copy_row matrix m i n (j + 1) (set dst (i * m + j) (cell matrix m i j))

copy_rows : List ℕ → ℕ → ℕ → ℕ → List ℕ → List ℕ
unfolding copy_row
copy_rows matrix m zero i dst = dst
copy_rows matrix m (suc n) i dst = copy_rows matrix m n (i + 1) (copy_row matrix m i m 0 dst)

-- `block` is what malloc gives for the m * m integers, with whatever stands in it.
pub init_dfa : Dfa → List ℕ → ℕ → ℕ → List ℕ → Status × Dfa
unfolding copy_rows
init_dfa d matrix m begin_state block =
    (ok, record d { matrix = copy_rows matrix m m 0 block; m = m; current_state = begin_state })

pub get_current_dfa_state : Dfa → ℕ
get_current_dfa_state d = d.current_state

pub dfa_state_change_listener : Dfa → Bool → Dfa
dfa_state_change_listener d given = if given then record d { call_back = true } else d

-- The inner loops: `n` cells left to look at, from line or column `i` on.
find_line : List ℕ → ℕ → ℕ → ℕ → ℕ → ℕ → Option ℕ
find_line matrix m col condition zero line = none
find_line matrix m col condition (suc n) line =
    let rest = find_line matrix m col condition n (line + 1) in
    if cell matrix m line col == condition then some line else rest

find_col : List ℕ → ℕ → ℕ → ℕ → ℕ → ℕ → Option ℕ
find_col matrix m line condition zero col = none
find_col matrix m line condition (suc n) col =
    let rest = find_col matrix m line condition n (col + 1) in
    if cell matrix m line col == condition then some col else rest

-- The outer loops, column first and then line first: the next state, if there is one.
column_first : List ℕ → ℕ → ℕ → ℕ → ℕ → ℕ → Option ℕ
unfolding find_line
column_first matrix m state condition zero col = none
column_first matrix m state condition (suc n) col =
    let rest = column_first matrix m state condition n (col + 1) in
    if cell matrix m 0 col == state
    then elim (find_line matrix m col condition (m - 1) 1) [
      | none ↦ rest
      | some line ↦ some (cell matrix m line 0)
    ]
    else rest

line_first : List ℕ → ℕ → ℕ → ℕ → ℕ → ℕ → Option ℕ
unfolding find_col
line_first matrix m state condition zero line = none
line_first matrix m state condition (suc n) line =
    let rest = line_first matrix m state condition n (line + 1) in
    if cell matrix m line 0 == state
    then elim (find_col matrix m line condition (m - 1) 1) [
      | none ↦ rest
      | some col ↦ some (cell matrix m 0 col)
    ]
    else rest

abbrev move_to : Dfa → ℕ → ℕ → Dfa
move_to d next condition = record d {
  current_state = next;
  calls = if d.call_back then (d.current_state, next, condition) ∷ d.calls else d.calls;
}

pub set_next_dfa_state : Dfa → ℕ → Status × Dfa
unfolding column_first line_first
set_next_dfa_state d condition =
    elim (column_first d.matrix d.m d.current_state condition (d.m - 1) 1) [
      | some next ↦ (ok, move_to d next condition)
      | none ↦ elim (line_first d.matrix d.m d.current_state condition (d.m - 1) 1) [
        | some next ↦ (ok, move_to d next condition)
        | none ↦ (error, d)
      ]
    ]

-- dfa_state.h
abbrev pub state_m : ℕ
state_m = 5

abbrev pub s_start : ℕ
s_start = 1

abbrev pub s_authen : ℕ
s_authen = 2

abbrev pub s_key_ex : ℕ
s_key_ex = 3

abbrev pub s_run : ℕ
s_run = 4

abbrev pub state_matrix : List ℕ
state_matrix =
    0 ∷ 1 ∷ 2 ∷ 3 ∷ 4 ∷ 1 ∷ 0 ∷ 1 ∷ 0 ∷ 0 ∷ 2 ∷ 2 ∷ 0 ∷ 3 ∷ 0 ∷ 3 ∷ 0 ∷ 4 ∷ 0 ∷ 5 ∷ 4 ∷ 0 ∷ 0 ∷ 0
    ∷ 6 ∷ []
