-- ===== src/Dfa/Tests.antt =====
-- The handshake automaton on concrete conditions.
use nose.Common.{ℕ, ◌≡◌, refl, true, false, [], ◌∷◌, arith, ok, error, replicate, ◌⊎◌}
use nose.Dfa.{
  init_dfa, move_to, set_next_dfa_state, state_matrix, state_m, s_start, s_authen, s_run,
}
use nose.Dfa.Edges.{IsUp, IsAcross, set_next_dfa_state-ok, set_next_dfa_state-error}
use nose.Dfa.Handshake.{handshake, partner, handshake-partner, handshake-back}
use nose.Dfa.Copy.{init_dfa-matrix}

-- A failed authentication moves on from the first state.
failed_start :
    set_next_dfa_state (handshake s_start true []) 2
    ≡ (ok, handshake s_authen true ((1, 2, 2) ∷ []))
unfolding set_next_dfa_state
failed_start = refl

no_payload : set_next_dfa_state (handshake s_start true []) 6 ≡ (error, handshake s_start true [])
unfolding set_next_dfa_state
no_payload = refl

set_next_dfa_state-ok_example :
    (((line col : ℕ) × IsUp state_matrix state_m s_start 2 s_authen line col)
      ⊎ ((line col : ℕ) × IsAcross state_matrix state_m s_start 2 s_authen line col))
    × (handshake s_authen true ((1, 2, 2) ∷ []) ≡ move_to (handshake s_start true []) s_authen 2)
set_next_dfa_state-ok_example =
    set_next_dfa_state-ok (handshake s_start true []) (handshake s_authen true ((1, 2, 2) ∷ [])) 2
      (omega arith) failed_start

-- Condition 9 labels no cell.
no_condition : set_next_dfa_state (handshake s_start true []) 9 ≡ (error, handshake s_start true [])
unfolding set_next_dfa_state
no_condition = refl

set_next_dfa_state-error_example :
    (handshake s_start true [] ≡ handshake s_start true [])
    × (¬ IsUp state_matrix state_m s_start 9 s_run 4 1)
    × (¬ IsAcross state_matrix state_m s_start 9 s_run 4 1)
set_next_dfa_state-error_example =
    set_next_dfa_state-error (handshake s_start true []) (handshake s_start true []) 9 s_run 4 1
      no_condition

handshake-partner_example :
    set_next_dfa_state (handshake s_start true []) 1
    ≡ (ok, handshake s_authen true ((1, 2, 1) ∷ []))
unfolding partner
handshake-partner_example =
    handshake-partner s_start 1 true [] (omega arith) (omega arith) (omega arith) (omega arith)

start_backwards :
    ((set_next_dfa_state (handshake s_authen true ((1, 2, 2) ∷ [])) 2).0 ≡ ok)
    × ((set_next_dfa_state (handshake s_authen true ((1, 2, 2) ∷ [])) 2).1.current_state ≡ s_start)
start_backwards =
    handshake-back s_start 2 true [] (handshake s_authen true ((1, 2, 2) ∷ [])) (omega arith)
      (omega arith) (omega arith) (omega arith) failed_start

init_dfa-matrix_here :
    init_dfa (handshake s_run false []) state_matrix 5 s_start (replicate 25 7)
    ≡ (ok, handshake s_start false [])
init_dfa-matrix_here =
    init_dfa-matrix (handshake s_run false []) state_matrix (replicate 25 7) 5 s_start refl refl
