-- ===== src/Dfa/Handshake.antt =====
-- The automaton of src/dfa_state.h: START, AUTHEN, KEY_EX and RUN with six conditions.
use nose.Common.{ℕ, ◌≤◌, ◌≡◌, Bool, List, arith, ok, error, ◌==◌, ◌||◌, ◌≢◌, ◌∙◌, if◌then◌else◌}
use nose.Dfa.{
  Dfa, move_to, set_next_dfa_state, state_matrix, state_m, s_start, s_authen, s_key_ex, s_run,
}

-- The automaton in a state.
abbrev pub handshake : ℕ → Bool → List (ℕ × ℕ × ℕ) → Dfa
handshake state told calls = record {
  matrix = state_matrix;
  m = state_m;
  current_state = state;
  call_back = told;
  calls = calls;
}

-- The state that a condition joins with a state, or 0: START and AUTHEN are joined by 1 and by 2,
-- AUTHEN and KEY_EX by 3 and by 4, KEY_EX and RUN by 5, and RUN with itself by 6.
unfoldable pub partner : ℕ → ℕ → ℕ
partner state condition =
    if condition == 1 || condition == 2
    then (if state == s_start then s_authen else if state == s_authen then s_start else 0)
    else if condition == 3 || condition == 4
    then (if state == s_authen then s_key_ex else if state == s_key_ex then s_authen else 0)
    else if condition == 5
    then (if state == s_key_ex then s_run else if state == s_run then s_key_ex else 0)
    else (if state == s_run then s_run else 0)

partner-partner :
    (state condition : ℕ)
    → 1 ≤ state
    → state ≤ 4
    → partner state condition ≢ 0
    → (1 ≤ partner state condition)
      × (partner state condition ≤ 4)
      × (partner (partner state condition) condition ≡ state)
unfolding partner
partner-partner state condition s1 s2 h = ground arith

-- In any of the four states and under any of the six conditions, set_next_dfa_state moves to the
-- state that the condition joins with the current one, and answers ERROR if there is none.
pub handshake-partner :
    (state condition : ℕ) (told : Bool) (calls : List (ℕ × ℕ × ℕ))
    → 1 ≤ state
    → state ≤ 4
    → 1 ≤ condition
    → condition ≤ 6
    → set_next_dfa_state (handshake state told calls) condition ≡ (
        if partner state condition == 0
        then (error, handshake state told calls)
        else (ok, move_to (handshake state told calls) (partner state condition) condition))
unfolding set_next_dfa_state partner
handshake-partner state condition told calls s1 s2 c1 c2 = ground arith

handshake-forth :
    (state condition : ℕ) (told : Bool) (calls : List (ℕ × ℕ × ℕ)) (d : Dfa)
    → 1 ≤ state
    → state ≤ 4
    → 1 ≤ condition
    → condition ≤ 6
    → set_next_dfa_state (handshake state told calls) condition ≡ (ok, d)
    → (partner state condition ≢ 0)
      × (d ≡ move_to (handshake state told calls) (partner state condition) condition)
handshake-forth state condition told calls d s1 s2 c1 c2 e =
    ground (arith, handshake-partner state condition told calls s1 s2 c1 c2)

arrives :
    (state condition : ℕ) (told : Bool) (calls : List (ℕ × ℕ × ℕ))
    → 1 ≤ state
    → state ≤ 4
    → 1 ≤ condition
    → condition ≤ 6
    → partner state condition ≢ 0
    → ((set_next_dfa_state (handshake state told calls) condition).0 ≡ ok)
      × ((set_next_dfa_state (handshake state told calls) condition).1.current_state
          ≡ partner state condition)
arrives state condition told calls s1 s2 c1 c2 h =
    ground (arith, handshake-partner state condition told calls s1 s2 c1 c2)

-- Every transition works in both directions: where a condition of the six moves one of the four
-- states to another, the same condition moves back.
pub handshake-back :
    (state condition : ℕ) (told : Bool) (calls : List (ℕ × ℕ × ℕ)) (d : Dfa)
    → 1 ≤ state
    → state ≤ 4
    → 1 ≤ condition
    → condition ≤ 6
    → set_next_dfa_state (handshake state told calls) condition ≡ (ok, d)
    → ((set_next_dfa_state d condition).0 ≡ ok)
      × ((set_next_dfa_state d condition).1.current_state ≡ state)
handshake-back state condition told calls d s1 s2 c1 c2 e =
    let (h, m) = handshake-forth state condition told calls d s1 s2 c1 c2 e in
    let (p1, p2, p3) = partner-partner state condition s1 s2 h in
    let (r, t) =
      arrives (partner state condition) condition told _ p1 p2 c1 c2 (λ z. omega arith) in
    rw m (r, t ∙ p3)
