-- ===== src/NetConfig/Tests.antt =====
-- A concrete command line.
use nose.Common.{ℕ, ◌+◌, ◌≤◌, ◌≡◌, true, List, [], ◌∷◌, length, done, arith, ok}
use nose.Common.Strings.{c_str}
use nose.NetConfig.{command_line, set_ip_configure}
use nose.NetConfig.Room.{set_ip_configure-runs}

-- "t", "1" and "2"
abbrev name : List ℕ
name = 116 ∷ 0 ∷ []

abbrev first_addr : List ℕ
first_addr = 49 ∷ 0 ∷ []

abbrev second_addr : List ℕ
second_addr = 50 ∷ 0 ∷ []

set_ip_configure-runs_example :
    (length (command_line true name first_addr second_addr) + 1 ≤ 76)
    × (set_ip_configure true (λ c. true) name first_addr second_addr
        ≡ done (ok, command_line true name first_addr second_addr))
unfolding c_str
set_ip_configure-runs_example =
    set_ip_configure-runs true (λ c. true) name first_addr second_addr (omega arith) (omega arith)
      (omega arith)
