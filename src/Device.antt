-- ===== src/Device.antt =====
-- src/device.h: the tun devices of the two systems that the program is built for. The descriptors
-- and what the kernel answers are parameters; messages on the terminal are left out.
pub mod Linux
pub mod Bsd
mod Tests
use nose.Common.{ℕ, ◌+◌, ◌/◌, ◌%◌, ltb, if◌then◌else◌, List, [], ◌∷◌, length, take, ◌≤◌, arith}

-- What `sprintf` writes for `%d`, for a number below 1000.
unfoldable pub decimal : ℕ → List ℕ
decimal n =
    if ltb n 10
    then (48 + n) ∷ []
    else if ltb n 100
    then (48 + n / 10) ∷ (48 + n % 10) ∷ []
    else (48 + n / 100) ∷ (48 + n / 10 % 10) ∷ (48 + n % 10) ∷ []

-- "tun%d"
unfoldable pub tun_name : ℕ → List ℕ
unfolding decimal
tun_name id = 116 ∷ 117 ∷ 110 ∷ decimal id

-- What utun_open answers: a negative number of the system's, FAILED, ERROR, or a descriptor.
pub data Opened : Type 0 where
  refused open_failed open_error : Opened
  opened : ℕ → Opened
