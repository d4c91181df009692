-- ===== src/Device/Bsd.antt =====
-- src/bsd/device.c: the tun devices of a BSD, one file each.
use nose.Common.{
  ℕ, zero, suc, ◌+◌, ltb, if◌then◌else◌, List, [], ◌∷◌, ◌++◌, length, take, drop, Outcome, done,
  fault, ◌>>=◌,
}
use nose.Common.Strings.{c_str}
use nose.Device.{tun_name, Opened, open_failed, opened}

-- "/dev/"
abbrev pub dev : List ℕ
dev = 47 ∷ 100 ∷ 101 ∷ 118 ∷ 47 ∷ []

-- `sprintf(array, "…", …)`: the text and its NUL, where there is room for them.
abbrev pub sprintf : List ℕ → List ℕ → Outcome (List ℕ)
sprintf array text =
    if ltb (length text) (length array)
    then done (text ++ 0 ∷ drop (length text + 1) array)
    else fault

-- The loop with the rounds left. `open_dev` is open of a file: 0 for all that is not positive.
-- `real_name` has 20 characters.
unfoldable pub dev_loop : (List ℕ → ℕ) → ℕ → ℕ → List ℕ → List ℕ → Outcome (Opened × List ℕ)
dev_loop open_dev zero id device_name real_name = done (open_failed, device_name)
dev_loop open_dev (suc rounds) id device_name real_name =
    let next = sprintf device_name (tun_name id) >>= λ device_name'.
    dev_loop open_dev rounds (id + 1) device_name' (dev ++ tun_name id) in
    if ltb 0 (open_dev real_name) then done (opened (open_dev real_name), device_name) else next

unfoldable pub utun_open : (List ℕ → ℕ) → List ℕ → Outcome (Opened × List ℕ)
unfolding dev_loop
utun_open open_dev device_name =
    let real_name = dev ++ c_str device_name in
    if ltb (length real_name) 20 then dev_loop open_dev 255 1 device_name real_name else fault

-- A packet of which more than 10240 bytes are not read.
abbrev pub utun_read : List ℕ → List ℕ
utun_read packet = take 10240 packet
