-- ===== src/Device/Linux.antt =====
-- src/linux/device.c: the tun device of Linux.
pub mod Free
use nose.Common.{
  ℕ, zero, suc, ◌+◌, ◌==◌, Bool, ltb, if◌then◌else◌, Option, none, some, List, [], ◌∷◌, ◌++◌,
  length, take, drop, replicate, Outcome, done, blocked, fault, Status, ok, error,
}
use nose.Common.Strings.{c_str, strncpy}
use nose.Device.{tun_name, Opened, refused, open_failed, open_error, opened}

-- The kernel: the descriptor of /dev/net/tun, if it can be opened, the name that the i-th
-- ioctl(TUNSETIFF) writes into `ifr`, if it succeeds, and whether the i-th ioctl(TUNSETPERSIST)
-- does.
pub record Tun : Type 0 where
  pub open_tun : Option ℕ
  pub tunsetiff : ℕ → List ℕ → Option (List ℕ)
  pub tunsetpersist : ℕ → Bool

-- IFNAMSIZ
abbrev pub ifnamsiz : ℕ
ifnamsiz = 16

-- `ifr.ifr_name` after ioctl(TUNSETIFF): a failure is only told on the terminal.
abbrev pub ifr_name_after : Option (List ℕ) → List ℕ → List ℕ
ifr_name_after none ifr_name = ifr_name
ifr_name_after (some name) ifr_name = name

-- The loop over the numbers of devices, with the rounds left: the value of `id` and the name where
-- it is left by `break`, none where it ends at `id <= 255`.
unfoldable pub tun_loop : Tun → ℕ → ℕ → List ℕ → Option (ℕ × List ℕ)
tun_loop tun zero id ifr_name = none
tun_loop tun (suc rounds) id ifr_name =
    let named = strncpy ifr_name (tun_name id) ifnamsiz in
    let name = ifr_name_after (tun.tunsetiff id named) named in
    let rest = tun_loop tun rounds (id + 1) name in
    if tun.tunsetpersist id then some (id + 1, name) else rest

-- `strcpy(device_name, ifr.ifr_name)`
abbrev pub strcpy : List ℕ → List ℕ → Outcome (List ℕ)
strcpy dst src =
    let n = length (c_str src) in
    if ltb n (length dst) then done (c_str src ++ 0 ∷ drop (n + 1) dst) else fault

-- The last number, 255, leaves `id` at 256 whether the device was opened or not.
unfoldable pub utun_open : Tun → List ℕ → Outcome (Opened × List ℕ)
unfolding tun_loop
utun_open tun device_name = elim tun.open_tun [
  | none ↦ done (refused, device_name)
  | some fd ↦
      if length (c_str device_name) == 0
      then done (open_failed, device_name)
      else elim (tun_loop tun 256 0 (replicate ifnamsiz 0)) [
        | none ↦ done (open_error, device_name)
        | some (id, name) ↦ elim (strcpy device_name name) [
          | done device_name' ↦ done (if id == 256 then open_error else opened fd, device_name')
          | blocked ↦ blocked
          | fault ↦ fault
        ]
      ]
]

-- A packet of which more than 1518 bytes are not read.
abbrev pub utun_read : List ℕ → List ℕ
utun_read packet = take 1518 packet

-- The answers of the two calls of ioctl, which are 0 for success; the descriptor is closed anyway.
unfoldable pub utun_close : Bool → Bool → Status
utun_close tunsetiff tunsetpersist =
    if tunsetiff then (if tunsetpersist then ok else error) else error
