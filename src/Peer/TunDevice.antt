-- ===== src/Peer/TunDevice.antt =====
-- init_tun_device of src/peer.c with src/linux/device.c and src/net_config.c below it.
use nose.Common.{
  ℕ, ◌+◌, ◌≤◌, ◌<◌, ◌≡◌, refl, ◌==◌, Bool, true, if◌then◌else◌, Option, none, some, List, ◌∷◌,
  length, replicate, Outcome, done, ◌>>=◌, Status, ok, failed, arith, Option-cases, Bool-cases, inl,
  inr, drop,
}
use nose.Common.Strings.{c_str, c_str-append_nul}
use nose.Device.{tun_name, refused, open_failed, open_error, opened}
use nose.Device.Linux.{Tun, utun_open}
use nose.Device.Linux.Free.{
  IsTunDriver, first_free, put_name, utun_open-first_free, first_free-lt, tun_name-IsText,
}
use nose.NetConfig.{set_ip_configure, command_line}
use nose.NetConfig.Room.{set_ip_configure-runs}
use nose.Peer.{Peer, Events, Env, init_tun_device}

-- `char dev_name[20] = "tun0";`
abbrev pub dev_name : List ℕ
dev_name = 116 ∷ 117 ∷ 110 ∷ 48 ∷ replicate 16 0

-- init_tun_device on a tun driver and a shell; the command that was run comes with the result. What
-- set_ip_configure answers is not looked at.
unfoldable pub init_tun_device_on :
    Tun → (List ℕ → Bool) → Peer → Events → Outcome (Status × Events × Option (List ℕ))
init_tun_device_on tun system pr ev = utun_open tun dev_name >>= λ (answer, name). elim answer [
  | refused ↦ done (failed, record ev { tun = none }, none)
  | open_failed ↦ done (failed, record ev { tun = none }, none)
  | open_error ↦ done (failed, record ev { tun = none }, none)
  | opened fd ↦
      if fd == 0
      then done (failed, record ev { tun = none }, none)
      else (set_ip_configure true system name pr.vlan_local_ipv4 pr.vlan_remote_ipv4
          >>= λ (status, command). done (ok, record ev { tun = some fd }, some command))
]

-- The descriptor that the rest of the program sees, 0 for none, when `n` is the first free number.
abbrev pub descriptor : Option ℕ → ℕ → ℕ
descriptor none fd = 0
descriptor (some n) fd = if n == 255 then 0 else fd

-- The command that sets the addresses.
abbrev pub command : Peer → ℕ → List ℕ
command pr n = command_line true (put_name n dev_name) pr.vlan_local_ipv4 pr.vlan_remote_ipv4

abbrev pub command_run : Env → Peer → Option ℕ → Option (List ℕ)
command_run env pr none = none
command_run env pr (some n) = if env.utun_open == 0 then none else some (command pr n)

name-short : (n : ℕ) → n < 256 → length (c_str (put_name n dev_name)) ≤ 19
name-short n h =
    let (text, short) = tun_name-IsText n (omega arith) in
    rw (c_str-append_nul (tun_name n) (drop (length (tun_name n) + 1) dev_name) text)
      (omega (arith, short))

opened_nowhere :
    (tun : Tun) (system : List ℕ → Bool) (pr : Peer) (ev : Events) (env : Env)
    → utun_open tun dev_name ≡ done (open_error, dev_name)
    → env.utun_open ≡ 0
    → init_tun_device_on tun system pr ev
      ≡ done ((init_tun_device env pr ev).0, (init_tun_device env pr ev).1, none)
unfolding init_tun_device_on init_tun_device
opened_nowhere tun system pr ev env e f = rw (e, f, init_tun_device_on, init_tun_device) refl

opened_at :
    (tun : Tun) (system : List ℕ → Bool) (pr : Peer) (ev : Events) (env : Env) (n fd : ℕ)
    → length (c_str pr.vlan_local_ipv4) ≤ 15
    → length (c_str pr.vlan_remote_ipv4) ≤ 15
    → n < 256
    → utun_open tun dev_name
      ≡ done (if n == 255 then open_error else opened fd, put_name n dev_name)
    → env.utun_open ≡ descriptor (some n) fd
    → init_tun_device_on tun system pr ev
      ≡ done (
        (init_tun_device env pr ev).0,
        (init_tun_device env pr ev).1,
        command_run env pr (some n),
      )
unfolding init_tun_device_on init_tun_device
opened_at tun system pr ev env n fd s d l e f = elim (Bool-cases (n == 255)) [
  | inl last ↦ rw (rw last at e, rw last at f, init_tun_device_on, init_tun_device) refl
  | inr other ↦ elim (Bool-cases (fd == 0)) [
    | inl zero_fd ↦
        rw (rw other at e, rw other at f, zero_fd, init_tun_device_on, init_tun_device) refl
    | inr some_fd ↦
        rw
          (
            rw other at e,
            rw other at f,
            some_fd,
            (set_ip_configure-runs true system (put_name n dev_name) pr.vlan_local_ipv4
                pr.vlan_remote_ipv4 (name-short n l) s d).1,
            init_tun_device_on,
            init_tun_device,
          )
          refl
  ]
]

-- What init_tun_device does on a tun driver that can be opened and any shell is what the model of
-- src/peer.c says for a device that opens with the descriptor, or not at all, as the first free
-- number of a device decides; the command that is run names that device and the two addresses of
-- the configuration, which are up to 15 characters long, and nothing goes past the end of an array.
pub init_tun_device_on-refines :
    (tun : Tun) (taken : ℕ → Bool) (system : List ℕ → Bool) (pr : Peer) (ev : Events) (env : Env)
    (fd : ℕ)
    → IsTunDriver tun taken
    → tun.open_tun ≡ some fd
    → length (c_str pr.vlan_local_ipv4) ≤ 15
    → length (c_str pr.vlan_remote_ipv4) ≤ 15
    → env.utun_open ≡ descriptor (first_free taken 256 0) fd
    → init_tun_device_on tun system pr ev
      ≡ done (
        (init_tun_device env pr ev).0,
        (init_tun_device env pr ev).1,
        command_run env pr (first_free taken 256 0),
      )
init_tun_device_on-refines tun taken system pr ev env fd v o s d f =
    let e =
      utun_open-first_free tun taken dev_name fd v o (unfold c_str in omega arith) (omega arith) in
    elim (Option-cases (first_free taken 256 0)) [
      | inl full ↦ rw full (opened_nowhere tun system pr ev env (rw full at e) (rw full at f))
      | inr (n, free) ↦ rw free (
          opened_at tun system pr ev env n fd s d (first_free-lt taken 256 0 n free) (rw free at e)
            (rw free at f))
    ]
