-- ===== src/Device/Linux/Free.antt =====
-- Which device src/linux/device.c opens.
use nose.Common.{
  ℕ, zero, suc, ◌+◌, ◌≤◌, ◌<◌, ◌≡◌, refl, sym, Bool, true, false, not, ◌==◌, if◌then◌else◌, Option,
  none, some, List, ◌∷◌, ◌++◌, length, drop, replicate, done, arith, Bool-cases, inl, inr, lt→ltb,
  Option-cases, take_long, ◌-◌,
}
use nose.Common.Strings.{c_str, IsText, padded, length-padded, c_str-append_nul, c_str-eq_self}
use nose.Pmp.Fields.{drop-length}
use mathlib.Core.List.{append-nil}
use nose.Device.{decimal, tun_name, opened, open_error}
use nose.Device.Linux.{Tun, tun_loop, utun_open}

-- The tun driver, where the numbers in `taken` belong to others: a name that is taken is refused,
-- and another one is kept as it stands in `ifr`; a descriptor can be made persistent when it has a
-- device.
pub record IsTunDriver (tun : Tun) (taken : ℕ → Bool) : Type 0 where
  pub keeps : (id : ℕ) (name : List ℕ) → taken id ≡ false → tun.tunsetiff id name ≡ some name
  pub refuses : (id : ℕ) (name : List ℕ) → taken id ≡ true → tun.tunsetiff id name ≡ none
  pub persists : (id : ℕ) → tun.tunsetpersist id ≡ not (taken id)

-- The first number from `id` on, among as many as there are rounds, that is not taken.
unfoldable pub first_free : (ℕ → Bool) → ℕ → ℕ → Option ℕ
first_free taken zero id = none
first_free taken (suc rounds) id =
    let rest = first_free taken rounds (id + 1) in if taken id then rest else some id

-- The name of a device in its array of 16.
abbrev pub named : ℕ → List ℕ
named id = padded 16 (tun_name id)

pub tun_name-IsText : (id : ℕ) → id < 1000 → IsText (tun_name id) × (length (tun_name id) ≤ 6)
unfolding tun_name decimal
tun_name-IsText id h = ground arith

strncpy_named :
    (id : ℕ) (ifr_name : List ℕ)
    → id < 1000
    → length ifr_name ≡ 16
    → padded 16 (c_str (tun_name id)) ++ drop 16 ifr_name ≡ named id
strncpy_named id ifr_name h k =
    rw (c_str-eq_self (tun_name id) (tun_name-IsText id h).0, drop-length 16 ifr_name (sym k))
      (append-nil (named id))

-- The loop leaves off at the first number that is free.
tun_loop-first :
    (tun : Tun) (taken : ℕ → Bool) (rounds id : ℕ) (ifr_name : List ℕ)
    → IsTunDriver tun taken
    → length ifr_name ≡ 16
    → id + rounds ≤ 1000
    → tun_loop tun rounds id ifr_name
      ≡ elim (first_free taken rounds id) [ none ↦ none | some n ↦ some (n + 1, named n) ]
unfolding tun_loop first_free
tun_loop-first tun taken zero id ifr_name v h k = refl
tun_loop-first tun taken (suc rounds) id ifr_name v h k =
    let wide = length-padded 16 (tun_name id) in
    elim (Bool-cases (taken id)) [
      | inl other ↦
          rw
            (
              strncpy_named id ifr_name (omega arith) h,
              v.refuses id (named id) other,
              v.persists id,
              other,
            )
            (tun_loop-first tun taken rounds (id + 1) (named id) v wide (omega arith))
      | inr free ↦
          rw
            (
              strncpy_named id ifr_name (omega arith) h,
              v.keeps id (named id) free,
              v.persists id,
              free,
            )
            refl
    ]

pub first_free-lt :
    (taken : ℕ → Bool) (rounds id n : ℕ) → first_free taken rounds id ≡ some n → n < id + rounds
unfolding first_free
first_free-lt taken zero id n e = cc
first_free-lt taken (suc rounds) id n e = ground (arith, first_free-lt taken rounds (id + 1) n)

c_str-named : (id : ℕ) → id < 1000 → c_str (named id) ≡ tun_name id
unfolding padded
c_str-named id h =
    let (t, l) = tun_name-IsText id h in
    let more : 16 - length (tun_name id) ≡ suc (15 - length (tun_name id)) = omega arith in
    rw (take_long 16 (tun_name id) (omega arith), more)
      (c_str-append_nul (tun_name id) (replicate (15 - length (tun_name id)) 0) t)

-- The array that the caller passes, with a name put into it.
abbrev pub put_name : ℕ → List ℕ → List ℕ
put_name id device_name = tun_name id ++ 0 ∷ drop (length (tun_name id) + 1) device_name

nonzero : (n : ℕ) → 0 < n → (n == 0) ≡ false
nonzero n h = ground arith

last_number : (n : ℕ) → (n + 1 == 256) ≡ (n == 255)
last_number n = ground arith

utun_open-at :
    (tun : Tun) (device_name : List ℕ) (fd n : ℕ)
    → tun.open_tun ≡ some fd
    → 0 < length (c_str device_name)
    → 7 ≤ length device_name
    → n < 256
    → tun_loop tun 256 0 (replicate 16 0) ≡ some (n + 1, named n)
    → utun_open tun device_name
      ≡ done (if n == 255 then open_error else opened fd, put_name n device_name)
unfolding utun_open
utun_open-at tun device_name fd n o h k l e =
    let some_name = nonzero (length (c_str device_name)) h in
    let text = c_str-named n (omega arith) in
    let fits =
      lt→ltb (length (tun_name n)) (length device_name)
        (omega (arith, (tun_name-IsText n (omega arith)).1)) in
    rw (o, some_name, e, text, fits, last_number n, utun_open) refl

utun_open-none :
    (tun : Tun) (device_name : List ℕ) (fd : ℕ)
    → tun.open_tun ≡ some fd
    → 0 < length (c_str device_name)
    → tun_loop tun 256 0 (replicate 16 0) ≡ none
    → utun_open tun device_name ≡ done (open_error, device_name)
unfolding utun_open
utun_open-none tun device_name fd o h e =
    let some_name = nonzero (length (c_str device_name)) h in rw (o, some_name, e, utun_open) refl

-- With a tun driver that can be opened, and an array with some name in it and room for seven
-- characters, utun_open gives the descriptor and the name of the device with the first number from 0
-- to 254 that is free. Where 255 is the first free number, the device is there and its name in the
-- array, but the answer is ERROR; where none is free, the answer is ERROR and the array as it was.
pub utun_open-first_free :
    (tun : Tun) (taken : ℕ → Bool) (device_name : List ℕ) (fd : ℕ)
    → IsTunDriver tun taken
    → tun.open_tun ≡ some fd
    → 0 < length (c_str device_name)
    → 7 ≤ length device_name
    → utun_open tun device_name ≡ elim (first_free taken 256 0) [
      | none ↦ done (open_error, device_name)
      | some n ↦ done (if n == 255 then open_error else opened fd, put_name n device_name)
    ]
utun_open-first_free tun taken device_name fd v o h k =
    let found = tun_loop-first tun taken 256 0 (replicate 16 0) v refl (omega arith) in
    elim (Option-cases (first_free taken 256 0)) [
      | inl full ↦ rw full (utun_open-none tun device_name fd o h (rw full at found))
      | inr (n, free) ↦ rw free (
          utun_open-at tun device_name fd n o h k (first_free-lt taken 256 0 n free)
            (rw free at found))
    ]
