-- ===== src/Device/Tests.antt =====
-- Concrete runs of the two openings of a tun device.
use nose.Common.{
  ℕ, ◌≡◌, refl, Bool, true, not, ◌==◌, if◌then◌else◌, none, some, List, [], ◌∷◌, ◌++◌, replicate,
  done, arith, ok,
}
use nose.Common.Strings.{c_str}
use nose.Device.{tun_name, decimal, opened}
use nose.Device.Linux.{Tun, utun_open, utun_close}
use nose.Device.Linux.Free.{IsTunDriver, first_free, utun_open-first_free}
use nose.Device.Bsd.{dev, dev_loop}

-- The device "tun0" belongs to another program.
abbrev one_taken : ℕ → Bool
one_taken id = id == 0

abbrev some_tun : Tun
some_tun = record {
  open_tun = some 9;
  tunsetiff = λ id name. if one_taken id then none else some name;
  tunsetpersist = λ id. not (one_taken id);
}

some_tun-IsTunDriver : IsTunDriver some_tun one_taken
some_tun-IsTunDriver = record {
  keeps = λ id name h. rw h refl;
  refuses = λ id name h. rw h refl;
  persists = λ id. refl;
}

abbrev some_name : List ℕ
some_name = 116 ∷ replicate 9 0

utun_open-first_free_example :
    utun_open some_tun some_name ≡ done (opened 9, 116 ∷ 117 ∷ 110 ∷ 49 ∷ 0 ∷ replicate 5 0)
unfolding first_free tun_name decimal
utun_open-first_free_example =
    utun_open-first_free some_tun one_taken some_name 9 some_tun-IsTunDriver refl
      (unfold c_str in omega arith) (omega arith)

closed : utun_close true true ≡ ok
unfolding utun_close
closed = refl

-- The file "/dev/t" is not there, and "/dev/tun1" is.
abbrev some_files : List ℕ → ℕ
some_files (a ∷ b ∷ c ∷ d ∷ e ∷ f ∷ g ∷ h ∷ i ∷ []) = 4
some_files name = 0

second_file :
    dev_loop some_files 2 1 some_name (dev ++ 116 ∷ [])
    ≡ done (opened 4, 116 ∷ 117 ∷ 110 ∷ 49 ∷ 0 ∷ replicate 5 0)
unfolding dev_loop tun_name decimal
second_file = refl
