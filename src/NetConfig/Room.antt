-- ===== src/NetConfig/Room.antt =====
-- The command line of src/net_config.c in its array of 100 characters.
use nose.Common.{
  ℕ, ◌+◌, ◌≤◌, ◌≡◌, refl, Bool, true, false, if◌then◌else◌, List, ◌++◌, ◌∷◌, length, done, arith,
  length-append, lt→ltb, ok, error,
}
use nose.Common.Strings.{c_str}
use nose.NetConfig.{command_line, set_ip_configure, up, between}

length-command_line :
    (linux : Bool) (interface src_addr dst_addr : List ℕ)
    → length (command_line linux interface src_addr dst_addr)
      ≤ 26 + length (c_str interface) + length (c_str src_addr) + length (c_str dst_addr)
unfolding command_line
length-command_line true interface src_addr dst_addr = omega (
  arith,
  length-append (c_str interface)
      (32 ∷ (c_str src_addr ++ (between true ++ (c_str dst_addr ++ up)))),
  length-append (c_str src_addr) (between true ++ (c_str dst_addr ++ up)),
  length-append (c_str dst_addr) up,
)
length-command_line false interface src_addr dst_addr = omega (
  arith,
  length-append (c_str interface)
      (32 ∷ (c_str src_addr ++ (between false ++ (c_str dst_addr ++ up)))),
  length-append (c_str src_addr) (between false ++ (c_str dst_addr ++ up)),
  length-append (c_str dst_addr) up,
)

-- With the name of an interface of up to 19 characters and two addresses of up to 15, the command
-- and its NUL take 76 characters at most, and set_ip_configure stays within its array of 100 and
-- answers as `system` does.
pub set_ip_configure-runs :
    (linux : Bool) (system : List ℕ → Bool) (interface src_addr dst_addr : List ℕ)
    → length (c_str interface) ≤ 19
    → length (c_str src_addr) ≤ 15
    → length (c_str dst_addr) ≤ 15
    → (length (command_line linux interface src_addr dst_addr) + 1 ≤ 76)
      × (set_ip_configure linux system interface src_addr dst_addr
          ≡ done (
            if system (command_line linux interface src_addr dst_addr) then ok else error,
            command_line linux interface src_addr dst_addr,
          ))
unfolding set_ip_configure
set_ip_configure-runs linux system interface src_addr dst_addr i s d =
    let l = length-command_line linux interface src_addr dst_addr in
    (
      omega (arith, l),
      rw
          (
            lt→ltb (length (command_line linux interface src_addr dst_addr)) 100 (omega (arith, l)),
            set_ip_configure,
          )
          refl,
    )
