-- ===== src/NetConfig.antt =====
-- src/net_config.h and src/net_config.c: the addresses of both ends of the tun device, which ifconfig
-- sets. `system` says whether a command line could be run; what it came to is not looked at.
pub mod Room
mod Tests
use nose.Common.{
  ℕ, Bool, ltb, if◌then◌else◌, List, [], ◌∷◌, ◌++◌, length, Outcome, done, fault, Status, ok, error,
}
use nose.Common.Strings.{c_str}

-- "ifconfig "
abbrev ifconfig : List ℕ
ifconfig = 105 ∷ 102 ∷ 99 ∷ 111 ∷ 110 ∷ 102 ∷ 105 ∷ 103 ∷ 32 ∷ []

-- " pointopoint " on Linux, " " on macOS
abbrev between : Bool → List ℕ
between linux =
    if linux
    then 32 ∷ 112 ∷ 111 ∷ 105 ∷ 110 ∷ 116 ∷ 111 ∷ 112 ∷ 111 ∷ 105 ∷ 110 ∷ 116 ∷ 32 ∷ []
    else 32 ∷ []

-- " up"
abbrev up : List ℕ
up = 32 ∷ 117 ∷ 112 ∷ []

unfoldable pub command_line : Bool → List ℕ → List ℕ → List ℕ → List ℕ
command_line linux interface src_addr dst_addr =
    ifconfig
    ++ (c_str interface ++ (32 ∷ (c_str src_addr ++ (between linux ++ (c_str dst_addr ++ up)))))

-- `command_line` has 100 characters. The command that is run comes with the result.
unfoldable pub set_ip_configure :
    Bool → (List ℕ → Bool) → List ℕ → List ℕ → List ℕ → Outcome (Status × List ℕ)
set_ip_configure linux system interface src_addr dst_addr =
    let command = command_line linux interface src_addr dst_addr in
    if ltb (length command) 100 then done (if system command then ok else error, command) else fault
