-- ===== src/Nat.antt =====
-- src/stun/nat_test.h, src/stun/nat_test.c and src/stun/nat_types.h: the STUN client that finds out
-- the type of the NAT. The network is a function from the requests sent so far, the newest first,
-- to what comes of the newest one. Source addresses of replies, which the client stores and does
-- not look at, and messages on the terminal are left out.
pub mod Client
pub mod Attributes
pub mod Messages
pub mod Reading
pub mod Kinds
pub mod Classify
mod Tests
use nose.Common.{
  ℕ, zero, suc, ◌+◌, Bool, true, false, ◌||◌, ◌==◌, ltb, leb, if◌then◌else◌, Option, none, some,
  List, [], ◌∷◌, ◌++◌, length, take, drop, Outcome, done, blocked, fault, ◌>>=◌, ◌>>◌, Status, ok,
  error,
}
use nose.Common.Words.{htons, bytes16, u16_at, u32_at}
use nose.Common.Strings.{c_str, memcpy}
use nose.Pmp.{Inet}
use nose.Pmp.Parse.{put_text}

-- Message and attribute types, flags and lengths of nat_test.h.
abbrev pub bind_req : ℕ
bind_req = 1

abbrev pub mapped_addr : ℕ
mapped_addr = 1

abbrev pub change_req : ℕ
change_req = 3

abbrev pub src_addr : ℕ
src_addr = 4

abbrev pub change_addr : ℕ
change_addr = 5

abbrev pub xor_mapped_addr : ℕ
xor_mapped_addr = 32800

abbrev pub server_name : ℕ
server_name = 32802

abbrev pub flag_change_ip : ℕ
flag_change_ip = 4

abbrev pub flag_change_port : ℕ
flag_change_port = 2

-- `sizeof(struct _STUN_message_header)`
abbrev pub header_len : ℕ
header_len = 20

-- Reads from the buffer of words, and of a text of `n` bytes at most.
unfoldable pub load16 : List ℕ → ℕ → Outcome ℕ
load16 buf i = if leb (i + 2) (length buf) then done (u16_at buf i) else fault

unfoldable pub load32 : List ℕ → ℕ → Outcome ℕ
load32 buf i = if leb (i + 4) (length buf) then done (u32_at buf i) else fault

unfoldable pub load_text : List ℕ → ℕ → ℕ → Outcome (Unit {0})
load_text buf i n =
    if leb (i + n) (length buf) || ltb (i + length (c_str (drop i buf))) (length buf)
    then done tt
    else fault

-- What the reader hands out: `external_ip` and `exteral_port`.
abbrev pub External : Type 0
External = List ℕ × ℕ

module _ (net : Inet) where
  open net use {inet_addr, inet_ntoa}

  -- The switch over an attribute's type, for a value of `len` bytes at `index`.
  unfoldable pub attribute : List ℕ → ℕ → ℕ → ℕ → External → Outcome External
  unfolding load16 load32 load_text
  attribute buf type len index ext =
      if type == mapped_addr
      then (do
        ip ← load32 buf (index + 4)
        port ← load16 buf (index + 2)
        done (put_text ext.0 (inet_ntoa ip), htons port))
      else if type == src_addr || type == change_addr || type == xor_mapped_addr
      then (load32 buf (index + 4) >>= λ ip. done ext)
      else if type == server_name
      then (load_text buf index len >> done ext)
      else done ext

  -- One round of the loop: the index behind the attribute, and what it changed.
  unfoldable pub attribute_at : List ℕ → ℕ → External → Outcome (ℕ × External)
  unfolding attribute load16
  attribute_at buf index ext = do
    type ← load16 buf index
    len ← load16 buf (index + 2)
    ext ← attribute buf (htons type) (htons len) (index + 4) ext
    done (index + 4 + htons len, ext)

  -- The loop `while (index < stop)`, which is still running when the fuel is used up.
  unfoldable pub unpack_loop : ℕ → List ℕ → ℕ → ℕ → External → Outcome External
  unfolding attribute_at
  unpack_loop zero buf stop index ext = if ltb index stop then blocked else done ext
  unpack_loop (suc fuel) buf stop index ext = elim (ltb index stop) [
    | false ↦ done ext
    | true ↦ elim (attribute_at buf index ext) [
      | done (index', ext') ↦ unpack_loop fuel buf stop index' ext'
      | blocked ↦ blocked
      | fault ↦ fault
    ]
  ]

  unfoldable pub stun_rsp_unpack : List ℕ → ℕ → External → Outcome (Status × External)
  unfolding unpack_loop load16
  stun_rsp_unpack buf size ext = if ltb size header_len then done (error, ext) else do
    message_length ← load16 buf 2
    if ltb size (header_len + htons message_length) then done (error, ext) else do
      let stop = header_len + htons message_length
      ext ← unpack_loop stop buf stop header_len ext
      done (ok, ext)
