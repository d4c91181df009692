-- ===== src/Pcp.antt =====
-- src/pcp.h and src/pcp.c: the packets that two peers send each other. All fields of the structure
-- are written, so that of malloc only matters whether it gives memory: `mem` says so. `none` is
-- ERROR; otherwise the bytes that are written to the front of the buffer, whose number is the
-- result.
use nose.Common.{ℕ, ◌+◌, ◌%◌, ◌^◌, Bool, if◌then◌else◌, Option, none, some, List, ◌∷◌, ◌++◌, take}
use nose.Common.Words.{htons, bytes16}

-- Values of `flags`.
abbrev pub f_hello_ack : ℕ
f_hello_ack = 1

abbrev pub f_hello_syn : ℕ
f_hello_syn = 2

abbrev pub f_hb_ack : ℕ
f_hb_ack = 3

abbrev pub f_hb_syn : ℕ
f_hb_syn = 4

abbrev pub f_payload : ℕ
f_payload = 5

pub record Pcp : Type 0 where
  pub ver : ℕ
  pub flags : ℕ
  pub len : ℕ

abbrev pub pcp_bytes : Pcp → List ℕ
pcp_bytes p = p.ver ∷ p.flags ∷ bytes16 p.len

-- `sizeof(struct PCP)`
abbrev pub pcp_len : ℕ
pcp_len = 4

-- A packet that is a header only.
abbrev signal_pkt : Bool → ℕ → Option (List ℕ)
signal_pkt mem flags =
    if mem then some (pcp_bytes (record { ver = 0; flags = flags; len = 0 })) else none

unfoldable pub hello_syn : Bool → Option (List ℕ)
hello_syn mem = signal_pkt mem f_hello_syn

unfoldable pub hello_ack : Bool → Option (List ℕ)
hello_ack mem = signal_pkt mem f_hello_ack

unfoldable pub hb_syn : Bool → Option (List ℕ)
hb_syn mem = signal_pkt mem f_hb_syn

unfoldable pub hb_ack : Bool → Option (List ℕ)
hb_ack mem = signal_pkt mem f_hb_ack

-- `text_size` is cut to the 16 bits of its type by the call, and `all_size + 2` by the field.
unfoldable pub payload_pkt : Bool → List ℕ → ℕ → ℕ → Option (List ℕ)
payload_pkt mem buf all_size text_size =
    if mem
    then some (
        pcp_bytes (record { ver = 0; flags = f_payload; len = htons ((all_size + 2) % 2 ^ 16) })
        ++ (bytes16 (htons (text_size % 2 ^ 16)) ++ take all_size buf))
    else none
