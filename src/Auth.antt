-- ===== src/Auth.antt =====
-- src/auth.h, src/auth.c, src/config.h: the packets by which the sides of a VPN connection prove
-- that they have the same key; src/vpn.h and src/vpn.c: the driver of the handshake, which goes no
-- further than its first packet. `sha256` is the digest of mbedtls, and `peek` the memory that
-- combine_ser_chall_id reads.
pub mod Request
mod Tests
use nose.Common.{
  ℕ, zero, suc, ◌+◌, ◌*◌, ◌/◌, ◌%◌, ◌^◌, Bool, true, false, ltb, ◌==◌, ◌&&◌, if◌then◌else◌, Option,
  none, some, List, [], ◌∷◌, ◌++◌, length, take, drop, replicate, Outcome, done, blocked, fault,
  ◌>>=◌, Status, ok, failed, error,
}
use nose.Common.Strings.{memcpy, strncpy, same_str}
use nose.Common.Words.{htons, bytes16, u8_at, u16_at}
use nose.Crypt.{VpnProtoHeader, vpn_proto_header_bytes, auth, auth_req, auth_rsp}
use nose.Utils.{combine_ser_chall_id, gen_sha256}
use nose.Dfa.{
  Dfa, init_dfa, dfa_state_change_listener, get_current_dfa_state, state_matrix, state_m, s_start,
}

-- AUTH_REQ_LEN, and AUTH_RSP_LEN, which takes the size of a request too.
abbrev pub auth_req_len : ℕ
auth_req_len = 76

abbrev pub auth_rsp_len : ℕ
auth_rsp_len = 76

-- The four bytes of a number exchanged.
unfoldable pub htonl : ℕ → ℕ
htonl v = v % 256 * 2 ^ 24 + (v / 256 % 256 * 2 ^ 16 + (v / 65536 % 256 * 256 + v / 2 ^ 24 % 256))

-- The id is cut to the 16 bits of its field.
abbrev pub auth_header : ℕ → ℕ → List ℕ
auth_header code id = vpn_proto_header_bytes (record {
  type = auth;
  code = code;
  id = htonl id % 2 ^ 16;
  length_field = htons auth_req_len;
  reversed = 0;
})

module _ (peek : ℕ → Outcome (List ℕ)) (sha256 : List ℕ → List ℕ) where
  -- The hash over the key, the challenge and the id, as hexadecimal digits.
  unfoldable pub auth_hash : List ℕ → ℕ → ℕ → Outcome (List ℕ)
  auth_hash s_key challenge id =
      combine_ser_chall_id peek s_key challenge id (replicate 256 0) >>= λ (ser_chall_id, ret).
      done (gen_sha256 sha256 ser_chall_id ret)

  -- The result is `none` for ERROR. Of the packet only the header goes to the buffer: the structure
  -- with the hash is filled in and freed. `mem` and `mem'` are the two calls of malloc.
  unfoldable pub auth_request_pkt :
      Bool → Bool → ℕ → ℕ → List ℕ → List ℕ → Outcome (Option ℕ × List ℕ)
  auth_request_pkt mem mem' id challenge s_key buffer =
      let sent = memcpy buffer (auth_header auth_req id) 8 in
      if mem
      then (if mem'
          then (auth_hash s_key challenge id >>= λ hash. done (some auth_req_len, sent))
          else done (none, sent))
      else done (none, buffer)

  -- `key` is the key of the configuration, which is a copy: the id stored in it is lost.
  unfoldable pub auth_request_validate : List ℕ → ℕ → List ℕ → Outcome Status
  auth_request_validate buffer size key =
      if ltb size auth_req_len
      then done failed
      else if u8_at buffer 0 == auth && u8_at buffer 1 == auth_req
      then (auth_hash key (u16_at buffer 8) (u16_at buffer 2) >>= λ hash.
          if same_str hash (drop 12 buffer) then done ok else done error)
      else done failed

unfoldable pub auth_respose_pkt : Bool → Bool → ℕ → ℕ → ℕ → List ℕ → Option ℕ × List ℕ
auth_respose_pkt mem mem' id challenge message_code buffer =
    let header = auth_header auth_rsp id in
    let pkt = bytes16 (htons (challenge % 2 ^ 16)) ++ (message_code % 256 ∷ 0 ∷ []) in
    if mem
    then (if mem'
        then (some auth_rsp_len, memcpy buffer (header ++ pkt) 12)
        else (none, memcpy buffer header 8))
    else (none, buffer)

pub record Vpn : Type 0 where
  pub pre_key : List ℕ
  pub v_dfa : Dfa
  pub state_change_cb : Bool
  pub id : ℕ
  pub challenge : ℕ

-- `block` is what malloc gives for the automaton's matrix, `rand` the number that rand gives.
unfoldable pub init_vpn : Vpn → List ℕ → Bool → List ℕ → ℕ → Status × Vpn
init_vpn handler pre_key state_change_cb block rand =
    let (status, v_dfa) = init_dfa handler.v_dfa state_matrix state_m s_start block in
    (
      ok,
      record handler {
        pre_key = strncpy handler.pre_key pre_key 32;
        v_dfa = dfa_state_change_listener v_dfa true;
        state_change_cb = if state_change_cb then true else handler.state_change_cb;
        id = rand % 32768;
      },
    )

-- In the first state a request is built in a buffer of the function's own, `buf`, and not sent.
unfoldable pub vpn_processing :
    (ℕ → Outcome (List ℕ))
    → (List ℕ → List ℕ)
    → Bool
    → Bool
    → Vpn
    → List ℕ
    → ℕ
    → Outcome (Status × Vpn)
vpn_processing peek sha256 mem mem' handler buf rand =
    let handler' : Vpn = record handler { challenge = rand % 32768 } in
    if get_current_dfa_state handler.v_dfa == s_start
    then (auth_request_pkt peek sha256 mem mem' handler'.id handler'.challenge handler'.pre_key buf
        >>= λ (len, buf'). elim len [
          | none ↦ done (error, handler')
          | some n ↦ done (ok, handler')
        ])
    else done (ok, handler)
