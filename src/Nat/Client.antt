-- ===== src/Nat/Client.antt =====
-- The requests and the classification of src/stun/nat_test.c: test1, test2, test3, do_test and
-- get_nat_type.
use nose.Common.{
  ℕ, ◌+◌, ◌*◌, ◌/◌, ◌%◌, Bool, true, false, ◌==◌, if◌then◌else◌, Option, none, some, List, [], ◌∷◌,
  ◌++◌, length, take, drop, Outcome, done, ◌>>=◌, Status, ok, failed, error,
}
use nose.Common.Words.{htons, bytes16, bytes32}
use nose.Common.Strings.{memcpy}
use nose.Pmp.{Inet}
use nose.Pmp.Build.{NatType}
use nose.Nat.{External, stun_rsp_unpack, bind_req, change_req, flag_change_ip, flag_change_port}

-- What comes of a request: sendto or recvfrom fails, or these bytes arrive.
pub data Reply : Type 0 where
  send_fails recv_fails : Reply
  datagram : List ℕ → Reply

-- What one test finds in memory: the header from malloc, if it gives one, whether there is memory
-- for the attribute, and the buffer on the stack.
pub record Memory : Type 0 where
  pub header : Option (List ℕ)
  pub attribute : Bool
  pub buf : List ℕ

-- The tests run so far, the requests sent, the newest first, and the address and port found.
pub record Session : Type 0 where
  pub calls : ℕ
  pub sent : List (List ℕ)
  pub external : External

abbrev pub bufsiz : ℕ
bufsiz = 8192

-- Types of NAT.
abbrev pub udp_blocked : ℕ
udp_blocked = 0

abbrev pub sym_udp_firewall : ℕ
sym_udp_firewall = 1

abbrev pub open_internet : ℕ
open_internet = 2

abbrev pub full_cone : ℕ
full_cone = 3

abbrev pub restricted : ℕ
restricted = 4

abbrev pub port_restricted : ℕ
port_restricted = 5

abbrev pub sym_nat : ℕ
sym_nat = 6

abbrev pub unexpected_nat_type : ℕ
unexpected_nat_type = 7

-- `htonl`
abbrev pub htonl : ℕ → ℕ
htonl v = v % 256 * 16777216 + v / 256 % 256 * 65536 + v / 65536 % 256 * 256 + v / 16777216 % 256

-- Only 12 bytes of the transaction id are set.
abbrev pub request_header : List ℕ → List ℕ → ℕ → List ℕ
request_header blk trans_id message_length =
    bytes16 (htons bind_req) ++ bytes16 message_length ++ memcpy (drop 4 blk) trans_id 12

abbrev pub change_request : List ℕ → List ℕ → ℕ → List ℕ
change_request blk trans_id flags =
    request_header blk trans_id (htons (4 + 4))
    ++ bytes16 (htons change_req)
    ++ bytes16 (htons 4)
    ++ bytes32 (htonl flags)

-- Whether a test answered OK.
abbrev pub is_ok : Status → Bool
is_ok ok = true
is_ok failed = false
is_ok error = false

module _ (net : Inet) (server : List (List ℕ) → Reply) (memory : ℕ → Memory)
    (trans_id : List ℕ) where
  open net use {inet_addr}

  -- A test without memory for its request.
  abbrev pub give_up : Session → Outcome (Status × Session)
  give_up s = done (error, record s { calls = s.calls + 1 })

  -- sendto, recvfrom and the reading of the reply.
  unfoldable pub exchange : List ℕ → List ℕ → Session → Outcome (Status × Session)
  exchange request buf s =
      let sent : List (List ℕ) = request ∷ s.sent in
      let after : External → Session =
        λ ext. record { calls = s.calls + 1; sent = sent; external = ext } in
      elim (server sent) [
        | send_fails ↦ done (error, after s.external)
        | recv_fails ↦ done (error, after s.external)
        | datagram bytes ↦
            let received = take bufsiz bytes in
            stun_rsp_unpack net
              (memcpy (memcpy buf request (length request)) received (length received))
              (length received) s.external
            >>= λ (status, ext). done (status, after ext)
      ]

  unfoldable pub test1 : Session → Outcome (Status × Session)
  unfolding exchange
  test1 s = elim (memory s.calls).header [
    | none ↦ give_up s
    | some blk ↦ exchange (request_header blk trans_id 0) (memory s.calls).buf s
  ]

  unfoldable pub test2 : Session → Outcome (Status × Session)
  unfolding exchange
  test2 s = elim (memory s.calls).header [
    | none ↦ give_up s
    | some blk ↦
        if (memory s.calls).attribute
        then exchange (change_request blk trans_id (flag_change_ip + flag_change_port))
            (memory s.calls).buf s
        else give_up s
  ]

  -- No code calls this one.
  unfoldable pub test3 : Session → Outcome (Status × Session)
  unfolding exchange
  test3 s = elim (memory s.calls).header [
    | none ↦ give_up s
    | some blk ↦
        if (memory s.calls).attribute
        then exchange (change_request blk trans_id flag_change_port) (memory s.calls).buf s
        else give_up s
  ]

  -- The address that the server saw is the source address.
  abbrev pub same_ip : List ℕ → Session → Bool
  same_ip source_addr s = inet_addr source_addr == inet_addr s.external.0

  -- After test II failed behind a NAT.
  unfoldable pub classify_again : List ℕ → Session → Outcome (ℕ × Session)
  unfolding test1
  classify_again source_addr s = test1 s >>= λ (status, s). elim (is_ok status) [
    | false ↦ done (unexpected_nat_type, s)
    | true ↦ elim (same_ip source_addr s) [
      | false ↦ done (sym_nat, s)
      | true ↦
          test1 s >>= λ (status, s). done (if is_ok status then restricted else port_restricted, s)
    ]
  ]

  -- The type of NAT that the tests show, for the source address `source_addr`.
  unfoldable pub classify : List ℕ → Session → Outcome (ℕ × Session)
  unfolding test1 test2 classify_again
  classify source_addr s = test1 s >>= λ (status, s). elim (is_ok status) [
    | false ↦ done (udp_blocked, s)
    | true ↦ elim (same_ip source_addr s) [
      | true ↦ test2 s >>= λ (status, s).
          done (if is_ok status then open_internet else sym_udp_firewall, s)
      | false ↦ test2 s >>= λ (status, s). elim (is_ok status) [
        | true ↦ done (full_cone, s)
        | false ↦ classify_again source_addr s
      ]
    ]
  ]

  -- `sock` is what _create_nat_test_sock gives, `none` for a failure.
  unfoldable pub do_test :
      Option ℕ → List ℕ → NatType → Outcome (Option ℕ × NatType × List (List ℕ))
  unfolding classify
  do_test none source_addr type = done (none, type, [])
  do_test (some sockfd) source_addr type = do
    (nat_type, s) ←
        classify source_addr (record { calls = 0; sent = []; external = (type.ipv4, type.port) })
    done (
      some sockfd,
      record { nat_type = nat_type; port = s.external.1; ipv4 = s.external.0 },
      s.sent,
    )

-- "0.0.0.0", "stun.ekiga.net" and the ports that go with them.
abbrev default_src_ip : List ℕ
default_src_ip = 48 ∷ 46 ∷ 48 ∷ 46 ∷ 48 ∷ 46 ∷ 48 ∷ 0 ∷ []

abbrev stun_server : List ℕ
stun_server =
    115 ∷ 116 ∷ 117 ∷ 110 ∷ 46 ∷ 101 ∷ 107 ∷ 105 ∷ 103 ∷ 97 ∷ 46 ∷ 110 ∷ 101 ∷ 116 ∷ 0 ∷ []

abbrev default_src_port : ℕ
default_src_port = 54320

abbrev default_stun_port : ℕ
default_stun_port = 3478

abbrev or_default {ℓ} : {A : Type ℓ} → Option A → A → A
or_default none d = d
or_default (some a) d = a

abbrev port_or : ℕ → ℕ → ℕ
port_or port d = if port == 0 then d else port

-- The names and sockets of the host are arguments: `resolve` is gethostbyname1, `socket` is
-- _create_nat_test_sock for an address and a port, and `world` is the network as seen by a client
-- that sends to an address and a port. A port that is not positive is 0.
unfoldable pub get_nat_type :
    Inet
    → (List ℕ → Option (List ℕ))
    → (List ℕ → ℕ → Option ℕ)
    → (List ℕ → ℕ → List (List ℕ) → Reply)
    → (ℕ → Memory)
    → List ℕ
    → Option (List ℕ)
    → ℕ
    → Option (List ℕ)
    → ℕ
    → NatType
    → Outcome (Option ℕ × NatType × List (List ℕ))
unfolding do_test
get_nat_type net resolve socket world memory trans_id source_addr source_port server_addr
      server_port type =
    elim (resolve (or_default server_addr stun_server)) [
      | none ↦ done (none, type, [])
      | some address ↦
          do_test net (world address (port_or server_port default_stun_port)) memory trans_id
            (socket (or_default source_addr default_src_ip) (port_or source_port default_src_port))
            (or_default source_addr default_src_ip) type
    ]
