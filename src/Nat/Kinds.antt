-- ===== src/Nat/Kinds.antt =====
-- The classification of src/stun/nat_test.c behind a NAT that gives the client one address and port
-- for all its requests.
use nose.Common.{
  take_long, ℕ, ◌+◌, ◌≤◌, ◌<◌, ◌≡◌, refl, sym, ap, ◌∙◌, Bool, true, false, ◌==◌, ◌||◌,
  if◌then◌else◌, List, [], ◌∷◌, ◌++◌, length, take, drop, done, Status, ok, error, arith, inr,
  length-append, length-take, length-drop, take-length, some,
}
use nose.Common.Words.{htons, u16_at, u32_at, IsU16, IsU32, htons-htons, htons-lt, bytes16, bytes32}
use nose.Common.Strings.{c_str, memcpy}
use nose.Pmp.{Inet}
use nose.Nat.{External, stun_rsp_unpack, mapped_addr, change_req, flag_change_ip, flag_change_port}
use nose.Nat.Client.{
  Reply, recv_fails, datagram, Memory, Session, exchange, test1, test2, htonl, request_header,
  change_request, bufsiz,
}
use nose.Nat.Messages.{Attr, IsAttr, attrs_bytes, message}
use nose.Nat.Reading.{stun_rsp_unpack-message, last_mapped, IsFound}
use mathlib.Core.Path.{subst}

-- The value of a mapped address: family, port and number, as they stand on the wire.
abbrev pub address_value : ℕ → ℕ → List ℕ
address_value number port = 0 ∷ 1 ∷ bytes16 (htons port) ++ bytes32 number

abbrev pub binding_response : List ℕ → ℕ → ℕ → List ℕ
binding_response id number port = message 257 id ((mapped_addr, address_value number port) ∷ [])

-- The STUN server behind a NAT: a request without attributes is answered with the mapped address; a
-- request to answer from elsewhere is answered if the NAT lets that answer pass.
abbrev pub nat_server : List ℕ → ℕ → ℕ → Bool → List (List ℕ) → Reply
nat_server id number port passes [] = recv_fails
nat_server id number port passes (request ∷ earlier) =
    if length request == 20 || passes
    then datagram (binding_response id number port)
    else recv_fails

-- Memory for every test.
pub record IsPlenty (memory : ℕ → Memory) : Type 0 where
  pub header : (n : ℕ) → (blk : List ℕ) × ((memory n).header ≡ some blk) × (length blk ≡ 20)
  pub attribute : (n : ℕ) → (memory n).attribute ≡ true

length-request_header :
    (blk trans_id : List ℕ) (n : ℕ)
    → length blk ≡ 20
    → length trans_id ≡ 16
    → length (request_header blk trans_id n) ≡ 20
length-request_header blk trans_id n h k = omega (
  arith,
  length-append (take 12 trans_id) (drop 12 (drop 4 blk)),
  length-take 12 trans_id,
  length-drop 12 (drop 4 blk),
  length-drop 4 blk,
)

length-change_request :
    (blk trans_id : List ℕ) (flags : ℕ)
    → length blk ≡ 20
    → length trans_id ≡ 16
    → length (change_request blk trans_id flags) ≡ 28
length-change_request blk trans_id flags h k =
    let head = request_header blk trans_id (htons (4 + 4)) in
    omega (
      arith,
      length-request_header blk trans_id (htons (4 + 4)) h k,
      length-append head (bytes16 (htons change_req)),
      length-append (head ++ bytes16 (htons change_req)) (bytes16 (htons 4)),
      length-append (head ++ bytes16 (htons change_req) ++ bytes16 (htons 4))
          (bytes32 (htonl flags)),
    )

address_value-IsAttr : (number port : ℕ) → IsAttr (mapped_addr, address_value number port)
address_value-IsAttr number port = record {
  type_fits = omega arith;
  length_fits = omega arith;
  whole = inr (omega arith);
}

last_mapped-response :
    (number port : ℕ)
    → IsU32 number
    → IsU16 port
    → last_mapped ((mapped_addr, address_value number port) ∷ []) ≡ some (number, port)
unfolding last_mapped
last_mapped-response number port h k =
    let e : u32_at (address_value number port) 4 ≡ number = omega arith in
    let w : u16_at (address_value number port) 2 ≡ htons port = omega (arith, htons-lt port) in
    rw (e, w, htons-htons port k)

-- A reply that fits the buffer is read as it came.
exchange-datagram :
    (net : Inet) (memory : ℕ → Memory) (trans_id : List ℕ) (server : List (List ℕ) → Reply)
    (request buf msg : List ℕ) (s : Session) (read : Status × External)
    → server (request ∷ s.sent) ≡ datagram msg
    → length msg ≤ bufsiz
    → stun_rsp_unpack net
        (msg ++ drop (length msg) (memcpy buf request (length request)))
        (length msg)
        s.external
      ≡ done read
    → exchange net server memory trans_id request buf s
      ≡ done (read.0, record { calls = s.calls + 1; sent = request ∷ s.sent; external = read.1 })
unfolding exchange
exchange-datagram net memory trans_id server request buf msg s read h l e =
    rw (h, take_long bufsiz msg l, take-length msg, e, exchange) refl

-- What the client knows of its address after a test that was answered.
pub record Knows (net : Inet) (number port : ℕ) (s : Session) : Type 0 where
  pub address : net.inet_addr s.external.0 ≡ number
  pub at_port : s.external.1 ≡ port
  pub room : 15 < length s.external.0

module _ (net : Inet) (memory : ℕ → Memory) (trans_id id : List ℕ) (number port : ℕ) (passes : Bool)
    (plenty : IsPlenty memory) (trans_long : length trans_id ≡ 16) (id_long : length id ≡ 16)
    (number_fits : IsU32 number) (port_fits : IsU16 port) where
  open net use {inet_addr, inet_ntoa, addr_text, addr-ntoa}

  abbrev attrs : List Attr
  attrs = (mapped_addr, address_value number port) ∷ []

  attrs_twelve : length (attrs_bytes attrs) ≡ 12
  unfolding attrs_bytes
  attrs_twelve = refl

  length-response : length (binding_response id number port) ≡ 32
  length-response = omega (arith, attrs_twelve, length-append id (attrs_bytes attrs))

  -- The reader on the server's response.
  response-read :
      (rest : List ℕ) (ext : External)
      → 15 < length ext.0
      → (ext' : External) × (stun_rsp_unpack net (binding_response id number port ++ rest) 32 ext
          ≡ done (ok, ext'))
        × (c_str ext'.0 ≡ inet_ntoa number)
        × (ext'.1 ≡ port)
        × (15 < length ext'.0)
  response-read rest ext room =
      let (ext', e, found, room') =
        stun_rsp_unpack-message net 257 id attrs rest 32 ext id_long
          (address_value-IsAttr number port, tt) (omega (arith, attrs_twelve))
          (omega (arith, length-response)) room in
      let known =
        subst (λ o. IsFound net ext o ext') (last_mapped-response number port number_fits port_fits)
          found in
      (ext', e, known.0, known.1, room')

  -- A request that is answered.
  exchange-answered :
      (server : List (List ℕ) → Reply) (request buf : List ℕ) (s : Session)
      → server (request ∷ s.sent) ≡ datagram (binding_response id number port)
      → 15 < length s.external.0
      → (s' : Session) × (exchange net server memory trans_id request buf s ≡ done (ok, s'))
        × Knows net number port s'
  exchange-answered server request buf s h room =
      let msg = binding_response id number port in
      let earlier = memcpy buf request (length request) in
      let (ext, e, text, at, room') = response-read (drop 32 earlier) s.external room in
      let e' =
        subst (λ n. stun_rsp_unpack net (msg ++ drop n earlier) n s.external ≡ done (ok, ext))
          (sym length-response) e in
      (
        record { calls = s.calls + 1; sent = request ∷ s.sent; external = ext },
        exchange-datagram net memory trans_id server request buf msg s (ok, ext) h
            (omega (arith, length-response)) e',
        record {
          address = addr_text ext.0 ∙ ap inet_addr text ∙ addr-ntoa number number_fits;
          at_port = at;
          room = room';
        },
      )

  exchange-stopped :
      (server : List (List ℕ) → Reply) (request buf : List ℕ) (s : Session)
      → server (request ∷ s.sent) ≡ recv_fails
      → exchange net server memory trans_id request buf s
        ≡ done
            (error, record { calls = s.calls + 1; sent = request ∷ s.sent; external = s.external })
  unfolding exchange
  exchange-stopped server request buf s h = rw (h, exchange) refl

  answer :
      (request : List ℕ) (s : Session)
      → length request ≡ 20
      → nat_server id number port passes (request ∷ s.sent)
        ≡ datagram (binding_response id number port)
  answer request s h = rw h refl

  answer_passed :
      (request : List ℕ) (s : Session)
      → passes ≡ true
      → nat_server id number port passes (request ∷ s.sent)
        ≡ datagram (binding_response id number port)
  answer_passed request s h = ground (arith, h)

  silence :
      (request : List ℕ) (s : Session)
      → length request ≡ 28
      → passes ≡ false
      → nat_server id number port passes (request ∷ s.sent) ≡ recv_fails
  silence request s l h = rw (l, h) refl

  pub test1-answered :
      (s : Session)
      → 15 < length s.external.0
      → (s' : Session) × (test1 net (nat_server id number port passes) memory trans_id s
          ≡ done (ok, s'))
        × Knows net number port s'
  unfolding test1
  test1-answered s room =
      let (blk, e, l) = plenty.header s.calls in
      let request = request_header blk trans_id 0 in
      let (s', r, k) =
        exchange-answered (nat_server id number port passes) request (memory s.calls).buf s
          (answer request s (length-request_header blk trans_id 0 l trans_long)) room in
      (s', rw (e, test1) r, k)

  pub test2-passed :
      (s : Session)
      → passes ≡ true
      → 15 < length s.external.0
      → (s' : Session) × (test2 net (nat_server id number port passes) memory trans_id s
          ≡ done (ok, s'))
        × Knows net number port s'
  unfolding test2
  test2-passed s p room =
      let (blk, e, l) = plenty.header s.calls in
      let request = change_request blk trans_id (flag_change_ip + flag_change_port) in
      let (s', r, k) =
        exchange-answered (nat_server id number port passes) request (memory s.calls).buf s
          (answer_passed request s p) room in
      (s', rw (e, plenty.attribute s.calls, test2) r, k)

  pub test2-stopped :
      (s : Session)
      → passes ≡ false
      → (s' : Session) × (test2 net (nat_server id number port passes) memory trans_id s
          ≡ done (error, s'))
        × (s'.external ≡ s.external)
  unfolding test2
  test2-stopped s p =
      let (blk, e, l) = plenty.header s.calls in
      let request = change_request blk trans_id (flag_change_ip + flag_change_port) in
      let long =
        length-change_request blk trans_id (flag_change_ip + flag_change_port) l trans_long in
      (
        record { calls = s.calls + 1; sent = request ∷ s.sent; external = s.external },
        rw (e, plenty.attribute s.calls, test2)
            (exchange-stopped (nat_server id number port passes) request (memory s.calls).buf s
              (silence request s long p)),
        refl,
      )
