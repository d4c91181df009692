-- ===== src/Peer/Payload.antt =====
-- The way of a packet through src/peer.c: from the tun device of one peer to that of the other.
use nose.Common.{
  ℕ, ◌+◌, ◌-◌, ◌*◌, ◌/◌, ◌%◌, ◌^◌, ◌≤◌, ◌<◌, ◌≡◌, refl, sym, ap, ◌∙◌, true, false, ◌==◌, none, some,
  List, [], ◌∷◌, ◌++◌, length, take, drop, done, arith, le→ltb, lt→ltb, ==_refl, take_long,
  take-append_le, take-length, take-append_length, Option-cases, inl, inr,
}
use nose.Common.Strings.{memcpy}
use nose.Common.Words.{htons, bytes16}
use nose.Crypt.{AesCbc, output_len, encrypt_by_aes_256, decrypt_by_aes_256}
use nose.Crypt.RoundTrip.{decrypt_by_aes_256-encrypt, output_len_bounds}
use nose.Pcp.{payload_pkt}
use nose.Peer.{
  Zlib, Peer, Events, Env, write_tun, deliver, payload_received, recved_pkt_unpack, udp_recv_cb,
  cleared, buf_len, tun_round, packet, ended,
}
use mathlib.Core.Path.{subst}

-- The bytes of a payload packet.
abbrev pub payload_bytes : List ℕ → ℕ → List ℕ
payload_bytes z n = 0 ∷ 5 ∷ (bytes16 (htons (length z + 2)) ++ (bytes16 (htons n) ++ z))

pub u16_read : (v : ℕ) → v < 65536 → htons (htons v % 256 + 256 * (htons v / 256 % 256)) ≡ v
u16_read v h = unfold htons in omega arith

-- The reading of a payload packet, up to the call of uncompress.
payload_received-bytes :
    (aes : AesCbc) (zlib : Zlib) (plaintext z out text rest : List ℕ) (n : ℕ) (env : Env)
    (pr : Peer) (ev : Events)
    → length z + 2 < 65536
    → n < 65536
    → zlib.uncompress (length z * 4) z ≡ some out
    → length out ≤ buf_len
    → decrypt_by_aes_256 aes out (length out) pr.key ≡ some text
    → payload_received aes zlib plaintext env (payload_bytes z n ++ rest) (6 + length z) pr ev
      ≡ done (deliver env (take n (memcpy plaintext text (length text))) pr ev)
unfolding payload_received
payload_received-bytes aes zlib plaintext z out text rest n env pr ev hz hn u b d =
    let back : length z + 2 - 2 ≡ length z = omega arith in
    rw (
      u16_read (length z + 2) hz,
      le→ltb (6 + length z) (length z + 2 + 4) (omega arith),
      le→ltb (length z + 2) 2 (omega arith),
      back,
      take-append_length z rest (length z) refl,
      u,
      le→ltb buf_len (length out) b,
      d,
      u16_read n hn,
      payload_received,
    )

recved_pkt_unpack-payload :
    (aes : AesCbc) (zlib : Zlib) (plaintext z rest : List ℕ) (n : ℕ) (env : Env) (pr : Peer)
    (ev : Events)
    → recved_pkt_unpack aes zlib plaintext env (payload_bytes z n ++ rest) (6 + length z) pr ev
      ≡ payload_received aes zlib plaintext env (payload_bytes z n ++ rest) (6 + length z) pr ev
unfolding recved_pkt_unpack
recved_pkt_unpack-payload aes zlib plaintext z rest n env pr ev =
    rw (le→ltb (6 + length z) 4 (omega arith), recved_pkt_unpack)

-- A datagram from the other peer that fits the buffer.
pub udp_recv_cb-unpack :
    (aes : AesCbc) (zlib : Zlib) (plaintext pkt : List ℕ) (env : Env) (pr : Peer) (ev : Events)
    → 0 < length pkt
    → length pkt ≤ buf_len
    → udp_recv_cb aes zlib plaintext env pr.remote_peer_addr pkt pr ev
      ≡ recved_pkt_unpack aes zlib plaintext env
          (pkt ++ drop (length pkt) cleared)
          (length pkt)
          pr
          ev
unfolding udp_recv_cb
udp_recv_cb-unpack aes zlib plaintext pkt env pr ev h l = rw (
  take_long buf_len pkt l,
  lt→ltb 0 (length pkt) h,
  ==_refl pr.remote_peer_addr.sin_addr,
  ==_refl pr.remote_peer_addr.sin_port,
  take-length pkt,
  udp_recv_cb,
)

pub tun_round-ended :
    (aes : AesCbc) (zlib : Zlib) (stack key text c : List ℕ)
    → 0 < length text
    → encrypt_by_aes_256 aes stack text (length text) key ≡ some c
    → zlib.compress (length c * 4) c ≡ none
    → tun_round aes zlib true stack key text ≡ ended
unfolding tun_round
tun_round-ended aes zlib stack key text c h e z =
    let some_text : (length text == 0) ≡ false = ground arith in rw (some_text, e, z, tun_round)

pub tun_round-packet :
    (aes : AesCbc) (zlib : Zlib) (stack key text c z : List ℕ)
    → 0 < length text
    → length text < 65536
    → length z + 2 < 65536
    → encrypt_by_aes_256 aes stack text (length text) key ≡ some c
    → zlib.compress (length c * 4) c ≡ some z
    → tun_round aes zlib true stack key text ≡ packet (payload_bytes z (length text))
unfolding tun_round payload_pkt
tun_round-packet aes zlib stack key text c z h n l e r =
    let some_text : (length text == 0) ≡ false = ground arith in
    let size : (length z + 2) % 2 ^ 16 ≡ length z + 2 = omega arith in
    let short : length text % 2 ^ 16 ≡ length text = omega arith in
    rw (some_text, e, r, size, short, take-length z, tun_round)

-- What a payload packet leads to, in terms of what its sender encrypted.
payload-delivered :
    (aes : AesCbc) (zlib : Zlib) (plaintext text c back z : List ℕ) (env : Env) (pr : Peer)
    (ev : Events)
    → length z + 2 < 65536
    → length text < 65536
    → zlib.compress (length c * 4) c ≡ some z
    → length c ≤ length z * 4
    → length c ≤ buf_len
    → decrypt_by_aes_256 aes c (length c) pr.key ≡ some back
    → length text ≤ length back
    → take (length text) back ≡ text
    → env.utun_write ≡ true
    → udp_recv_cb aes zlib plaintext env pr.remote_peer_addr (payload_bytes z (length text)) pr ev
      ≡ done (pr, ev, write_tun text ∷ [])
unfolding deliver
payload-delivered aes zlib plaintext text c back z env pr ev hz hn r q l d n t w =
    let pkt = payload_bytes z (length text) in
    let rest = drop (length pkt) cleared in
    let text_back : take (length text) (memcpy plaintext back (length back)) ≡ text =
      rw (take-length back)
        (take-append_le (length text) back (drop (length back) plaintext) n ∙ t) in
    let six : length pkt ≡ 6 + length z = omega arith in
    udp_recv_cb-unpack aes zlib plaintext pkt env pr ev (omega arith) (omega arith)
    ∙ ap (λ k. recved_pkt_unpack aes zlib plaintext env (pkt ++ rest) k pr ev) six
    ∙ recved_pkt_unpack-payload aes zlib plaintext z rest (length text) env pr ev
    ∙ payload_received-bytes aes zlib plaintext z c back rest (length text) env pr ev hz hn
        (zlib.uncompress-compress (length c * 4) (length z * 4) c z r q) l d
    ∙ (rw (text_back, w) refl)

pub payload_length : (z : List ℕ) (n : ℕ) → length (payload_bytes z n) ≡ 6 + length z
payload_length z n = omega arith

pub ended_sends : {a : List ℕ} → ended ≡ packet a → ⊥
ended_sends e = cc

pub packet_inj : {a b : List ℕ} → packet a ≡ packet b → a ≡ b
packet_inj e = cc

-- A packet of 1 to 1518 bytes that one peer reads from its tun device and makes a packet of, with
-- memory for it and whatever on its stack, comes out of the other peer's tun device as it was, when
-- the other peer has the same key, knows the sender as its remote peer and can write to its device:
-- nothing else happens there. The compressed text has to be at least a quarter of the encrypted one,
-- which is the room that the reader leaves for it.
pub udp_recv_cb-tun_round :
    (aes : AesCbc) (zlib : Zlib) (stack key text pkt plaintext : List ℕ) (env : Env) (pr : Peer)
    (ev : Events)
    → 0 < length text
    → length text ≤ 1518
    → output_len (length text) ≤ length stack
    → tun_round aes zlib true stack key text ≡ packet pkt
    → output_len (length text) ≤ (length pkt - 6) * 4
    → pr.key ≡ key
    → env.utun_write ≡ true
    → udp_recv_cb aes zlib plaintext env pr.remote_peer_addr pkt pr ev
      ≡ done (pr, ev, write_tun text ∷ [])
udp_recv_cb-tun_round aes zlib stack key text pkt plaintext env pr ev h n s sent ratio same w =
    let (c, back, e, lc, d, lb, t) = decrypt_by_aes_256-encrypt aes stack text key s in
    elim (Option-cases (zlib.compress (length c * 4) c)) [
      | inl none_left ↦
          absurd
            (ended_sends (sym (tun_round-ended aes zlib stack key text c h e none_left) ∙ sent))
      | inr (z, r) ↦
          let small = zlib.compress-le (length c * 4) c z r in
          let bytes : pkt ≡ payload_bytes z (length text) = packet_inj (
            sym sent
            ∙ tun_round-packet aes zlib stack key text c z h (omega arith)
                (omega (arith, output_len_bounds (length text))) e r) in
          let long : length pkt ≡ 6 + length z = ap length bytes ∙ payload_length z (length text) in
          subst
            (λ b.
              udp_recv_cb aes zlib plaintext env pr.remote_peer_addr b pr ev
              ≡ done (pr, ev, write_tun text ∷ []))
            (sym bytes)
            (payload-delivered aes zlib plaintext text c back z env pr ev
              (omega (arith, output_len_bounds (length text))) (omega arith) r (omega arith)
              (omega (arith, output_len_bounds (length text)))
              (subst (λ k. decrypt_by_aes_256 aes c (length c) k ≡ some back) (sym same) d)
              (omega (arith, output_len_bounds (length text))) t w)
    ]
