-- ===== src/Peer/Limits.antt =====
-- What src/peer.c sends: the size of its packets.
use nose.Common.{
  ℕ, ◌+◌, ◌*◌, ◌≤◌, ◌<◌, ◌≡◌, sym, ap, ◌∙◌, true, List, length, arith, Option-cases, inl, inr,
}
use nose.Common.Words.{htons, u16_at}
use nose.Crypt.{AesCbc, output_len}
use nose.Crypt.RoundTrip.{decrypt_by_aes_256-encrypt, output_len_bounds}
use nose.Peer.{Zlib, tun_round, packet, buf_len}
use nose.Peer.Payload.{
  tun_round-ended, tun_round-packet, ended_sends, packet_inj, payload_bytes, payload_length,
  u16_read,
}

-- A packet of up to 1518 bytes from the tun device, with any contents, memory for it, and whatever on
-- the stack, is sent as at most 6086 bytes, which the length field and a receiver's buffer hold:
-- the field says how many bytes follow the first four.
pub tun_round-bounds :
    (aes : AesCbc) (zlib : Zlib) (stack key text pkt : List ℕ)
    → 0 < length text
    → length text ≤ 1518
    → output_len (length text) ≤ length stack
    → tun_round aes zlib true stack key text ≡ packet pkt
    → (6 ≤ length pkt)
      × (length pkt ≤ 6 + 4 * output_len (length text))
      × (length pkt ≤ 6086)
      × (length pkt ≤ buf_len)
      × (htons (u16_at pkt 2) + 4 ≡ length pkt)
      × (htons (u16_at pkt 4) ≡ length text)
tun_round-bounds aes zlib stack key text pkt h n s sent =
    let (c, back, e, lc, d, lb, t) = decrypt_by_aes_256-encrypt aes stack text key s in
    let bounds = output_len_bounds (length text) in
    elim (Option-cases (zlib.compress (length c * 4) c)) [
      | inl none_left ↦
          absurd
            (ended_sends (sym (tun_round-ended aes zlib stack key text c h e none_left) ∙ sent))
      | inr (z, r) ↦
          let small = zlib.compress-le (length c * 4) c z r in
          let bytes : pkt ≡ payload_bytes z (length text) = packet_inj (
            sym sent
            ∙ tun_round-packet aes zlib stack key text c z h (omega arith) (omega (arith, bounds)) e
                r) in
          let long : length pkt ≡ 6 + length z = ap length bytes ∙ payload_length z (length text) in
          let field : htons (u16_at pkt 2) + 4 ≡ 6 + length z =
            rw bytes (ap (◌+ 4) (u16_read (length z + 2) (omega (arith, bounds))) ∙ omega arith) in
          let inner : htons (u16_at pkt 4) ≡ length text =
            rw bytes (u16_read (length text) (omega arith)) in
          (
            omega (arith, long),
            omega (arith, long),
            omega (arith, long, bounds),
            omega (arith, long, bounds),
            field ∙ sym long,
            inner,
          )
    ]
