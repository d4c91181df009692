-- ===== src/Peer/Handshake.antt =====
-- Two peers of src/peer.c opening the way to each other.
use nose.Common.{
  ℕ, ◌+◌, ◌<◌, ◌≡◌, refl, ◌∙◌, true, false, ◌==◌, some, List, [], ◌∷◌, drop, done, arith,
}
use nose.Crypt.{AesCbc}
use nose.Pcp.{hello_syn, hello_ack}
use nose.Peer.{
  Zlib, Peer, Events, Env, send, set_ip_configure, udp_holing_hello, udp_recv_cb, recved_pkt_unpack,
  answer, hello_ack_received, init_tun_device, sendto_remote_peer, cleared,
}
use nose.Peer.Payload.{udp_recv_cb-unpack}

syn_answered :
    (aes : AesCbc) (zlib : Zlib) (plaintext rest : List ℕ) (env : Env) (pr : Peer) (ev : Events)
    → env.mem ≡ true
    → env.sendto ≡ true
    → recved_pkt_unpack aes zlib plaintext env (0 ∷ 2 ∷ 0 ∷ 0 ∷ rest) 4 pr ev
      ≡ done (pr, ev, send (0 ∷ 1 ∷ 0 ∷ 0 ∷ []) ∷ [])
unfolding recved_pkt_unpack answer hello_ack sendto_remote_peer
syn_answered aes zlib plaintext rest env pr ev m s = rw (m, s) refl

-- The connection is up: the device is open, one more thread reads from it, the heartbeat waits.
abbrev pub up : Env → Events → Events
up env ev = record ev { tun = some env.utun_open; hb = true; threads = ev.threads + 1 }

ack_received :
    (aes : AesCbc) (zlib : Zlib) (plaintext rest : List ℕ) (env : Env) (pr : Peer) (ev : Events)
    → pr.helloed ≡ false
    → 0 < env.utun_open
    → env.thread ≡ true
    → recved_pkt_unpack aes zlib plaintext env (0 ∷ 1 ∷ 0 ∷ 0 ∷ rest) 4 pr ev
      ≡ done (
        record pr { helloed = true },
        up env ev,
        set_ip_configure pr.vlan_local_ipv4 pr.vlan_remote_ipv4 ∷ [],
      )
unfolding recved_pkt_unpack hello_ack_received init_tun_device
ack_received aes zlib plaintext rest env pr ev h o t =
    let opened : (env.utun_open == 0) ≡ false = ground arith in rw (h, opened, t) refl

-- When the hello timer of a peer that is not connected fires and the packets arrive: the hello
-- packet goes out and the timer waits again; the other peer, whatever its own state, answers and
-- does not change; the answer opens the tun device, starts its thread and the heartbeat, sets the
-- addresses of the device, and the peer is connected. Memory, sockets, device and thread are there.
pub hello_exchange :
    (aes : AesCbc) (zlib : Zlib) (plaintext : List ℕ) (env env' env'' : Env) (a b : Peer)
    (ev ev' : Events)
    → a.helloed ≡ false
    → env.mem ≡ true
    → env.sendto ≡ true
    → env'.mem ≡ true
    → env'.sendto ≡ true
    → 0 < env''.utun_open
    → env''.thread ≡ true
    → (syn : List ℕ) × (ack : List ℕ) × (udp_holing_hello env a ev
        ≡ (a, record ev { hello = true }, send syn ∷ []))
      × (udp_recv_cb aes zlib plaintext env' b.remote_peer_addr syn b ev'
          ≡ done (b, ev', send ack ∷ []))
      × (udp_recv_cb aes zlib plaintext env'' a.remote_peer_addr ack a (record ev { hello = true })
          ≡ done (
            record a { helloed = true },
            up env'' (record ev { hello = true }),
            set_ip_configure a.vlan_local_ipv4 a.vlan_remote_ipv4 ∷ [],
          ))
unfolding udp_holing_hello hello_syn
hello_exchange aes zlib plaintext env env' env'' a b ev ev' h m s m' s' o t =
    let syn : List ℕ = 0 ∷ 2 ∷ 0 ∷ 0 ∷ [] in
    let ack : List ℕ = 0 ∷ 1 ∷ 0 ∷ 0 ∷ [] in
    (
      syn,
      ack,
      rw (h, m, s) refl,
      udp_recv_cb-unpack aes zlib plaintext syn env' b ev' (omega arith) (omega arith)
          ∙ syn_answered aes zlib plaintext (drop 4 cleared) env' b ev' m' s',
      udp_recv_cb-unpack aes zlib plaintext ack env'' a (record ev { hello = true }) (omega arith)
            (omega arith)
          ∙ ack_received aes zlib plaintext (drop 4 cleared) env'' a (record ev { hello = true }) h
              o t,
    )
