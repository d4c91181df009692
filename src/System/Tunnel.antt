-- ===== src/System/Tunnel.antt =====
-- The tunnel between two peers of src/peer.c that met at a master peer.
use nose.Common.{ℕ, ◌-◌, ◌*◌, ◌≤◌, ◌<◌, ◌≡◌, refl, true, false, List, [], ◌∷◌, length, done}
use mathlib.Core.Path.{subst, sym}
use nose.Bucket.{Bucket}
use nose.Pmp.{Inet}
use nose.MasterPeer.{MasterPeer}
use nose.Crypt.{AesCbc, output_len}
use nose.Peer.{
  Zlib, Peer, Events, SockAddr, Env, Action, Handled, udp_holing_hello, write_tun, send, tun_round,
  packet, udp_recv_cb,
}
use nose.Peer.Handshake.{hello_exchange, up}
use nose.Peer.Payload.{udp_recv_cb-tun_round}
use nose.System.{Moment, greet, connect, arrive, public_addr}
use nose.System.Steps.{IsReady}
use nose.System.Meet.{CanMeet, found, greeting, meet-found}

-- A system that gives memory, sends, opens the device and starts the thread.
pub record IsWorking (env : Env) : Type 0 where
  pub memory : env.mem ≡ true
  pub sends : env.sendto ≡ true
  pub opens : 0 < env.utun_open
  pub starts : env.thread ≡ true

-- A peer that has heard an answer, and what then waits at it.
abbrev pub greeted : Peer → Peer
greeted pr = record pr { helloed = true }

abbrev pub carrying : Env → Events → Events
carrying env ev = up env (record ev { hello = true })

-- A packet made of 1 to 1518 bytes from the tun device, with memory for it and whatever on the stack.
-- The compressed text is at least a quarter of the encrypted one.
pub record IsPayload (aes : AesCbc) (zlib : Zlib) (key text pkt : List ℕ) : Type 0 where
  pub stack : List ℕ
  pub some_text : 0 < length text
  pub short : length text ≤ 1518
  pub room : output_len (length text) ≤ length stack
  pub made : tun_round aes zlib true stack key text ≡ packet pkt
  pub ratio : output_len (length text) ≤ (length pkt - 6) * 4

module _ (net : Inet) (aes : AesCbc) (zlib : Zlib) (plaintext : List ℕ) where
  -- What comes of one packet, under another name for the sender's address.
  from_address :
      (env : Env) (bytes : List ℕ) (pr : Peer) (ev : Events) {x y : SockAddr} (h : Handled)
      → x ≡ y
      → udp_recv_cb aes zlib plaintext env x bytes pr ev ≡ done h
      → udp_recv_cb aes zlib plaintext env y bytes pr ev ≡ done h
  from_address env bytes pr ev {x} {y} h e r =
      subst (λ z. udp_recv_cb aes zlib plaintext env z bytes pr ev ≡ done h) e r

  greet_steps :
      (env : Env) (syn ack : List ℕ) (acts : List Action) (a a' b : Peer) (ev ev' eva evb : Events)
      → udp_holing_hello env a ev ≡ (a, eva, send syn ∷ [])
      → udp_recv_cb aes zlib plaintext env (public_addr net a) syn b ev'
        ≡ done (b, ev', send ack ∷ [])
      → udp_recv_cb aes zlib plaintext env (public_addr net b) ack a eva ≡ done (a', evb, acts)
      → greet net aes zlib plaintext env (a, ev) (b, ev') ≡ done ((a', evb), (b, ev'))
  unfolding greet arrive
  greet_steps env syn ack acts a a' b ev ev' eva evb e1 e2 e3 = rw (e1, e2, e3) refl

  greet-greeted :
      (env : Env) (a b : Peer) (ev ev' : Events)
      → IsWorking env
      → a.helloed ≡ false
      → a.remote_peer_addr ≡ public_addr net b
      → b.remote_peer_addr ≡ public_addr net a
      → greet net aes zlib plaintext env (a, ev) (b, ev')
        ≡ done ((greeted a, carrying env ev), (b, ev'))
  greet-greeted env a b ev ev' w h ab ba =
      let (syn, ack, e1, e2, e3) =
        hello_exchange aes zlib plaintext env env env a b ev ev' h w.memory w.sends w.memory w.sends
          w.opens w.starts in
      greet_steps env syn ack _ a (greeted a) b ev ev' (record ev { hello = true })
        (carrying env ev) e1 (from_address env syn b ev' _ ba e2)
        (from_address env ack a (record ev { hello = true }) _ ab e3)

  -- Two peers that can meet, whose systems work, and that are not connected, meet and greet each
  -- other: then the way is open in both directions.
  connect-connected :
      (now : ℕ → Moment) (env env' : Env) (mstp : MasterPeer) (a b : Peer) (ev ev' : Events)
      (s s' m m' n : List ℕ)
      → ((i : ℕ) → IsReady net (now i))
      → CanMeet net mstp a b s s' m m' n
      → IsWorking env
      → IsWorking env'
      → a.helloed ≡ false
      → b.helloed ≡ false
      → (bkt : Bucket) × (bkt' : Bucket) × (connect net aes zlib plaintext now env env' mstp a b ev
            ev'
          ≡ done (
            (greeted (found net a b bkt), carrying env (greeting ev)),
            (greeted (found net b a bkt'), carrying env' (greeting ev')),
          ))
  unfolding connect
  connect-connected now env env' mstp a b ev ev' s s' m m' n ready c w w' h h' =
      let (bkt, bkt', e) = meet-found net now mstp a b ev ev' s s' m m' n ready c in
      let a' = found net a b bkt in
      let b' = found net b a bkt' in
      let g = greet-greeted env a' b' (greeting ev) (greeting ev') w h refl refl in
      let g' =
        greet-greeted env' b' (greeted a') (greeting ev') (carrying env (greeting ev)) w' h' refl
          refl in
      (bkt, bkt', rw (e, g, g') refl)

  -- From registration to payload: two peers with the same key and working systems, not connected
  -- yet, register with a master peer that has room for two more and knows neither, under
  -- different names and virtual addresses, look for each other's virtual address and greet each
  -- other. Both count as connected then, each with the other's public address, and a packet that one
  -- of them makes from what it read from its tun device, and sends from its public address, comes
  -- out of the other's tun device as it was read, in both directions.
  pub connect-carries :
      (now : ℕ → Moment) (env env' : Env) (mstp : MasterPeer) (a b : Peer) (ev ev' : Events)
      (s s' m m' n text text' pkt pkt' : List ℕ)
      → ((i : ℕ) → IsReady net (now i))
      → CanMeet net mstp a b s s' m m' n
      → IsWorking env
      → IsWorking env'
      → env.utun_write ≡ true
      → env'.utun_write ≡ true
      → a.helloed ≡ false
      → b.helloed ≡ false
      → b.key ≡ a.key
      → IsPayload aes zlib a.key text pkt
      → IsPayload aes zlib b.key text' pkt'
      → (a' : Peer) × (b' : Peer) × (eva : Events) × (evb : Events) × (connect net aes zlib
            plaintext now env env' mstp a b ev ev'
          ≡ done ((a', eva), (b', evb)))
        × (a'.helloed ≡ true)
        × (b'.helloed ≡ true)
        × (a'.remote_peer_addr ≡ public_addr net b)
        × (b'.remote_peer_addr ≡ public_addr net a)
        × (udp_recv_cb aes zlib plaintext env' (public_addr net a) pkt b' evb
            ≡ done (b', evb, write_tun text ∷ []))
        × (udp_recv_cb aes zlib plaintext env (public_addr net b) pkt' a' eva
            ≡ done (a', eva, write_tun text' ∷ []))
  connect-carries now env env' mstp a b ev ev' s s' m m' n text text' pkt pkt' ready c w w' u u' h
        h' k p p' =
      let (bkt, bkt', e) =
        connect-connected now env env' mstp a b ev ev' s s' m m' n ready c w w' h h' in
      let a' = greeted (found net a b bkt) in
      let b' = greeted (found net b a bkt') in
      let eva = carrying env (greeting ev) in
      let evb = carrying env' (greeting ev') in
      (
        a',
        b',
        eva,
        evb,
        e,
        refl,
        refl,
        refl,
        refl,
        udp_recv_cb-tun_round aes zlib p.stack a.key text pkt plaintext env' b' evb p.some_text
            p.short p.room p.made p.ratio k u',
        udp_recv_cb-tun_round aes zlib p'.stack b.key text' pkt' plaintext env a' eva p'.some_text
            p'.short p'.room p'.made p'.ratio (sym k) u,
      )
