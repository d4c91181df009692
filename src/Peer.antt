-- ===== src/Peer.antt =====
-- src/peer.h and src/peer.c: a peer, which finds the other peer at the master peer, opens a way to
-- it and carries packets between it and the tun device. The answers of the system calls that one
-- run of a handler makes are an Env; what the handler does to the world is a list of Actions; the
-- events that are waiting, the open tun device and the number of threads that read from it are in
-- Events. Messages on the terminal are left out.
pub mod Start
pub mod TunDevice
pub mod Limits
pub mod Payload
pub mod Machine
pub mod Search
pub mod Registration
pub mod Heartbeat
pub mod Handshake
pub mod Samples
mod Tests
use nose.Common.{
  ℕ, zero, suc, ◌+◌, ◌-◌, ◌*◌, ◌≤◌, ◌≡◌, Bool, true, false, ◌&&◌, ◌==◌, ltb, if◌then◌else◌, Option,
  none, some, List, [], ◌∷◌, ◌++◌, length, take, replicate, Outcome, done, blocked, fault, ◌>>=◌,
  ◌>>◌, Status, ok, failed, error,
}
use nose.Common.Strings.{memcpy}
use nose.Common.Words.{htons, u8_at, u16_at, bytes_at}
use nose.Bucket.{Bucket}
use nose.Pmp.Build.{NatType}
use nose.Crypt.{AesCbc, encrypt_by_aes_256, decrypt_by_aes_256}
use nose.Pcp.{
  f_hello_ack, f_hello_syn, f_hb_ack, f_hb_syn, f_payload, pcp_len, hello_syn, hello_ack, hb_syn,
  hb_ack, payload_pkt,
}

-- compress and uncompress of zlib, with the room at the destination. They are documented to give
-- the data back where there is room for it, and compress to succeed with `compress_bound` bytes.
pub record Zlib : Type 0 where
  pub compress : ℕ → List ℕ → Option (List ℕ)
  pub uncompress : ℕ → List ℕ → Option (List ℕ)
  pub compress_bound : ℕ → ℕ
  pub compress_done :
      (room : ℕ) (x : List ℕ)
      → compress_bound (length x) ≤ room
      → (c : List ℕ) × (compress room x ≡ some c)
  pub compress-le : (room : ℕ) (x c : List ℕ) → compress room x ≡ some c → length c ≤ room
  pub uncompress-compress :
      (room room' : ℕ) (x c : List ℕ)
      → compress room x ≡ some c
      → length x ≤ room'
      → uncompress room' c ≡ some x

-- An address in memory and a port, both with their bytes in network order.
pub record SockAddr : Type 0 where
  pub sin_addr : ℕ
  pub sin_port : ℕ

pub record Peer : Type 0 where
  pub nt : NatType
  pub peer_id : List ℕ
  pub mstp_id : List ℕ
  pub master_peer_port : ℕ
  pub source_port : ℕ
  pub stun_server_port : ℕ
  pub vlan_local_ipv4 : List ℕ
  pub vlan_remote_ipv4 : List ℕ
  pub master_peer_ipv4 : List ℕ
  pub source_ipv4 : List ℕ
  pub stun_server_ipv4 : List ℕ
  pub remote_peer_addr : SockAddr
  pub peer : Bucket
  pub helloed : Bool
  pub key : List ℕ
  pub syn_counts : ℕ

-- Whether hello_event, hb_event and fp_event wait for their time, the tun device that is open, and
-- the threads that run recv_tun_device_thread.
pub record Events : Type 0 where
  pub hello : Bool
  pub hb : Bool
  pub fp : Bool
  pub tun : Option ℕ
  pub threads : ℕ

-- Whether malloc gives memory, sendto succeeds, the descriptor from utun_open (0 for a failure),
-- whether a thread starts, and whether utun_write succeeds.
pub record Env : Type 0 where
  pub mem : Bool
  pub sendto : Bool
  pub utun_open : ℕ
  pub thread : Bool
  pub utun_write : Bool

pub data Action : Type 0 where
  send : List ℕ → Action
  write_tun : List ℕ → Action
  set_ip_configure : List ℕ → List ℕ → Action

abbrev pub Handled : Type 0
Handled = Peer × Events × List Action

-- `BUFSIZ * 11`
abbrev pub buf_len : ℕ
buf_len = 90112

-- `memset(buf, 0, BUFSIZ * 11)`
pub cleared : List ℕ
cleared = replicate buf_len 0

unfoldable pub sendto_remote_peer : Env → List ℕ → Status × List Action
sendto_remote_peer env buf =
    if length buf == 0 then (error, []) else if env.sendto then (ok, send buf ∷ []) else (error, [])

unfoldable pub init_tun_device : Env → Peer → Events → Status × Events × List Action
init_tun_device env pr ev = if env.utun_open == 0 then (failed, record ev { tun = none }, []) else (
  ok,
  record ev { tun = some env.utun_open },
  set_ip_configure pr.vlan_local_ipv4 pr.vlan_remote_ipv4 ∷ [],
)

-- An answer to a syn packet: built and sent, or not.
unfoldable pub answer : Env → Option (List ℕ) → Peer → Events → Handled
unfolding sendto_remote_peer
answer env none pr ev = (pr, ev, [])
answer env (some buf) pr ev = (pr, ev, (sendto_remote_peer env buf).1)

-- The case F_HELLO_ACK. The test of pthread_create's result, `< 0`, never holds: a thread that does
-- not start goes unnoticed. The heartbeat waits from here on.
unfoldable pub hello_ack_received : Env → Peer → Events → Handled
unfolding init_tun_device
hello_ack_received env pr ev =
    if pr.helloed then (pr, ev, []) else connect (init_tun_device env pr ev)
  where
    connect : Status × Events × List Action → Handled
    connect (failed, ev', acts) = (pr, ev', acts)
    connect (error, ev', acts) = (pr, ev', acts)
    connect (ok, ev', acts) = (
      record pr { helloed = true },
      record ev' { hb = true; threads = if env.thread then ev'.threads + 1 else ev'.threads },
      acts,
    )

-- utun_write on the first `text_len` bytes of the array that the plain text was put in.
unfoldable pub deliver : Env → List ℕ → Peer → Events → Handled
deliver env text pr ev = (pr, ev, if env.utun_write then write_tun text ∷ [] else [])

module _ (aes : AesCbc) (zlib : Zlib) where
  -- The case F_PAYLOAD. A length below 2 wraps in `len - sizeof(uint16_t)`, and more than `buf_len`
  -- bytes from uncompress go past the end of `buf`, also where it fails in the end. `plaintext` is the array on the stack.
  unfoldable pub payload_received : List ℕ → Env → List ℕ → ℕ → Peer → Events → Outcome Handled
  unfolding deliver
  payload_received plaintext env buf size pr ev =
      let len = htons (u16_at buf 2) in
      if ltb size (len + pcp_len)
      then done (pr, ev, [])
      else if ltb len 2
      then fault
      else elim (zlib.uncompress ((len - 2) * 4) (bytes_at buf 6 (len - 2))) [
        | none ↦ if ltb buf_len ((len - 2) * 4) then fault else done (pr, ev, [])
        | some out ↦
            if ltb buf_len (length out)
            then fault
            else elim (decrypt_by_aes_256 aes out (length out) pr.key) [
              | none ↦ done (pr, ev, [])
              | some text ↦ done (
                  deliver env (take (htons (u16_at buf 4)) (memcpy plaintext text (length text))) pr
                    ev)
            ]
      ]

  unfoldable pub recved_pkt_unpack : List ℕ → Env → List ℕ → ℕ → Peer → Events → Outcome Handled
  unfolding answer hello_ack_received payload_received
  recved_pkt_unpack plaintext env buf size pr ev =
      if ltb size pcp_len
      then done (pr, ev, [])
      else if u8_at buf 1 == f_hello_syn
      then done (answer env (hello_ack env.mem) pr ev)
      else if u8_at buf 1 == f_hello_ack
      then done (hello_ack_received env pr ev)
      else if u8_at buf 1 == f_hb_syn
      then done (answer env (hb_ack env.mem) pr ev)
      else if u8_at buf 1 == f_hb_ack
      then done (record pr { syn_counts = pr.syn_counts + 1 }, ev, [])
      else if u8_at buf 1 == f_payload
      then payload_received plaintext env buf size pr ev
      else done (pr, ev, [])

  -- A datagram from `src`; the buffer is cleared before. Only the other peer is listened to.
  unfoldable pub udp_recv_cb : List ℕ → Env → SockAddr → List ℕ → Peer → Events → Outcome Handled
  udp_recv_cb plaintext env src bytes pr ev =
      let received = take buf_len bytes in
      if ltb 0 (length received)
        && (src.sin_addr == pr.remote_peer_addr.sin_addr
            && src.sin_port == pr.remote_peer_addr.sin_port)
      then recved_pkt_unpack plaintext env (memcpy cleared received (length received))
          (length received) pr ev
      else done (pr, ev, [])

-- The timer hello_event: it waits again unless the other peer has answered.
unfoldable pub udp_holing_hello : Env → Peer → Events → Handled
udp_holing_hello env pr ev =
    if pr.helloed
    then (pr, record ev { hello = false }, [])
    else (pr, record ev { hello = true }, sent (hello_syn env.mem))
  where
    sent : Option (List ℕ) → List Action
    sent none = []
    sent (some buf) = if env.sendto then send buf ∷ [] else []

-- The timer hb_event. After as many unanswered packets as `syn_counts` says the way is given up:
-- the device is closed, hello_event waits, and hb_event does not.
unfoldable pub peer_heartbeat : Env → Peer → Events → Handled
unfolding sendto_remote_peer
peer_heartbeat env pr ev =
    if pr.syn_counts == 0
    then (
      record pr { helloed = false; syn_counts = 3 },
      record ev { hello = true; hb = false; tun = none },
      [],
    )
    else beat (hb_syn env.mem)
  where
    beat : Option (List ℕ) → Handled
    beat none = (pr, record ev { hb = true }, [])
    beat (some buf) = (
      record pr { syn_counts = pr.syn_counts - 1 },
      record ev { hb = true },
      (sendto_remote_peer env buf).1,
    )

-- How a round of recv_tun_device_thread ends: with nothing, with the end of the thread, or with a
-- packet for the other peer.
pub data Round : Type 0 where
  skipped ended : Round
  packet : List ℕ → Round

-- A round after utun_read gave the bytes `text` (1518 at most).
module _ (aes : AesCbc) (zlib : Zlib) where
  unfoldable pub tun_round : Bool → List ℕ → List ℕ → List ℕ → Round
  tun_round mem stack key text =
      if length text == 0
      then skipped
      else elim (encrypt_by_aes_256 aes stack text (length text) key) [
        | none ↦ skipped
        | some crypted ↦ elim (zlib.compress (length crypted * 4) crypted) [
          | none ↦ ended
          | some compressed ↦ elim (payload_pkt mem compressed (length compressed) (length text)) [
            | none ↦ skipped
            | some bytes ↦ packet bytes
          ]
        ]
      ]
