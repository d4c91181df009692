-- ===== src/MasterPeer/Timers.antt =====
-- The timers of src/master_peer.c: ping_peer, discovery_proc and get_peers, which each wait again
-- whatever comes of them, and src/udp.c, with which they send and receive. `world` is the network
-- with the address and port of the receiver and a request, none if it could not be built: what
-- recvfrom brings back, if anything. A send that fails is not noticed.
use nose.Common.{
  ℕ, Bool, ltb, ◌==◌, ◌&&◌, if◌then◌else◌, Option, none, some, List, length, take, Outcome, done,
  fault, ◌>>=◌, ok, failed, error,
}
use nose.Common.Words.{htons}
use nose.Common.Strings.{memcpy, same_str}
use nose.Bucket.{BucketItem, get_front_bucket, get_next_bucket_item}
use nose.Pmp.{Inet, PmpDiscoveryReq, PmpPingReq}
use nose.Pmp.Build.{ping_req_pkt, discovery_req_pkt, get_peers_req_pkt}
use nose.Pmp.Parse.{ping_req_unpack, discovery_rsp_unpack, get_peers_rsp_unpack}
use nose.MasterPeer.{MasterPeer}

-- What a timer has to say about the other master peer.
pub data Heard : Type 0 where
  dead malformed invalid success : Heard

-- The memory of a timer: `buf` on the stack, the uninitialised item of a reader, and malloc's blocks.
pub record TimerScratch : Type 0 where
  pub buf : List ℕ
  pub source_id : List ℕ
  pub target_id : List ℕ
  pub stack_item : BucketItem
  pub ping_blk : Option PmpPingReq
  pub discovery_blk : Option PmpDiscoveryReq

abbrev pub World : Type 0
World = ℕ → ℕ → Option (List ℕ) → Option (List ℕ)

-- The buffer with the request in it.
abbrev pub written : List ℕ → Option (List ℕ) → List ℕ
written buf none = buf
written buf (some request) = memcpy buf request (length request)

-- What follows a request: `after` gets the contents of the buffer, with the request and then the
-- answer in front, and the answer's length, unless nothing or an empty datagram comes back. BUFSIZ
-- bytes at most are taken, and fault where the buffer is shorter.
unfoldable pub exchange {ℓ} :
    {A : Type ℓ}
    → Inet
    → World
    → List ℕ
    → BucketItem
    → Option (List ℕ)
    → Outcome A
    → (List ℕ → ℕ → Outcome A)
    → Outcome A
exchange net world buf item request otherwise after =
    elim (world (net.inet_addr item.ipv4) (htons item.port) request) [
      | none ↦ otherwise
      | some bytes ↦
          let received = take 8192 bytes in
          if ltb (length buf) (length received)
          then fault
          else if length received == 0
          then otherwise
          else after (memcpy (written buf request) received (length received)) (length received)
    ]

abbrev pub Timed : Type 0
Timed = MasterPeer × Bool × Heard

module _ (net : Inet) (clock : ℕ → ℕ × ℕ) (world : World) (s : TimerScratch) where
  unfoldable pub ping_peer : MasterPeer → Bool → Outcome Timed
  ping_peer mstp held = do
    (held, bkt, item) ← get_next_bucket_item held mstp.master_peer_bkt
    let mstp' : MasterPeer = record mstp { master_peer_bkt = bkt }
    exchange net world s.buf item (ping_req_pkt s.ping_blk mstp.node_id item.node_id)
        (done (mstp', held, dead))
        (λ b len.
          let (status, source_id, target_id) = ping_req_unpack s.source_id s.target_id b len in
          elim status [
            | ok ↦ done (
              mstp',
              held,
              if same_str source_id item.node_id && same_str target_id mstp.node_id
                  then success
                  else invalid,
            )
            | failed ↦ done (mstp', held, malformed)
            | error ↦ done (mstp', held, malformed)
          ])

  -- The item is used without a test for the null pointer, and the buffer has 1024 bytes.
  unfoldable pub discovery_proc : MasterPeer → Bool → Outcome Timed
  discovery_proc mstp held = do
    (held, front) ← get_front_bucket held mstp.master_peer_bkt
    elim front [
      | none ↦ fault
      | some item ↦
          exchange net world (take 1024 s.buf) item
            (discovery_req_pkt s.discovery_blk item.port mstp.node_id item.node_id)
            (done (mstp, held, dead))
            (λ b len. do
              (status, held, bkt) ←
                  discovery_rsp_unpack net clock held mstp.master_peer_bkt s.stack_item b len
              let mstp' : MasterPeer = record mstp { master_peer_bkt = bkt }
              elim status [
                | ok ↦ done (mstp', held, success)
                | failed ↦ done (mstp', held, malformed)
                | error ↦ done (mstp', held, malformed)
              ])
    ]

  unfoldable pub get_peers : MasterPeer → Bool → Outcome Timed
  get_peers mstp held = do
    (held, front) ← get_front_bucket held mstp.master_peer_bkt
    elim front [
      | none ↦ done (mstp, held, dead)
      | some item ↦
          exchange net world s.buf item (get_peers_req_pkt s.ping_blk mstp.node_id item.node_id)
            (done (mstp, held, dead))
            (λ b len. do
              (status, held, bkt) ←
                  get_peers_rsp_unpack net clock held mstp.peer_bkt s.stack_item b len
              let mstp' : MasterPeer = record mstp { peer_bkt = bkt }
              elim status [
                | ok ↦ done (mstp', held, success)
                | failed ↦ done (mstp', held, malformed)
                | error ↦ done (mstp', held, malformed)
              ])
    ]
