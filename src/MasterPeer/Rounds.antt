-- ===== src/MasterPeer/Rounds.antt =====
-- The tables under the timers of src/master_peer.c.
use nose.Common.{
  ℕ, ◌≡◌, Bool, true, false, ltb, ◌==◌, if◌then◌else◌, Option, List, length, Outcome, done, fault,
  >>=-eq-done, Option-cases, take, inl, inr, arith,
}
use nose.Bucket.{BucketItem, get_front_bucket, get_next_bucket_item}
use nose.Bucket.Locks.{get_front_bucket-frees, get_next_bucket_item-Sound}
use nose.Common.Words.{htons}
use nose.Pmp.{Inet}
use nose.Pmp.Parse.{discovery_rsp_unpack, get_peers_rsp_unpack}
use nose.MasterPeer.{MasterPeer}
use nose.Common.Strings.{memcpy}
use nose.MasterPeer.Timers.{
  World, TimerScratch, Heard, exchange, written, ping_peer, discovery_proc, get_peers,
}
use nose.Pmp.Tables.{discovery_rsp_unpack-Sound, get_peers_rsp_unpack-Sound}
use nose.MasterPeer.Handlers.{IsSound}

abbrev Kept : MasterPeer × Bool × Heard → Type 0
Kept h = IsSound h.0 h.1

module _ (net : Inet) (clock : ℕ → ℕ × ℕ) (world : World) (s : TimerScratch) where
  checked :
      {A : Type 0} (P : A → Type 0) (b c : Bool) (x y : Outcome A) (a : A)
      → (x ≡ done a → P a)
      → (y ≡ done a → P a)
      → (if b then fault else if c then x else y) ≡ done a
      → P a
  checked P true c x y a k k' e = cc
  checked P false true x y a k k' e = k e
  checked P false false x y a k k' e = k' e

  -- Whatever comes back from the network.
  exchange-keeps :
      {A : Type 0} (P : A → Type 0) (buf : List ℕ) (item : BucketItem) (request : Option (List ℕ))
      (otherwise : Outcome A) (after : List ℕ → ℕ → Outcome A) (a : A)
      → (otherwise ≡ done a → P a)
      → ((b : List ℕ) (n : ℕ) → after b n ≡ done a → P a)
      → exchange net world buf item request otherwise after ≡ done a
      → P a
  unfolding exchange
  exchange-keeps P buf item request otherwise after a k k' e =
      elim (Option-cases (world (net.inet_addr item.ipv4) (htons item.port) request)) [
        | inl nothing ↦ k (rw (exchange, nothing) at e)
        | inr (bytes, some_bytes) ↦
            let received = take 8192 bytes in
            let b = memcpy (written buf request) received (length received) in
            checked P (ltb (length buf) (length received)) (length received == 0) otherwise
              (after b (length received)) a k (k' b (length received))
              (rw (exchange, some_bytes) at e)
      ]

  pub ping_peer-IsSound :
      (mstp : MasterPeer) (held : Bool) (h : MasterPeer × Bool × Heard)
      → IsSound mstp held
      → ping_peer net clock world s mstp held ≡ done h
      → IsSound h.0 h.1
  unfolding ping_peer
  ping_peer-IsSound mstp held h v e =
      let ((held', bkt, item), p, q) =
        >>=-eq-done (get_next_bucket_item held mstp.master_peer_bkt) _ e in
      let (free, valid, distinct) =
        get_next_bucket_item-Sound mstp.master_peer_bkt bkt item held held'
          (v.free, v.masters_valid, v.masters_distinct) p in
      exchange-keeps Kept s.buf item _ _ _ h (λ d. ground arith) (λ b n d. ground arith) q

  pub discovery_proc-IsSound :
      (mstp : MasterPeer) (held : Bool) (h : MasterPeer × Bool × Heard)
      → IsSound mstp held
      → discovery_proc net clock world s mstp held ≡ done h
      → IsSound h.0 h.1
  unfolding discovery_proc
  discovery_proc-IsSound mstp held h v e =
      let ((held', front), p, q) = >>=-eq-done (get_front_bucket held mstp.master_peer_bkt) _ e in
      let free = get_front_bucket-frees mstp.master_peer_bkt held held' front p in
      elim (Option-cases front) [
        | inl none_left ↦ ground arith
        | inr (item, some_item) ↦
            exchange-keeps Kept (take 1024 s.buf) item _ _ _ h (λ d. ground arith)
              (λ b n d.
                let ((status, held'', bkt), p', q') =
                  >>=-eq-done
                    (discovery_rsp_unpack net clock held' mstp.master_peer_bkt s.stack_item b n) _
                    d in
                ground (
                  arith,
                  discovery_rsp_unpack-Sound net clock held' held'' mstp.master_peer_bkt bkt
                      s.stack_item b n status (free, v.masters_valid, v.masters_distinct) p',
                ))
              (rw some_item at q)
      ]

  pub get_peers-IsSound :
      (mstp : MasterPeer) (held : Bool) (h : MasterPeer × Bool × Heard)
      → IsSound mstp held
      → get_peers net clock world s mstp held ≡ done h
      → IsSound h.0 h.1
  unfolding get_peers
  get_peers-IsSound mstp held h v e =
      let ((held', front), p, q) = >>=-eq-done (get_front_bucket held mstp.master_peer_bkt) _ e in
      let free = get_front_bucket-frees mstp.master_peer_bkt held held' front p in
      elim (Option-cases front) [
        | inl none_left ↦ ground arith
        | inr (item, some_item) ↦
            exchange-keeps Kept s.buf item _ _ _ h (λ d. ground arith)
              (λ b n d.
                let ((status, held'', bkt), p', q') =
                  >>=-eq-done (get_peers_rsp_unpack net clock held' mstp.peer_bkt s.stack_item b n)
                    _ d in
                ground (
                  arith,
                  get_peers_rsp_unpack-Sound net clock held' held'' mstp.peer_bkt bkt s.stack_item b
                      n status (free, v.peers_valid, v.peers_distinct) p',
                ))
              (rw some_item at q)
      ]
