-- ===== src/MasterPeer/Handlers.antt =====
-- The tables under the handler of datagrams of src/master_peer.c.
use nose.Common.{ℕ, ◌≡◌, Bool, false, List, done, >>=-eq-done, Outcome-cases, inl, inr, arith}
use nose.Bucket.{get_top_bucket_items, bucket_size}
use nose.Bucket.Newest.{IsValid, newest, IsDistinct}
use nose.Bucket.Locks.{get_top_bucket_items-frees, bucket_size-frees}
use nose.Pmp.{Inet}
use nose.Pmp.Parse.{peer_registry_req_unpack, find_peer_req_unpack}
use nose.MasterPeer.{
  handle_registry, handle_find_peer, handle_ping, handle_discovery, handle_get_peers, MasterPeer,
  Scratch, Handled, udp_recv_cb,
}
use nose.Pmp.Tables.{registry_req_unpack-Sound, find_peer_req_unpack-frees}

-- Both tables.
pub record IsSound (mstp : MasterPeer) (held : Bool) : Type 0 where
  pub free : held ≡ false
  pub masters_valid : IsValid mstp.master_peer_bkt
  pub masters_distinct : IsDistinct (newest mstp.master_peer_bkt)
  pub peers_valid : IsValid mstp.peer_bkt
  pub peers_distinct : IsDistinct (newest mstp.peer_bkt)

module _ (net : Inet) (clock : ℕ → ℕ × ℕ) (s : Scratch) where
  handle_registry-IsSound :
      (mstp : MasterPeer) (held : Bool) (b : List ℕ) (rlen : ℕ) (h : Handled)
      → IsSound mstp held
      → handle_registry net clock s mstp held b rlen ≡ done h
      → IsSound h.0 h.1
  unfolding handle_registry
  handle_registry-IsSound mstp held b rlen h v e =
      let ((status, id, held', bkt'), p, q) =
        >>=-eq-done
          (peer_registry_req_unpack net clock s.source_id held mstp.peer_bkt s.stack_item b rlen) _
          e in
      ground (
        arith,
        registry_req_unpack-Sound net clock held held' mstp.peer_bkt bkt' s.stack_item s.source_id
            id b rlen status (v.free, v.peers_valid, v.peers_distinct) p,
      )

  handle_find_peer-IsSound :
      (mstp : MasterPeer) (held : Bool) (b : List ℕ) (rlen : ℕ) (h : Handled)
      → IsSound mstp held
      → handle_find_peer net clock s mstp held b rlen ≡ done h
      → IsSound h.0 h.1
  unfolding handle_find_peer
  handle_find_peer-IsSound mstp held b rlen h v e =
      let ((held', size), p, q) = >>=-eq-done (bucket_size held mstp.peer_bkt) _ e in
      let ((status, source_id, target_id, held'', item), p', q') =
        >>=-eq-done
          (find_peer_req_unpack net clock s.source_id s.target_id held' mstp.peer_bkt s.item b rlen)
          _ q in
      ground (
        arith,
        find_peer_req_unpack-frees net clock held' held'' mstp.peer_bkt s.item item s.source_id
            s.target_id source_id target_id b rlen status
            (bucket_size-frees mstp.peer_bkt held held' size p) p',
      )

  handle_ping-IsSound :
      (mstp : MasterPeer) (held : Bool) (b : List ℕ) (rlen : ℕ) (h : Handled)
      → IsSound mstp held
      → handle_ping net clock s mstp held b rlen ≡ done h
      → IsSound h.0 h.1
  unfolding handle_ping
  handle_ping-IsSound mstp held b rlen h v e = ground arith

  handle_discovery-IsSound :
      (mstp : MasterPeer) (held : Bool) (b : List ℕ) (rlen : ℕ) (h : Handled)
      → IsSound mstp held
      → handle_discovery net clock s mstp held b rlen ≡ done h
      → IsSound h.0 h.1
  unfolding handle_discovery
  handle_discovery-IsSound mstp held b rlen h v e =
      elim (Outcome-cases (get_top_bucket_items held mstp.master_peer_bkt s.items 10)) [
        | inl ((held', items, n), p) ↦
            ground (
              arith,
              get_top_bucket_items-frees mstp.master_peer_bkt s.items items 10 n held held' p,
            )
        | inr never ↦ ground arith
      ]

  handle_get_peers-IsSound :
      (mstp : MasterPeer) (held : Bool) (b : List ℕ) (rlen : ℕ) (h : Handled)
      → IsSound mstp held
      → handle_get_peers net clock s mstp held b rlen ≡ done h
      → IsSound h.0 h.1
  unfolding handle_get_peers
  handle_get_peers-IsSound mstp held b rlen h v e =
      elim (Outcome-cases (get_top_bucket_items held mstp.peer_bkt s.items 10)) [
        | inl ((held', items, n), p) ↦
            ground (arith, get_top_bucket_items-frees mstp.peer_bkt s.items items 10 n held held' p)
        | inr never ↦ ground arith
      ]

  pub udp_recv_cb-IsSound :
      (mstp : MasterPeer) (held : Bool) (b : List ℕ) (rlen : ℕ) (h : Handled)
      → IsSound mstp held
      → udp_recv_cb net clock s mstp held b rlen ≡ done h
      → IsSound h.0 h.1
  unfolding udp_recv_cb
  udp_recv_cb-IsSound mstp held b rlen h v e = ground (
    arith,
    handle_ping-IsSound mstp held b rlen h v,
    handle_discovery-IsSound mstp held b rlen h v,
    handle_get_peers-IsSound mstp held b rlen h v,
    handle_registry-IsSound mstp held b rlen h v,
    handle_find_peer-IsSound mstp held b rlen h v,
  )
