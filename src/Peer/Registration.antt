-- ===== src/Peer/Registration.antt =====
-- The registration of src/peer.c with a master peer that may not answer.
use nose.Common.{
  ℕ, zero, suc, ◌+◌, ◌<◌, ◌≡◌, refl, sym, ◌⊎◌, inl, inr, true, some, List, arith, Status, ok, error,
}
use mathlib.Core.Path.{subst}
use nose.Pmp.{Inet, PmpPeerRegistryReq}
use nose.Pmp.Build.{peer_registry_req_pkt}
use nose.Nat.Client.{Reply, send_fails, recv_fails, datagram}
use nose.Peer.{Peer}
use nose.Peer.Start.{registry_tries, registry_peer}

-- The first k tries were sent and not answered.
abbrev pub Silent : (ℕ → Reply) → ℕ → Type 0
Silent server zero = Unit {0}
Silent server (suc k) = Silent server k × (server k ≡ recv_fails)

-- How a registration ends: by the first answer, which comes to one of the first `rounds` tries
-- after unanswered ones, or without one.
abbrev pub Ends : (ℕ → Reply) → ℕ → Status → Type 0
Ends server rounds status =
    ((k : ℕ) × (bytes : List ℕ) × (k < rounds)
      × Silent server k
      × (server k ≡ datagram bytes)
      × (status ≡ ok))
    ⊎ (((k : ℕ) × (k < rounds) × Silent server k × (server k ≡ send_fails) × (status ≡ error))
        ⊎ (Silent server rounds × (status ≡ error)))

Reply-cases :
    (r : Reply) → (r ≡ send_fails) ⊎ ((r ≡ recv_fails) ⊎ ((bytes : List ℕ) × (r ≡ datagram bytes)))
Reply-cases send_fails = inl refl
Reply-cases recv_fails = inr (inl refl)
Reply-cases (datagram bytes) = inr (inr (bytes, refl))

tries_first :
    (server : ℕ → Reply) (rounds i : ℕ) (bytes : List ℕ)
    → server i ≡ datagram bytes
    → registry_tries server rounds i ≡ ok
unfolding registry_tries
tries_first server zero i bytes e = rw (e, registry_tries)
tries_first server (suc rounds) i bytes e = rw (e, registry_tries)

tries_unsent :
    (server : ℕ → Reply) (rounds i : ℕ)
    → server i ≡ send_fails
    → registry_tries server rounds i ≡ error
unfolding registry_tries
tries_unsent server zero i e = rw (e, registry_tries)
tries_unsent server (suc rounds) i e = rw (e, registry_tries)

tries_next :
    (server : ℕ → Reply) (rounds i : ℕ)
    → server i ≡ recv_fails
    → registry_tries server (suc rounds) i ≡ registry_tries server rounds (suc i)
unfolding registry_tries
tries_next server rounds i e =
    let one : i + 1 ≡ suc i = omega arith in rw (e, registry_tries, one) refl

tries_over :
    (server : ℕ → Reply) (i : ℕ) → server i ≡ recv_fails → registry_tries server 0 i ≡ error
unfolding registry_tries
tries_over server i e = rw (e, registry_tries)

Ends-heard :
    (server : ℕ → Reply) (rounds i total : ℕ)
    → total ≡ suc (rounds + i)
    → Silent server i
    → (server i ≡ send_fails) ⊎ ((bytes : List ℕ) × (server i ≡ datagram bytes))
    → Ends server total (registry_tries server rounds i)
Ends-heard server rounds i total t s (inl e) =
    inr (inl (i, omega arith, s, e, tries_unsent server rounds i e))
Ends-heard server rounds i total t s (inr (bytes, e)) =
    inl (i, bytes, omega arith, s, e, tries_first server rounds i bytes e)

registry_tries-Ends :
    (server : ℕ → Reply) (rounds i total : ℕ)
    → total ≡ suc (rounds + i)
    → Silent server i
    → Ends server total (registry_tries server rounds i)
registry_tries-Ends server zero i total t s = elim (Reply-cases (server i)) [
  | inl e ↦ Ends-heard server 0 i total t s (inl e)
  | inr (inr h) ↦ Ends-heard server 0 i total t s (inr h)
  | inr (inl e) ↦
      let all : suc i ≡ total = omega arith in
      inr (inr (subst (Silent server) all (s, e), tries_over server i e))
]
registry_tries-Ends server (suc rounds) i total t s = elim (Reply-cases (server i)) [
  | inl e ↦ Ends-heard server (suc rounds) i total t s (inl e)
  | inr (inr h) ↦ Ends-heard server (suc rounds) i total t s (inr h)
  | inr (inl e) ↦
      subst (Ends server total) (sym (tries_next server rounds i e))
        (registry_tries-Ends server rounds (suc i) total (omega arith) (s, e))
]

-- With a socket and memory, registry_peer sends its request up to four times: it answers OK at the
-- first datagram that comes back, whatever is in it, and ERROR when the request cannot be sent or
-- all four tries go unanswered.
pub registry_peer-Ends :
    (net : Inet) (blk : PmpPeerRegistryReq) (server : List ℕ → ℕ → Reply) (pr : Peer)
    → (request : List ℕ) × (peer_registry_req_pkt net
          (some blk)
          pr.mstp_id
          pr.peer_id
          pr.vlan_local_ipv4
          pr.nt
        ≡ some request)
      × Ends (server request) 4 (registry_peer net true (some blk) server pr)
unfolding registry_peer peer_registry_req_pkt
registry_peer-Ends net blk server pr = (_, refl, registry_tries-Ends (server _) 3 0 4 refl tt)
