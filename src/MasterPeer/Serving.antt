-- ===== src/MasterPeer/Serving.antt =====
-- The handler of datagrams of src/master_peer.c comes to an end with its tables sound, unless a new
-- peer registers in a full table.
use nose.Common.{
  ◌==◌, ℕ, ◌≤◌, ◌≡◌, ◌⊎◌, refl, sym, Bool, true, false, ltb, if◌then◌else◌, Option, none, some,
  List, length, Outcome, done, blocked, arith, inl, inr, Bool-cases, ==_iff, ◌>>=◌, Status, ok,
  failed, error,
}
use mathlib.Core.Path.{subst}
use nose.Bucket.{max_bucket_size, BucketItem}
use nose.Bucket.Newest.{newest, known, IsValid, IsDistinct}
use nose.Bucket.Push.{push_front_bucket-IsValid}
use nose.Bucket.Access.{
  get_top_bucket_items-newest, get_item_by_vlan_ipv4-first, first_vlan, bucket_size-count,
}
use nose.Pmp.{Inet, r_p, f_p, g_ps, disc, ping, req}
use nose.Common.Words.{u8_at}
use nose.Pmp.Parse.{
  registry_item, peer_registry_req_unpack, find_peer_req_unpack, find_peer_req_len,
}
use nose.MasterPeer.{
  handle_registry, handle_find_peer, handle_ping, handle_discovery, handle_get_peers, MasterPeer,
  pmp_header_len, Scratch, Handled, udp_recv_cb,
}
use nose.MasterPeer.Handlers.{IsSound, udp_recv_cb-IsSound}

-- A result.
abbrev Ends : Outcome Handled → Type 0
Ends x = (h : Handled) × (x ≡ done h)

Ends-status :
    (status : Status) {x y z : Outcome Handled}
    → Ends x
    → Ends y
    → Ends z
    → Ends (elim status [ error ↦ x | ok ↦ y | failed ↦ z ])
Ends-status error p q r = p
Ends-status ok p q r = q
Ends-status failed p q r = r

Ends-after :
    {A : Type 0} {m : Outcome A} {a : A} (f : A → Outcome Handled)
    → m ≡ done a
    → Ends (f a)
    → Ends (m >>= f)
Ends-after f e h = subst (λ x. Ends (x >>= f)) (sym e) h

-- A result, or nothing for ever.
data Served (full : Type 0) (x : Outcome Handled) : Type 0 where
  served : Ends x → Served full x
  waits : x ≡ blocked → full → Served full x

Served-if :
    {full : Type 0} (b : Bool) {x y : Outcome Handled}
    → (b ≡ true → Served full x)
    → Served full y
    → Served full (if b then x else y)
Served-if true p q = p refl
Served-if false p q = q

Served-map :
    {full full' : Type 0} {x : Outcome Handled} → (full → full') → Served full x → Served full' x
Served-map k (served h) = served h
Served-map k (waits e f) = waits e (k f)

module _ (net : Inet) (clock : ℕ → ℕ × ℕ) (s : Scratch) where
  handle_ping-Ends :
      (mstp : MasterPeer) (b : List ℕ) (rlen : ℕ) → Ends (handle_ping net clock s mstp false b rlen)
  unfolding handle_ping
  handle_ping-Ends mstp b rlen = Ends-status _ (_, refl) (_, refl) (_, refl)

  handle_discovery-Ends :
      (mstp : MasterPeer) (b : List ℕ) (rlen : ℕ)
      → IsValid mstp.master_peer_bkt
      → max_bucket_size ≤ length s.items
      → Ends (handle_discovery net clock s mstp false b rlen)
  unfolding handle_discovery
  handle_discovery-Ends mstp b rlen v w =
      let top = get_top_bucket_items-newest mstp.master_peer_bkt s.items 10 v (omega arith) in
      Ends-status _ (_, refl) (Ends-after _ top (_, refl)) (Ends-after _ top (_, refl))

  handle_get_peers-Ends :
      (mstp : MasterPeer) (b : List ℕ) (rlen : ℕ)
      → IsValid mstp.peer_bkt
      → max_bucket_size ≤ length s.items
      → Ends (handle_get_peers net clock s mstp false b rlen)
  unfolding handle_get_peers
  handle_get_peers-Ends mstp b rlen v w =
      let top = get_top_bucket_items-newest mstp.peer_bkt s.items 10 v (omega arith) in
      Ends-status _ (_, refl) (Ends-after _ top (_, refl)) (Ends-after _ top (_, refl))

  found-Ends :
      (found : Option BucketItem) (item : BucketItem) (p m : List ℕ)
      (k : Status × List ℕ × List ℕ × Bool × BucketItem → Outcome Handled)
      → ((st : Status) (x : BucketItem) → Ends (k (st, p, m, false, x)))
      → Ends (
          elim found [ none ↦ done (false, failed, item) | some x ↦ done (false, ok, x) ]
          >>= (λ (held, status, x). done (status, p, m, held, x))
          >>= k)
  found-Ends none item p m k h = h failed item
  found-Ends (some x) item p m k h = h ok x

  handle_find_peer-Ends :
      (mstp : MasterPeer) (b : List ℕ) (rlen : ℕ)
      → IsValid mstp.peer_bkt
      → Ends (handle_find_peer net clock s mstp false b rlen)
  unfolding handle_find_peer find_peer_req_unpack
  handle_find_peer-Ends mstp b rlen v =
      Ends-after _ (bucket_size-count mstp.peer_bkt)
        (elim (Bool-cases (ltb rlen find_peer_req_len)) [
          | inl short ↦ rw short (_, refl)
          | inr long ↦
              rw (long, get_item_by_vlan_ipv4-first mstp.peer_bkt _ s.item v)
                (found-Ends (first_vlan _ (newest mstp.peer_bkt)) s.item _ _ _
                  (λ st x. Ends-status st (_, refl) (_, refl) (_, refl)))
        ])

  handle_registry-Served :
      (mstp : MasterPeer) (b : List ℕ) (rlen : ℕ)
      → IsValid mstp.peer_bkt
      → IsDistinct (newest mstp.peer_bkt)
      → Served
          ((mstp.peer_bkt.count ≡ max_bucket_size)
            × (known (registry_item net clock s.stack_item b).node_id (newest mstp.peer_bkt)
                ≡ false))
          (handle_registry net clock s mstp false b rlen)
  unfolding handle_registry peer_registry_req_unpack
  handle_registry-Served mstp b rlen v d = elim (Bool-cases (ltb rlen 56)) [
    | inl short ↦ rw short (served (_, refl))
    | inr long ↦
        elim (push_front_bucket-IsValid mstp.peer_bkt (registry_item net clock s.stack_item b)
          (clock 0).0 (clock 0).1 v d) [
            | inl (bkt, e, v', d') ↦ rw (long, e) (served (_, refl))
            | inr (e, full, new) ↦ waits (rw (long, e) refl) (full, new)
          ]
  ]

  -- What the handler of a datagram does when both tables are sound.
  pub Handles : MasterPeer → List ℕ → ℕ → Type 0
  Handles mstp b rlen =
      ((h : Handled) × (udp_recv_cb net clock s mstp false b rlen ≡ done h) × IsSound h.0 h.1)
      ⊎ ((udp_recv_cb net clock s mstp false b rlen ≡ blocked)
          × (u8_at b 0 ≡ r_p)
          × (mstp.peer_bkt.count ≡ max_bucket_size)
          × (known (registry_item net clock s.stack_item b).node_id (newest mstp.peer_bkt) ≡ false))

  sound :
      (mstp : MasterPeer) (b : List ℕ) (rlen : ℕ)
      → IsSound mstp false
      → Ends (udp_recv_cb net clock s mstp false b rlen)
      → Handles mstp b rlen
  unfolding Handles
  sound mstp b rlen v (h, e) = inl (h, e, udp_recv_cb-IsSound net clock s mstp false b rlen h v e)

  udp_recv_cb-Served :
      (mstp : MasterPeer) (b : List ℕ) (rlen : ℕ)
      → IsSound mstp false
      → max_bucket_size ≤ length s.items
      → Served
          ((u8_at b 0 ≡ r_p)
            × (mstp.peer_bkt.count ≡ max_bucket_size)
            × (known (registry_item net clock s.stack_item b).node_id (newest mstp.peer_bkt)
                ≡ false))
          (udp_recv_cb net clock s mstp false b rlen)
  unfolding udp_recv_cb
  udp_recv_cb-Served mstp b rlen v w =
      Served-if (ltb pmp_header_len rlen)
        (λ long.
          Served-if (u8_at b 1 == req)
            (λ request.
              Served-if (u8_at b 0 == ping) (λ e. served (handle_ping-Ends mstp b rlen))
                (Served-if (u8_at b 0 == disc)
                  (λ e. served (handle_discovery-Ends mstp b rlen v.masters_valid w))
                  (Served-if (u8_at b 0 == g_ps)
                    (λ e. served (handle_get_peers-Ends mstp b rlen v.peers_valid w))
                    (Served-if (u8_at b 0 == r_p)
                      (λ e.
                        Served-map (λ (full, new). ((==_iff (u8_at b 0) r_p).0 e, full, new))
                          (handle_registry-Served mstp b rlen v.peers_valid v.peers_distinct))
                      (Served-if (u8_at b 0 == f_p)
                        (λ e. served (handle_find_peer-Ends mstp b rlen v.peers_valid)) ignored)))))
            ignored)
        ignored
    where
      ignored : {full : Type 0} → Served full (done (mstp, false, none))
      ignored = served (_, refl)

  pub udp_recv_cb-Handles :
      (mstp : MasterPeer) (b : List ℕ) (rlen : ℕ)
      → IsSound mstp false
      → max_bucket_size ≤ length s.items
      → Handles mstp b rlen
  unfolding Handles
  udp_recv_cb-Handles mstp b rlen v w = elim (udp_recv_cb-Served mstp b rlen v w) [
    | served h ↦ sound mstp b rlen v h
    | waits e (request, full, new) ↦ inr (e, request, full, new)
  ]
