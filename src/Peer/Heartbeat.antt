-- ===== src/Peer/Heartbeat.antt =====
-- The heartbeat of src/peer.c against a silent peer.
use nose.Common.{ℕ, zero, suc, ◌+◌, ◌-◌, ◌≤◌, ◌<◌, ◌≡◌, refl, ap, ◌∙◌, true, false, none, arith}
use nose.Pcp.{hb_syn}
use nose.Peer.{Peer, Events, Env, peer_heartbeat}

-- The timer hb_event fires n times, with nothing between.
unfoldable pub beats : (ℕ → Env) → ℕ → Peer → Events → Peer × Events
beats envs zero pr ev = (pr, ev)
beats envs (suc n) pr ev = let h = peer_heartbeat (envs n) pr ev in beats envs n h.0 h.1

beat_step :
    (env : Env) (pr : Peer) (ev : Events)
    → env.mem ≡ true
    → 0 < pr.syn_counts
    → ((peer_heartbeat env pr ev).0 ≡ record pr { syn_counts = pr.syn_counts - 1 })
      × ((peer_heartbeat env pr ev).1 ≡ record ev { hb = true })
unfolding peer_heartbeat hb_syn
beat_step env pr ev m h = ground arith

beat_last :
    (env : Env) (pr : Peer) (ev : Events)
    → pr.syn_counts ≡ 0
    → ((peer_heartbeat env pr ev).0 ≡ record pr { helloed = false; syn_counts = 3 })
      × ((peer_heartbeat env pr ev).1 ≡ record ev { hello = true; hb = false; tun = none })
unfolding peer_heartbeat
beat_last env pr ev h = ground arith

beats_next :
    (envs : ℕ → Env) (n : ℕ) (pr pr' : Peer) (ev ev' : Events)
    → (peer_heartbeat (envs n) pr ev).0 ≡ pr'
    → (peer_heartbeat (envs n) pr ev).1 ≡ ev'
    → beats envs (suc n) pr ev ≡ beats envs n pr' ev'
unfolding beats
beats_next envs n pr pr' ev ev' p q i = beats envs n (p i) (q i)

beats_zero : (envs : ℕ → Env) (pr : Peer) (ev : Events) → beats envs 0 pr ev ≡ (pr, ev)
unfolding beats
beats_zero envs pr ev = refl

beats-some :
    (envs : ℕ → Env) (n : ℕ) (pr : Peer) (ev : Events)
    → ((i : ℕ) → (envs i).mem ≡ true)
    → ev.hb ≡ true
    → n ≤ pr.syn_counts
    → beats envs n pr ev ≡ (record pr { syn_counts = pr.syn_counts - n }, ev)
beats-some envs zero pr ev m b h = beats_zero envs pr ev ∙ (ground arith)
beats-some envs (suc n) pr ev m b h =
    let (p, q) = beat_step (envs n) pr ev (m n) (omega arith) in
    let left : pr.syn_counts - 1 - n ≡ pr.syn_counts - suc n = omega arith in
    beats_next envs n pr _ ev _ p q
    ∙ beats-some envs n (record pr { syn_counts = pr.syn_counts - 1 }) (record ev { hb = true }) m
        refl (omega arith)
    ∙ (ground (arith, left))

abbrev pub broken : Peer → Events → Peer × Events
broken pr ev = (
  record pr { helloed = false; syn_counts = 3 },
  record ev { hello = true; hb = false; tun = none },
)

beats-broken :
    (envs : ℕ → Env) (n : ℕ) (pr : Peer) (ev : Events)
    → ((i : ℕ) → (envs i).mem ≡ true)
    → pr.syn_counts ≡ n
    → beats envs (suc n) pr ev ≡ broken pr ev
beats-broken envs zero pr ev m h =
    let (p, q) = beat_last (envs 0) pr ev h in
    beats_next envs 0 pr _ ev _ p q ∙ beats_zero envs (broken pr ev).0 (broken pr ev).1
beats-broken envs (suc n) pr ev m h =
    let (p, q) = beat_step (envs (suc n)) pr ev (m (suc n)) (omega arith) in
    beats_next envs (suc n) pr _ ev _ p q
    ∙ beats-broken envs n (record pr { syn_counts = pr.syn_counts - 1 }) (record ev { hb = true }) m
        (omega arith)

-- With memory for its packets and a heartbeat that waits, a peer that hears nothing keeps its
-- connection for as many heartbeats as `syn_counts` says, each of which takes one off the count;
-- the heartbeat after these gives the connection up: the device is closed, the count is 3 again, and
-- hello packets go out in place of heartbeats.
pub beats-lost :
    (envs : ℕ → Env) (n : ℕ) (pr : Peer) (ev : Events)
    → ((i : ℕ) → (envs i).mem ≡ true)
    → ev.hb ≡ true
    → n ≤ pr.syn_counts
    → (beats envs n pr ev ≡ (record pr { syn_counts = pr.syn_counts - n }, ev))
      × (beats envs (pr.syn_counts + 1) pr ev ≡ broken pr ev)
beats-lost envs n pr ev m b h =
    let one : pr.syn_counts + 1 ≡ suc pr.syn_counts = omega arith in
    (
      beats-some envs n pr ev m b h,
      ap (λ k. beats envs k pr ev) one ∙ beats-broken envs pr.syn_counts pr ev m refl,
    )
