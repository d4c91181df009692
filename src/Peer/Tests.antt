-- ===== src/Peer/Tests.antt =====
-- Concrete runs of src/peer.c.
use nose.Common.{
  ℕ, zero, suc, ◌+◌, ◌-◌, ◌≡◌, refl, true, false, none, some, List, [], ◌∷◌, ◌++◌, replicate, done,
  arith,
}
use nose.Common.Words.{htons}
use nose.Bucket.{Bucket}
use nose.Bucket.Newest.{known, newest}
use nose.Pmp.Samples.{plain_inet, id_of, name_of, registry_blk, find_blk, item_of, still_clock}
use nose.Pmp.Build.{find_peer_rsp_pkt, find_peer_req_pkt, peer_registry_req_pkt}
use nose.Crypt.{encrypt_by_aes_256, output_len}
use nose.Crypt.Samples.{plain_aes}
use nose.Pcp.{payload_pkt}
use nose.Nat.Client.{Reply, datagram, recv_fails}
use nose.Peer.{
  Events, send, write_tun, set_ip_configure, tun_round, packet, udp_recv_cb, udp_holing_hello,
}
use nose.Peer.Start.{find_remote_peer, looping, registry_peer}
use nose.Peer.Samples.{plain_zlib, some_peer, fine}
use nose.Peer.Payload.{udp_recv_cb-tun_round}
use nose.Peer.Machine.{Reach, here, next, fp_fires, IsLive, Reach-IsLive}
use nose.Peer.Heartbeat.{beats, broken, beats-lost}
use nose.Peer.Handshake.{hello_exchange, up}
use nose.Peer.Registration.{Ends, registry_peer-Ends}
use nose.Peer.Search.{find_remote_peer-found}
use nose.Common.{Bool, not, ◌==◌, if◌then◌else◌}
use nose.Common.Strings.{c_str}
use nose.Peer.{init_tun_device, buf_len}
use nose.Common.{◌≤◌, ◌*◌, length}
use nose.Common.Words.{u16_at}
use nose.Peer.Limits.{tun_round-bounds}
use nose.Device.Linux.{Tun}
use nose.Device.Linux.Free.{first_free}
use nose.Peer.TunDevice.{init_tun_device_on, init_tun_device_on-refines, command}

abbrev text : List ℕ
text = 69 ∷ 0 ∷ 0 ∷ 20 ∷ []

sent_packet :
    (pkt : List ℕ) × (tun_round plain_aes plain_zlib true (replicate 16 1) (replicate 32 9) text
      ≡ packet pkt)
unfolding tun_round encrypt_by_aes_256 payload_pkt output_len
sent_packet = (_, refl)

udp_recv_cb-tun_round_example :
    udp_recv_cb plain_aes plain_zlib [] fine some_peer.remote_peer_addr sent_packet.0 some_peer
      looping
    ≡ done (some_peer, looping, write_tun text ∷ [])
udp_recv_cb-tun_round_example =
    udp_recv_cb-tun_round plain_aes plain_zlib (replicate 16 1) (replicate 32 9) text sent_packet.0
      [] fine some_peer looping (omega arith) (omega arith) (unfold output_len in omega arith)
      sent_packet.1 (unfold sent_packet output_len in omega arith) refl refl

-- A search without memory for its request, which will be tried again.
waiting : Reach plain_inet plain_aes plain_zlib some_peer looping some_peer looping
waiting =
    next here (fp_fires still_clock none [] (item_of 3) (λ r. recv_fails) false false refl searched)
  where
    searched :
        find_remote_peer plain_inet still_clock none []
          (item_of 3)
          (λ r. recv_fails)
          false
          some_peer
          looping
        ≡ done (false, some_peer, looping)
    searched = unfold find_remote_peer find_peer_req_pkt in refl

Reach-IsLive_example : IsLive some_peer looping
Reach-IsLive_example =
    Reach-IsLive plain_inet plain_aes plain_zlib some_peer some_peer looping refl waiting

abbrev connected : Events
connected = record { hello = false; hb = true; fp = false; tun = some 7; threads = 1 }

beats-lost_example :
    (beats (λ i. fine) 2 some_peer connected ≡ (record some_peer { syn_counts = 3 - 2 }, connected))
    × (beats (λ i. fine) (3 + 1) some_peer connected ≡ broken some_peer connected)
beats-lost_example = beats-lost (λ i. fine) 2 some_peer connected (λ i. refl) refl (omega arith)

hello_exchange_example :
    (syn : List ℕ) × (ack : List ℕ) × (udp_holing_hello fine some_peer looping
      ≡ (some_peer, record looping { hello = true }, send syn ∷ []))
    × (udp_recv_cb plain_aes plain_zlib [] fine some_peer.remote_peer_addr syn some_peer connected
        ≡ done (some_peer, connected, send ack ∷ []))
    × (udp_recv_cb plain_aes plain_zlib [] fine some_peer.remote_peer_addr ack some_peer
          (record looping { hello = true })
        ≡ done (
          record some_peer { helloed = true },
          up fine (record looping { hello = true }),
          set_ip_configure (97 ∷ 0 ∷ []) (98 ∷ 0 ∷ []) ∷ [],
        ))
hello_exchange_example =
    hello_exchange plain_aes plain_zlib [] fine fine fine some_peer some_peer looping connected refl
      refl refl refl refl (omega arith) refl

-- The second try is answered.
abbrev late : List ℕ → ℕ → Reply
late request zero = recv_fails
late request (suc i) = datagram (1 ∷ [])

registry_peer-Ends_example :
    (request : List ℕ) × (peer_registry_req_pkt plain_inet
        (some registry_blk)
        (id_of 109)
        (id_of 97)
        (97 ∷ 0 ∷ [])
        some_peer.nt
      ≡ some request)
    × Ends (late request) 4 (registry_peer plain_inet true (some registry_blk) late some_peer)
registry_peer-Ends_example = registry_peer-Ends plain_inet registry_blk late some_peer

response :
    (bytes : List ℕ) × (find_peer_rsp_pkt plain_inet
        (some registry_blk)
        (id_of 109)
        (id_of 97)
        (item_of 98)
      ≡ some bytes)
unfolding find_peer_rsp_pkt
response = (_, refl)

question :
    (bytes : List ℕ) × (find_peer_req_pkt plain_inet
        (some find_blk)
        (id_of 97)
        (id_of 109)
        (98 ∷ 0 ∷ [])
      ≡ some bytes)
unfolding find_peer_req_pkt
question = (_, refl)

not_known : known (name_of 97 ++ 0 ∷ []) (newest some_peer.peer) ≡ false
unfolding known
not_known = refl

find_remote_peer-found_example :
    (bkt : Bucket) × (find_remote_peer plain_inet still_clock
        (some find_blk)
        (replicate 40 1)
        (item_of 4)
        (λ r. datagram response.0)
        false
        some_peer
        looping
      ≡ done (
        false,
        record some_peer {
          peer = bkt;
          remote_peer_addr = record {
            sin_addr = plain_inet.inet_addr (item_of 98).ipv4;
            sin_port = htons 9998;
          };
        },
        record looping { fp = false; hello = true },
      ))
find_remote_peer-found_example =
    find_remote_peer-found plain_inet still_clock find_blk registry_blk (id_of 109) (name_of 109)
      (id_of 97) (name_of 97) response.0 question.0 (replicate 40 1) (item_of 98) (item_of 4)
      (λ r. datagram response.0) some_peer looping (omega arith)
      (record { wide = refl; ended = refl }) (record { wide = refl; ended = refl }) (omega arith)
      (omega arith) (omega arith) (omega arith) not_known response.1 question.1 refl

-- "tun0" belongs to another program.
abbrev one_taken : ℕ → Bool
one_taken id = id == 0

abbrev some_tun : Tun
some_tun = record {
  open_tun = some 7;
  tunsetiff = λ id name. if one_taken id then none else some name;
  tunsetpersist = λ id. not (one_taken id);
}

init_tun_device_on-refines_example :
    init_tun_device_on some_tun (λ c. true) some_peer looping
    ≡ done (
      (init_tun_device fine some_peer looping).0,
      (init_tun_device fine some_peer looping).1,
      some (command some_peer 1),
    )
unfolding first_free
init_tun_device_on-refines_example =
    init_tun_device_on-refines some_tun one_taken (λ c. true) some_peer looping fine 7
      (record {
        keeps = λ id name h. rw h refl;
        refuses = λ id name h. rw h refl;
        persists = λ id. refl;
      })
      refl (unfold c_str in omega arith) (unfold c_str in omega arith) refl

tun_round-bounds_example :
    (6 ≤ length sent_packet.0)
    × (length sent_packet.0 ≤ 6 + 4 * output_len (length text))
    × (length sent_packet.0 ≤ 6086)
    × (length sent_packet.0 ≤ buf_len)
    × (htons (u16_at sent_packet.0 2) + 4 ≡ length sent_packet.0)
    × (htons (u16_at sent_packet.0 4) ≡ length text)
tun_round-bounds_example =
    tun_round-bounds plain_aes plain_zlib (replicate 16 1) (replicate 32 9) text sent_packet.0
      (omega arith) (omega arith) (unfold output_len in omega arith) sent_packet.1
