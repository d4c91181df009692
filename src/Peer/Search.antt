-- ===== src/Peer/Search.antt =====
-- The search of src/peer.c, when the master peer of src/master_peer.c answers.
use nose.Common.{
  ℕ, ◌%◌, ◌^◌, ◌<◌, ◌≡◌, refl, ap, ◌∙◌, Bool, true, false, some, List, [], ◌∷◌, ◌++◌, length, drop,
  replicate, done, Outcome, Status, arith, eq_of_some, take_long, take-length, length-append, ok,
}
use nose.Common.Strings.{memcpy}
use nose.Common.Words.{htons, IsU16, htons-htons, htons-lt}
use nose.Bucket.{BucketItem, Bucket}
use nose.Bucket.Newest.{IsValid, known, newest, stamped}
use nose.Bucket.Push.{push_fresh, pushed}
use nose.Bucket.Access.{get_front_bucket-pushed}
use nose.Pmp.{Inet, PmpFindPeerReq, PmpPeerRegistryReq, peer_registry_req_bytes}
use nose.Pmp.Build.{find_peer_rsp_pkt, find_peer_req_pkt}
use nose.Pmp.Parse.{registry_item, peer_registry_req_unpack}
use nose.Pmp.Fields.{IsNodeId, memcpy-id, addr-put_text, id_taken_lem}
use nose.Pmp.Registry.{IsRegistryReq, IsWide, registry_item-bytes, unpack-pushes}
use nose.Nat.Client.{Reply, datagram, bufsiz}
use nose.Peer.{Peer, Events}
use nose.Peer.Start.{find_remote_peer}

module _ (net : Inet) where
  -- The structure that find_peer_rsp_pkt sends.
  sent_rsp : PmpPeerRegistryReq → BucketItem → List ℕ → List ℕ → PmpPeerRegistryReq
  sent_rsp blk item m s = record blk {
    header = record { type = 4; code = 1 };
    nat_type = htons (item.nat_type % 2 ^ 16);
    port = htons item.port;
    ipv4 = net.inet_addr item.ipv4;
    vlan_ipv4 = net.inet_addr item.vlan_ipv4;
    mstp_id = m;
    peer_id = s;
  }

  sent_rsp-IsRegistryReq :
      (blk : PmpPeerRegistryReq) (item : BucketItem) (m s : List ℕ)
      → length m ≡ 20
      → length s ≡ 20
      → IsRegistryReq (sent_rsp blk item m s)
  unfolding sent_rsp
  sent_rsp-IsRegistryReq blk item m s hm hs = record {
    nat_type_fits = htons-lt (item.nat_type % 2 ^ 16);
    port_fits = htons-lt item.port;
    ipv4_fits = net.addr_lt item.ipv4;
    vlan_fits = net.addr_lt item.vlan_ipv4;
    mstp_wide = hm;
    peer_wide = hs;
  }

  sent_rsp-bytes :
      (blk : PmpPeerRegistryReq) (mstp m peer s bytes : List ℕ) (item : BucketItem)
      → IsRegistryReq blk
      → IsNodeId mstp m
      → IsNodeId peer s
      → find_peer_rsp_pkt net (some blk) mstp peer item ≡ some bytes
      → peer_registry_req_bytes (sent_rsp blk item m s) ≡ bytes
  unfolding find_peer_rsp_pkt sent_rsp
  sent_rsp-bytes blk mstp m peer s bytes item v hm hs e = eq_of_some (
      rw (memcpy-id blk.mstp_id mstp m hm v.mstp_wide, memcpy-id blk.peer_id peer s hs v.peer_wide)
        at e)

  sent_rsp-length :
      (blk : PmpPeerRegistryReq) (item : BucketItem) (m s : List ℕ)
      → length m ≡ 20
      → length s ≡ 20
      → length (peer_registry_req_bytes (sent_rsp blk item m s)) ≡ 56
  unfolding sent_rsp
  sent_rsp-length blk item m s hm hs = omega (arith, length-append m s)

  -- What the seeker knows after the response: an item with the address and port of `item`.
  record Reads (bkt : Bucket) (item x : BucketItem)
      (read : Outcome (Status × List ℕ × Bool × Bucket)) : Type 0 where
    node_id : List ℕ
    done_so : read ≡ done (ok, node_id, false, pushed bkt x)
    ipv4_is : net.inet_addr x.ipv4 ≡ net.inet_addr item.ipv4
    port_is : x.port ≡ item.port

  response-Reads :
      (clock : ℕ → ℕ × ℕ) (blk : PmpPeerRegistryReq) (mstp m peer s bytes rest : List ℕ)
      (item stack_item : BucketItem) (bkt : Bucket)
      → IsRegistryReq blk
      → IsNodeId mstp m
      → IsNodeId peer s
      → IsU16 item.port
      → IsWide net stack_item
      → IsValid bkt
      → bkt.count < 255
      → known (s ++ 0 ∷ []) (newest bkt) ≡ false
      → find_peer_rsp_pkt net (some blk) mstp peer item ≡ some bytes
      → (length bytes ≡ 56)
        × (x : BucketItem) × Reads bkt item x (
            peer_registry_req_unpack net clock
              (replicate 21 0)
              false
              bkt
              stack_item
              (bytes ++ rest)
              (length bytes))
  response-Reads clock blk mstp m peer s bytes rest item stack_item bkt v hm hs p w k c fresh e =
      let b = sent_rsp-bytes blk mstp m peer s bytes item v hm hs e in
      let sr = sent_rsp blk item m s in
      let good = sent_rsp-IsRegistryReq blk item m s hm.wide hs.wide in
      let got = registry_item-bytes net clock stack_item sr rest good in
      let x = registry_item net clock stack_item (peer_registry_req_bytes sr ++ rest) in
      let n : x.node_id ≡ s ++ 0 ∷ [] =
        ap (λ (y : BucketItem). y.node_id) got
        ∙ (unfold sent_rsp in id_taken_lem stack_item.node_id s w.node_wide hs.wide) in
      let long = sent_rsp-length blk item m s hm.wide hs.wide in
      let fresh' : known x.node_id (newest bkt) ≡ false =
        ap (λ i. known i (newest bkt)) n ∙ fresh in
      rw (← b) (
        long,
        stamped x (clock 0).0 (clock 0).1,
        record {
          node_id = s ++ 0 ∷ [];
          done_so =
              unpack-pushes net clock (replicate 21 0) s (peer_registry_req_bytes sr ++ rest) false
                bkt stack_item (length (peer_registry_req_bytes sr)) (omega (arith, long)) refl
                hs.wide n
              ∙ (rw (push_fresh bkt x (clock 0).0 (clock 0).1 k (omega arith) fresh') refl);
          ipv4_is =
              ap (λ (y : BucketItem). net.inet_addr y.ipv4) got
              ∙ (unfold sent_rsp in
                  addr-put_text net stack_item.ipv4 (net.inet_addr item.ipv4)
                    (net.addr_lt item.ipv4) (omega arith));
          port_is =
              ap (λ (y : BucketItem). y.port) got ∙ (unfold sent_rsp in htons-htons item.port p);
        },
      )

  -- When the timer fp_event of a peer fires, with memory for the request, the mutex free and room in
  -- the peer's table, and the master peer answers with the response that it builds about an item,
  -- the peer takes the item's address and port for those of the other peer, and hello packets go out
  -- in place of further searches. The name in the response, which is the seeker's own, must not be
  -- in the table yet.
  pub find_remote_peer-found :
      (clock : ℕ → ℕ × ℕ) (fblk : PmpFindPeerReq) (blk : PmpPeerRegistryReq)
      (mstp m peer s bytes request stack : List ℕ) (item stack_item : BucketItem)
      (master : List ℕ → Reply) (pr : Peer) (ev : Events)
      → IsRegistryReq blk
      → IsNodeId mstp m
      → IsNodeId peer s
      → IsU16 item.port
      → IsWide net stack_item
      → IsValid pr.peer
      → pr.peer.count < 255
      → known (s ++ 0 ∷ []) (newest pr.peer) ≡ false
      → find_peer_rsp_pkt net (some blk) mstp peer item ≡ some bytes
      → find_peer_req_pkt net (some fblk) pr.peer_id pr.mstp_id pr.vlan_remote_ipv4 ≡ some request
      → master request ≡ datagram bytes
      → (bkt : Bucket) × (find_remote_peer net clock (some fblk) stack stack_item master false pr ev
          ≡ done (
            false,
            record pr {
              peer = bkt;
              remote_peer_addr = record {
                sin_addr = net.inet_addr item.ipv4;
                sin_port = htons item.port;
              };
            },
            record ev { fp = false; hello = true },
          ))
  unfolding find_remote_peer
  find_remote_peer-found clock fblk blk mstp m peer s bytes request stack item stack_item master pr
        ev v hm hs p w k c fresh e q a =
      let rest = drop (length bytes) (memcpy stack request (length request)) in
      let (long, x, r) =
        response-Reads clock blk mstp m peer s bytes rest item stack_item pr.peer v hm hs p w k c
          fresh e in
      (
        pushed pr.peer x,
        rw
            (
              q,
              a,
              take_long bufsiz bytes (omega (arith, long)),
              take-length bytes,
              r.done_so,
              get_front_bucket-pushed pr.peer x k c,
              r.ipv4_is,
              r.port_is,
              find_remote_peer,
            )
            refl,
      )
