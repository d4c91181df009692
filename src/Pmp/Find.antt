-- ===== src/Pmp/Find.antt =====
-- Find-peer requests of src/pmp.c: the answer that the bucket gives to a request that was built.
use nose.Common.{
  ℕ, ◌^◌, ◌≤◌, ◌<◌, ◌≡◌, refl, sym, ap, ◌∙◌, Bool, false, List, [], ◌∷◌, ◌++◌, length, Option, some,
  none, arith, Status, ok, failed, le→ltb, eq_of_some, Outcome, done, ◌>>=◌, replicate,
  length-append,
}
use nose.Common.Strings.{c_str}
use nose.Bucket.{BucketItem, Bucket, get_item_by_vlan_ipv4}
use nose.Bucket.Newest.{newest, IsValid}
use nose.Bucket.Access.{first_vlan, get_item_by_vlan_ipv4-first}
use nose.Pmp.{Inet, PmpFindPeerReq, find_peer_req_bytes}
use nose.Pmp.Build.{find_peer_req_pkt}
use nose.Pmp.Parse.{find_peer_req_unpack, find_peer_req_len, put_text}
use nose.Pmp.Fields.{IsNodeId, first_of_two, second_of_two, memcpy-id, id_taken_lem, c_str-put_text}
use nose.Pmp.Registry.{u32_bytes}

module _ (net : Inet) where
  -- The array in which the reader keeps the address that it looks for.
  abbrev pub wanted : ℕ → List ℕ
  wanted a = put_text (replicate 16 0) (net.inet_ntoa a)

  pub c_str-wanted : (a : ℕ) → c_str (wanted a) ≡ net.inet_ntoa a
  c_str-wanted a =
      c_str-put_text (replicate 16 0) (net.inet_ntoa a) (net.ntoa_text a)
        (omega (arith, net.ntoa_short a))

  sent_find : PmpFindPeerReq → ℕ → List ℕ → List ℕ → PmpFindPeerReq
  sent_find fp a m s = record fp {
    header = record { type = 4; code = 0 };
    vlan_ipv4 = a;
    mstp_id = m;
    peer_id = s;
  }

  sent_find-bytes :
      (fp : PmpFindPeerReq) (peer s mstp m vlan bytes : List ℕ)
      → length fp.mstp_id ≡ 20
      → length fp.peer_id ≡ 20
      → IsNodeId peer s
      → IsNodeId mstp m
      → find_peer_req_pkt net (some fp) peer mstp vlan ≡ some bytes
      → find_peer_req_bytes (sent_find fp (net.inet_addr vlan) m s) ≡ bytes
  unfolding find_peer_req_pkt sent_find
  sent_find-bytes fp peer s mstp m vlan bytes fm fs hs hm e =
      eq_of_some (rw (memcpy-id fp.mstp_id mstp m hm fm, memcpy-id fp.peer_id peer s hs fs) at e)

  -- A find-peer request takes 48 bytes.
  pub length-find_req :
      (fp : PmpFindPeerReq) (peer s mstp m vlan bytes : List ℕ)
      → length fp.mstp_id ≡ 20
      → length fp.peer_id ≡ 20
      → IsNodeId peer s
      → IsNodeId mstp m
      → find_peer_req_pkt net (some fp) peer mstp vlan ≡ some bytes
      → length bytes ≡ find_peer_req_len
  length-find_req fp peer s mstp m vlan bytes fm fs hs hm e =
      rw (← sent_find-bytes fp peer s mstp m vlan bytes fm fs hs hm e)
        (unfold sent_find in omega (arith, hm.wide, hs.wide, length-append m s))

  -- What the reader answers, from what the search answered.
  abbrev answer :
      List ℕ
      → List ℕ
      → Outcome (Bool × Status × BucketItem)
      → Outcome (Status × List ℕ × List ℕ × Bool × BucketItem)
  answer s m r = r >>= λ (held, status, item). done (status, s ++ 0 ∷ [], m ++ 0 ∷ [], held, item)

  find-bytes :
      (clock : ℕ → ℕ × ℕ) (fp : PmpFindPeerReq) (a size : ℕ) (s m peer_id mstp_id rest : List ℕ)
      (held : Bool) (bkt : Bucket) (item : BucketItem)
      → length s ≡ 20
      → length m ≡ 20
      → length peer_id ≡ 21
      → length mstp_id ≡ 21
      → find_peer_req_len ≤ size
      → a < 2 ^ 32
      → find_peer_req_unpack net clock peer_id mstp_id held bkt item
          (find_peer_req_bytes (sent_find fp a m s) ++ rest)
          size
        ≡ answer s m (get_item_by_vlan_ipv4 held bkt (wanted a) item)
  unfolding find_peer_req_unpack sent_find
  find-bytes clock fp a size s m peer_id mstp_id rest held bkt item hs hm hp hq h b = rw (
    le→ltb size find_peer_req_len h,
    u32_bytes a b,
    first_of_two 20 m s rest (sym hm),
    second_of_two 20 20 m s rest (sym hm) (sym hs),
    id_taken_lem peer_id s hp hs,
    id_taken_lem mstp_id m hq hm,
  )

  -- The newest item whose virtual address is this number, written as inet_ntoa writes it.
  unfoldable pub first_addr : ℕ → List BucketItem → Option BucketItem
  first_addr a xs = first_vlan (wanted a) xs

  -- A find-peer request that is built over any block of memory from malloc, followed by anything
  -- and read at its size of 48 bytes or more from a bucket within its array with the mutex free,
  -- gives the names of the sender and of the master peer, and OK with the newest item that has the
  -- address, or FAILED with the caller's item.
  pub find_req-answer :
      (clock : ℕ → ℕ × ℕ) (fp : PmpFindPeerReq) (size : ℕ)
      (peer s mstp m vlan bytes peer_id mstp_id rest : List ℕ) (bkt : Bucket) (item : BucketItem)
      → length fp.mstp_id ≡ 20
      → length fp.peer_id ≡ 20
      → IsNodeId peer s
      → IsNodeId mstp m
      → length peer_id ≡ 21
      → length mstp_id ≡ 21
      → find_peer_req_len ≤ size
      → IsValid bkt
      → find_peer_req_pkt net (some fp) peer mstp vlan ≡ some bytes
      → find_peer_req_unpack net clock peer_id mstp_id false bkt item (bytes ++ rest) size
        ≡ elim (first_addr (net.inet_addr vlan) (newest bkt)) [
          | none ↦ done (failed, s ++ 0 ∷ [], m ++ 0 ∷ [], false, item)
          | some x ↦ done (ok, s ++ 0 ∷ [], m ++ 0 ∷ [], false, x)
        ]
  unfolding first_addr
  find_req-answer clock fp size peer s mstp m vlan bytes peer_id mstp_id rest bkt item fm fs hs hm
        hp hq h v e =
      let b = sent_find-bytes fp peer s mstp m vlan bytes fm fs hs hm e in
      rw (← b) (
        find-bytes clock fp (net.inet_addr vlan) size s m peer_id mstp_id rest false bkt item
          hs.wide hm.wide hp hq h (net.addr_lt vlan)
        ∙ ap (answer s m) (get_item_by_vlan_ipv4-first bkt (wanted (net.inet_addr vlan)) item v)
        ∙ cases (first_vlan (wanted (net.inet_addr vlan)) (newest bkt)))
    where
      cases :
          (o : Option BucketItem)
          → answer s m (elim o [ none ↦ done (false, failed, item) | some x ↦ done (false, ok, x) ])
            ≡ elim o [
              | none ↦ done (failed, s ++ 0 ∷ [], m ++ 0 ∷ [], false, item)
              | some x ↦ done (ok, s ++ 0 ∷ [], m ++ 0 ∷ [], false, x)
            ]
      cases none = refl
      cases (some x) = refl
