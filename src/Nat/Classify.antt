-- ===== src/Nat/Classify.antt =====
-- What do_test of src/stun/nat_test.c answers behind a NAT with a fixed mapping.
use nose.Common.{
  ℕ, ◌<◌, ◌≡◌, refl, sym, ap, ◌∙◌, Bool, true, false, ◌==◌, if◌then◌else◌, List, [], length,
  Outcome, done, Status, ok, error, Bool-cases, inl, inr, some,
}
use nose.Common.Words.{IsU16, IsU32}
use nose.Pmp.{Inet}
use nose.Pmp.Build.{NatType}
use nose.Nat.Client.{
  Memory, Session, test1, test2, classify, classify_again, do_test, same_ip, is_ok, Reply,
  sym_udp_firewall, open_internet, full_cone, sym_nat,
}
use nose.Nat.Kinds.{nat_server, IsPlenty, Knows, test1-answered, test2-passed, test2-stopped}
use mathlib.Core.Path.{subst}

-- What the tests can tell: whether the client has a public address, and whether an answer from
-- another address and port comes through.
unfoldable pub kind : Bool → Bool → ℕ
kind true true = open_internet
kind true false = sym_udp_firewall
kind false true = full_cone
kind false false = sym_nat

module _ (net : Inet) (server : List (List ℕ) → Reply) (memory : ℕ → Memory)
    (trans_id source_addr : List ℕ) (s s₁ s₂ : Session) where
  classify_public :
      (status : Status)
      → test1 net server memory trans_id s ≡ done (ok, s₁)
      → same_ip net server memory trans_id source_addr s₁ ≡ true
      → test2 net server memory trans_id s₁ ≡ done (status, s₂)
      → classify net server memory trans_id source_addr s
        ≡ done (if is_ok status then open_internet else sym_udp_firewall, s₂)
  unfolding classify
  classify_public status e₁ p e₂ = cc

  classify-full_cone :
      test1 net server memory trans_id s ≡ done (ok, s₁)
      → same_ip net server memory trans_id source_addr s₁ ≡ false
      → test2 net server memory trans_id s₁ ≡ done (ok, s₂)
      → classify net server memory trans_id source_addr s ≡ done (full_cone, s₂)
  unfolding classify
  classify-full_cone e₁ p e₂ = cc

  classify-sym_nat :
      (s₃ : Session)
      → test1 net server memory trans_id s ≡ done (ok, s₁)
      → same_ip net server memory trans_id source_addr s₁ ≡ false
      → test2 net server memory trans_id s₁ ≡ done (error, s₂)
      → test1 net server memory trans_id s₂ ≡ done (ok, s₃)
      → same_ip net server memory trans_id source_addr s₃ ≡ false
      → classify net server memory trans_id source_addr s ≡ done (sym_nat, s₃)
  unfolding classify classify_again
  classify-sym_nat s₃ e₁ p e₂ e₃ p₃ = cc

answers :
    {o : Outcome (ℕ × Session)} {s : Session} {a b a' b' : Bool}
    → o ≡ done (kind a' b', s)
    → a ≡ a'
    → b ≡ b'
    → o ≡ done (kind a b, s)
answers e p q = cc

known_kept :
    (net : Inet) (number port : ℕ) (s s' : Session)
    → Knows net number port s
    → s'.external ≡ s.external
    → Knows net number port s'
known_kept net number port s s' k q = record {
  address = ap (λ e. net.inet_addr e.0) q ∙ k.address;
  at_port = ap (λ e. e.1) q ∙ k.at_port;
  room = subst (λ e. 15 < length e.0) (sym q) k.room;
}

module _ (net : Inet) (memory : ℕ → Memory) (trans_id id : List ℕ) (number port : ℕ) (passes : Bool)
    (plenty : IsPlenty memory) (trans_long : length trans_id ≡ 16) (id_long : length id ≡ 16)
    (number_fits : IsU32 number) (port_fits : IsU16 port) where
  open net use {inet_addr}

  abbrev Ends : List ℕ → Session → Type 0
  Ends source_addr s =
      (s' : Session) × (classify net (nat_server id number port passes) memory trans_id source_addr
          s
        ≡ done (kind (inet_addr source_addr == number) passes, s'))
      × Knows net number port s'

  Ends-public :
      (source_addr : List ℕ) (s : Session)
      → 15 < length s.external.0
      → (inet_addr source_addr == number) ≡ true
      → Ends source_addr s
  unfolding kind
  Ends-public source_addr s room p =
      let (s₁, e₁, k₁) =
        test1-answered net memory trans_id id number port passes plenty trans_long id_long
          number_fits port_fits s room in
      let q = ap (λ n. inet_addr source_addr == n) k₁.address ∙ p in
      elim (Bool-cases passes) [
        | inl through ↦
            let (s₂, e₂, k₂) =
              test2-passed net memory trans_id id number port passes plenty trans_long id_long
                number_fits port_fits s₁ through k₁.room in
            (
              s₂,
              answers
                  (classify_public net (nat_server id number port passes) memory trans_id
                    source_addr s s₁ s₂ ok e₁ q e₂)
                  p through,
              k₂,
            )
        | inr stopped ↦
            let (s₂, e₂, x₂) =
              test2-stopped net memory trans_id id number port passes plenty trans_long id_long
                number_fits port_fits s₁ stopped in
            (
              s₂,
              answers
                  (classify_public net (nat_server id number port passes) memory trans_id
                    source_addr s s₁ s₂ error e₁ q e₂)
                  p stopped,
              known_kept net number port s₁ s₂ k₁ x₂,
            )
      ]

  Ends-behind :
      (source_addr : List ℕ) (s : Session)
      → 15 < length s.external.0
      → (inet_addr source_addr == number) ≡ false
      → Ends source_addr s
  unfolding kind
  Ends-behind source_addr s room p =
      let (s₁, e₁, k₁) =
        test1-answered net memory trans_id id number port passes plenty trans_long id_long
          number_fits port_fits s room in
      let q = ap (λ n. inet_addr source_addr == n) k₁.address ∙ p in
      elim (Bool-cases passes) [
        | inl through ↦
            let (s₂, e₂, k₂) =
              test2-passed net memory trans_id id number port passes plenty trans_long id_long
                number_fits port_fits s₁ through k₁.room in
            (
              s₂,
              answers
                  (classify-full_cone net (nat_server id number port passes) memory trans_id
                    source_addr s s₁ s₂ e₁ q e₂)
                  p through,
              k₂,
            )
        | inr stopped ↦
            let (s₂, e₂, x₂) =
              test2-stopped net memory trans_id id number port passes plenty trans_long id_long
                number_fits port_fits s₁ stopped in
            let k₂ = known_kept net number port s₁ s₂ k₁ x₂ in
            let (s₃, e₃, k₃) =
              test1-answered net memory trans_id id number port passes plenty trans_long id_long
                number_fits port_fits s₂ k₂.room in
            let q₃ = ap (λ n. inet_addr source_addr == n) k₃.address ∙ p in
            (
              s₃,
              answers
                  (classify-sym_nat net (nat_server id number port passes) memory trans_id
                    source_addr s s₁ s₂ s₃ e₁ q e₂ e₃ q₃)
                  p stopped,
              k₃,
            )
      ]

  -- With memory for every test and a socket, behind a NAT that maps all requests of the client to
  -- one address and port, and that lets an answer from elsewhere pass or not: do_test finds that
  -- address and port, and its type is open internet or firewall where the address is the client's
  -- own, and full cone or symmetric NAT where it is not. It never is restricted or port restricted.
  pub do_test-kind :
      (sockfd : ℕ) (source_addr : List ℕ) (type : NatType)
      → 15 < length type.ipv4
      → (found : NatType) × (sent : List (List ℕ)) × (do_test net
            (nat_server id number port passes)
            memory
            trans_id
            (some sockfd)
            source_addr
            type
          ≡ done (some sockfd, found, sent))
        × (found.nat_type ≡ kind (inet_addr source_addr == number) passes)
        × (inet_addr found.ipv4 ≡ number)
        × (found.port ≡ port)
  unfolding do_test
  do_test-kind sockfd source_addr type room =
      let start : Session = record { calls = 0; sent = []; external = (type.ipv4, type.port) } in
      let (s, e, k) = ends source_addr start room in
      (
        record {
          nat_type = kind (inet_addr source_addr == number) passes;
          port = s.external.1;
          ipv4 = s.external.0;
        },
        s.sent,
        rw e refl,
        refl,
        k.address,
        k.at_port,
      )
    where
      ends : (source_addr : List ℕ) (s : Session) → 15 < length s.external.0 → Ends source_addr s
      ends source_addr s room = elim (Bool-cases (inet_addr source_addr == number)) [
        | inl p ↦ Ends-public source_addr s room p
        | inr p ↦ Ends-behind source_addr s room p
      ]
