-- ===== src/Auth/Tests.antt =====
-- Concrete runs of src/auth.c.
use nose.Common.{ℕ, ◌≡◌, ◌≢◌, refl, true, some, List, [], ◌∷◌, replicate, Outcome, done, ok, arith}
use nose.Auth.{auth_request_pkt, auth_request_validate, auth_hash, htonl}
use nose.Auth.Request.{validate-request}
use nose.Utils.{combine_ser_chall_id}
use nose.Common.Strings.{c_str}

-- Any address can be read.
abbrev open_memory : ℕ → Outcome (List ℕ)
open_memory address = done (1 ∷ 2 ∷ [])

abbrev plain_sha256 : List ℕ → List ℕ
plain_sha256 input = replicate 32 5

built :
    (bytes : List ℕ) × (auth_request_pkt open_memory plain_sha256 true true 7 9
        (107 ∷ 0 ∷ [])
        (replicate 76 0)
      ≡ done (some 76, bytes))
unfolding auth_request_pkt auth_hash combine_ser_chall_id c_str
built = (_, refl)

validate-request_here :
    auth_request_validate open_memory plain_sha256 built.0 76 (107 ∷ 0 ∷ []) ≢ done ok
validate-request_here =
    validate-request open_memory open_memory plain_sha256 true true 7 9 76 76 (107 ∷ 0 ∷ [])
      (107 ∷ 0 ∷ []) built.0 (replicate 63 0) (replicate 76 0) (λ input. omega arith) refl built.1

-- An id of 16 bits does not survive.
small_id : htonl 7 ≡ 117440512
unfolding htonl
small_id = refl
