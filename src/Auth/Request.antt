-- ===== src/Auth/Request.antt =====
-- The authentication requests of src/auth.c at their receiver.
use nose.Common.{
  ℕ, zero, suc, ◌+◌, ◌<◌, ◌/◌, ◌%◌, get_or, ◌≡◌, ◌≢◌, refl, ap, ◌∙◌, Bool, false, ◌==◌, some, List,
  [], ◌∷◌, ◌++◌, length, take, drop, replicate, Outcome, done, arith, ok, Outcome-cases, inl, inr,
  >>=-eq-done,
}
use nose.Common.Strings.{memcpy, same_str, c_str, bytes_eq}
use nose.Common.Words.{u16_at}
use nose.Utils.{base, gen_sha256, hex, combine_ser_chall_id}
use nose.Utils.Names.{get_or-char}
use nose.Auth.{auth_hash, auth_header, auth_request_pkt, auth_request_validate}

digit-nonzero : (i : ℕ) → i < 36 → get_or base i 0 ≢ 0
digit-nonzero i h z = ground (arith, get_or-char base i 0 refl h)

text-same : (c : ℕ) (cs rest : List ℕ) → c ≢ 0 → same_str (c ∷ cs) (0 ∷ rest) ≡ false
unfolding c_str bytes_eq
text-same c cs rest h = let some_char : (c == 0) ≡ false = ground arith in rw some_char refl

-- A hash is not the empty text.
hash-same :
    (digest rest : List ℕ) → 0 < length digest → same_str (hex digest ++ 0 ∷ []) (0 ∷ rest) ≡ false
unfolding hex
hash-same [] rest h = absurd (omega arith)
hash-same (c ∷ cs) rest h = text-same _ _ rest (digit-nonzero (c / 16 % 16) (omega arith))

drop-drop : (n m k : ℕ) (xs : List ℕ) → k ≡ n + m → drop m (drop n xs) ≡ drop k xs
drop-drop zero m k xs h = let e : m ≡ k = omega arith in rw e refl
drop-drop (suc n) m zero xs h = absurd (omega arith)
drop-drop (suc n) zero (suc k) [] h = refl
drop-drop (suc n) (suc m) (suc k) [] h = refl
drop-drop (suc n) m (suc k) (x ∷ xs) h = drop-drop n m k xs (omega arith)

-- The buffer after a request was built in it, if one was.
request_buffer :
    (peek : ℕ → Outcome (List ℕ)) (sha256 : List ℕ → List ℕ) (mem mem' : Bool) (id challenge n : ℕ)
    (s_key buffer buffer' : List ℕ)
    → auth_request_pkt peek sha256 mem mem' id challenge s_key buffer ≡ done (some n, buffer')
    → buffer' ≡ memcpy buffer (auth_header 0 id) 8
unfolding auth_request_pkt
request_buffer peek sha256 mem mem' id challenge n s_key buffer buffer' e = ground arith

hash_differs :
    (peek : ℕ → Outcome (List ℕ)) (sha256 : List ℕ → List ℕ) (key hash buffer rest : List ℕ)
    (challenge id : ℕ)
    → ((input : List ℕ) → 0 < length (sha256 input))
    → drop 12 buffer ≡ 0 ∷ rest
    → auth_hash peek sha256 key challenge id ≡ done hash
    → same_str hash (drop 12 buffer) ≡ false
unfolding auth_hash gen_sha256
hash_differs peek sha256 key hash buffer rest challenge id d h p =
    let ((input, n), q, r) =
      >>=-eq-done (combine_ser_chall_id peek key challenge id (replicate 256 0)) _ p in
    let made : hash ≡ hex (sha256 (take n input)) ++ 0 ∷ [] = cc in
    rw (h, made) (hash-same (sha256 (take n input)) rest (d (take n input)))

validated :
    (peek : ℕ → Outcome (List ℕ)) (sha256 : List ℕ → List ℕ) (buffer rest key : List ℕ) (size : ℕ)
    → ((input : List ℕ) → 0 < length (sha256 input))
    → drop 12 buffer ≡ 0 ∷ rest
    → auth_request_validate peek sha256 buffer size key ≢ done ok
unfolding auth_request_validate
validated peek sha256 buffer rest key size d h e =
    elim (Outcome-cases (auth_hash peek sha256 key (u16_at buffer 8) (u16_at buffer 2))) [
      | inl (hash, p) ↦ ground (
        arith,
        hash_differs peek sha256 key hash buffer rest (u16_at buffer 8) (u16_at buffer 2) d h p,
      )
      | inr never ↦ ground arith
    ]

-- A request that auth_request_pkt builds in a cleared buffer is never accepted by auth_request_validate,
-- whatever keys the two sides have: the hash never gets into the buffer. It may also be that the
-- reading of the addresses faults. SHA-256 gives some bytes.
pub validate-request :
    (peek peek' : ℕ → Outcome (List ℕ)) (sha256 : List ℕ → List ℕ) (mem mem' : Bool)
    (id challenge n size : ℕ) (s_key key buffer' rest : List ℕ) (buffer : List ℕ)
    → ((input : List ℕ) → 0 < length (sha256 input))
    → drop 12 buffer ≡ 0 ∷ rest
    → auth_request_pkt peek sha256 mem mem' id challenge s_key buffer ≡ done (some n, buffer')
    → auth_request_validate peek' sha256 buffer' size key ≢ done ok
validate-request peek peek' sha256 mem mem' id challenge n size s_key key buffer' rest buffer d h
      e =
    validated peek' sha256 buffer' rest key size d (
      ap (drop 12) (request_buffer peek sha256 mem mem' id challenge n s_key buffer buffer' e)
      ∙ drop-drop 8 4 12 buffer refl
      ∙ h)
