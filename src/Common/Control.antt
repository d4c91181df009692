-- ===== src/Common/Control.antt =====
-- How a C function ends: it returns, it waits for ever on a mutex, or it does something that C
-- leaves undefined (a read or write out of bounds, a division by zero). `Status` is nose.h.
use Prim.Native.Nat.{ℕ}
use mathlib.Core.Path.{◌≡◌, refl}
use mathlib.Core.Logic.{◌⊎◌, inl, inr}
use mathlib.Core.List.{List}
use mathlib.Core.Option.{none, some}
use nose.Common.Lists.{length, set, get_elem?}
use nose.Common.Tests.{ltb, if◌then◌else◌}

pub data Outcome {ℓ} (A : Type ℓ) : Type ℓ where
  done : A → Outcome A
  blocked : Outcome A
  fault : Outcome A

infixl 5 ◌>>=◌ ◌>>◌
abbrev pub ◌>>=◌ {ℓ κ} : {A : Type ℓ} {B : Type κ} → Outcome A → (A → Outcome B) → Outcome B
done a >>= f = f a
blocked >>= f = blocked
fault >>= f = fault

abbrev pub ◌>>◌ {ℓ} : {B : Type ℓ} → Outcome (Unit {0}) → Outcome B → Outcome B
m >> k = m >>= λ _. k

pub >>=-eq-done {ℓ κ} :
    {A : Type ℓ} {B : Type κ} (m : Outcome A) (f : A → Outcome B) {b : B}
    → (m >>= f) ≡ done b
    → (a : A) × (m ≡ done a) × (f a ≡ done b)
>>=-eq-done (done a) f h = (a, refl, h)
>>=-eq-done blocked f h = cc
>>=-eq-done fault f h = cc

pub Outcome-cases {ℓ} :
    {A : Type ℓ} (m : Outcome A) → ((a : A) × (m ≡ done a)) ⊎ ((m ≡ blocked) ⊎ (m ≡ fault))
Outcome-cases (done a) = inl (a, refl)
Outcome-cases blocked = inr (inl refl)
Outcome-cases fault = inr (inr refl)

-- OK, FAILED and ERROR.
pub data Status : Type 0 where
  ok failed error : Status

-- A write into an array, and a read from one.
module _ {ℓ} {A : Type ℓ} where
  unfoldable pub store : List A → ℕ → A → Outcome (List A)
  store xs i v = if ltb i (length xs) then done (set xs i v) else fault

  unfoldable pub load : List A → ℕ → Outcome A
  load xs i = elim (get_elem? xs i) [ none ↦ fault | some a ↦ done a ]
