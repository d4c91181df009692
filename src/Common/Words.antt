-- ===== src/Common/Words.antt =====
-- Words in memory on a little-endian host, and the byte order functions.
use nose.Common.{ℕ, ◌+◌, ◌*◌, ◌/◌, ◌%◌, ◌^◌, ◌<◌, ◌≡◌, List, [], ◌∷◌, arith, take, drop, get_or}

abbrev pub IsU16 : ℕ → Type 0
IsU16 v = v < 2 ^ 16

abbrev pub IsU32 : ℕ → Type 0
IsU32 v = v < 2 ^ 32

-- `htons`, which on such a host swaps the two bytes; the source uses it in both directions.
unfoldable pub htons : ℕ → ℕ
htons v = v % 256 * 256 + v / 256 % 256

abbrev pub bytes16 : ℕ → List ℕ
bytes16 v = v % 256 ∷ v / 256 % 256 ∷ []

abbrev pub bytes32 : ℕ → List ℕ
bytes32 v = v % 256 ∷ v / 256 % 256 ∷ v / 65536 % 256 ∷ v / 16777216 % 256 ∷ []

-- Fields of a structure laid over a buffer, at their offsets.
abbrev pub u8_at : List ℕ → ℕ → ℕ
u8_at b i = get_or b i 0

abbrev pub u16_at : List ℕ → ℕ → ℕ
u16_at b i = get_or b i 0 + 256 * get_or b (i + 1) 0

abbrev pub u32_at : List ℕ → ℕ → ℕ
u32_at b i =
    get_or b i 0
    + 256 * get_or b (i + 1) 0
    + 65536 * get_or b (i + 2) 0
    + 16777216 * get_or b (i + 3) 0

abbrev pub bytes_at : List ℕ → ℕ → ℕ → List ℕ
bytes_at b i n = take n (drop i b)

pub htons-htons : (v : ℕ) → IsU16 v → htons (htons v) ≡ v
unfolding htons
htons-htons v h = omega arith

pub htons-lt : (v : ℕ) → IsU16 (htons v)
unfolding htons
htons-lt v = omega arith
