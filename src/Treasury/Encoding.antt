-- ===== src/Treasury/Encoding.antt =====
-- packages/weighted-treasury/src/encoding.ts: a 256-bit number as 32 bytes, big end first.
pub mod RoundTrip
use bufi.Base.{
  ℕ, zero, suc, ◌+◌, ◌-◌, ◌*◌, ◌/◌, ◌%◌, ◌^◌, Option, none, some, List, [], ◌∷◌, ◌++◌, ◌==◌,
  if◌then◌else◌,
}
use bufi.Base.Int.{ℤ, pos, negsuc}

-- `DataView.setBigUint64` writes the `n` low bytes of `w`, the highest first.
unfoldable pub big_endian : ℕ → ℕ → List ℕ
big_endian zero w = []
big_endian (suc n) w = big_endian n (w / 256) ++ (w % 256) ∷ []

-- Round `i` of the loop: the word `(v >> 64 * (3 - i)) & 0xffffffffffffffff`.
unfoldable pub word : ℕ → ℕ → ℕ
word v i = v / 2 ^ (64 * (3 - i)) % 2 ^ 64

unfoldable pub words_from : ℕ → ℕ → ℕ → List ℕ
words_from v zero i = []
words_from v (suc rounds) i = big_endian 8 (word v i) ++ words_from v rounds (suc i)

-- `none` is the `RangeError`: `v < 0n || v >> 256n !== 0n`.
unfoldable pub u256be : ℤ → Option (List ℕ)
u256be (negsuc n) = none
u256be (pos v) = if v / 2 ^ 256 == 0 then some (words_from v 4 0) else none
