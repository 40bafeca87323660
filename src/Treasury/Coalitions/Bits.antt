-- ===== src/Treasury/Coalitions/Bits.antt =====
-- `popcount` of coalitions.ts: `m &= m - 1` takes the lowest set bit out, so the loop ends within
-- its fuel and counts the members that the mask chooses.
use Prim.Native.Nat.{bit_and, bit_and-bitwise, digits, min}
use bufi.Base.{
  ℕ, zero, suc, ◌+◌, ◌-◌, ◌*◌, ◌/◌, ◌%◌, ◌^◌, ◌≤◌, ◌<◌, ◌≡◌, refl, inl, inr, List, [], ◌∷◌, arith,
  ◌==◌, length, Bool-cases,
}
use bufi.Treasury.Coalitions.{WeightedMember, popcount_loop, popcount, chosen}
use bufi.Treasury.Coalitions.Masks.{chosen-nil, chosen-cons}

abbrev shared_bits : ℕ → ℕ → ℕ → ℕ
shared_bits = digits (λ b. 0) min

shared_bits_self : (n h : ℕ) → h ≤ n → shared_bits n h h ≡ h
shared_bits_self zero h le = omega arith
shared_bits_self (suc n) zero le = refl
shared_bits_self (suc n) (suc h) le = omega (arith, shared_bits_self n (suc h / 2) (omega arith))

-- The set bits among the lowest `k`.
pub ones : ℕ → ℕ → ℕ
ones zero m = 0
ones (suc k) m = m % 2 + ones k (m / 2)

abbrev Lowered : ℕ → ℕ → ℕ → Type 0
Lowered k m d = (ones k d + 1 ≡ ones k m) × (d < m)

half_even : (h : ℕ) → h * 2 / 2 ≡ h
half_even h = omega arith

half_odd : (h : ℕ) → (h * 2 + 1) / 2 ≡ h
half_odd h = omega arith

Lowered-odd : (k h : ℕ) → Lowered (suc k) (h * 2 + 1) (h * 2)
unfolding ones
Lowered-odd k h = rw (half_even, half_odd) (omega arith)

Lowered-even : (k h d : ℕ) → Lowered k h d → Lowered (suc k) (h * 2) (d * 2)
unfolding ones
Lowered-even k h d l = rw (half_even h, half_even d) (omega arith)

shared_bits_step :
    (n a b : ℕ)
    → 0 < a
    → shared_bits (suc n) a b ≡ shared_bits n (a / 2) (b / 2) * 2 + min (a % 2) (b % 2)
shared_bits_step n zero b positive = absurd (omega arith)
shared_bits_step n (suc a) b positive = refl

shared_bits_even :
    (n h : ℕ) → 0 < h → shared_bits (suc n) (h * 2) (h * 2 - 1) ≡ shared_bits n h (h - 1) * 2
shared_bits_even n h positive =
    rw (shared_bits_step n (h * 2) (h * 2 - 1) (omega arith), half_even h, pred_half) (omega arith)
  where
    pred_half : (h * 2 - 1) / 2 ≡ h - 1
    pred_half = omega arith

shared_bits_odd : (n h : ℕ) → h ≤ n → shared_bits (suc n) (h * 2 + 1) (h * 2 + 1 - 1) ≡ h * 2
shared_bits_odd n h le =
    rw (shared_bits_step n (h * 2 + 1) (h * 2 + 1 - 1) (omega arith), half_odd h, pred_half)
      (omega (arith, shared_bits_self n h le))
  where
    pred_half : (h * 2 + 1 - 1) / 2 ≡ h
    pred_half = omega arith

-- `m & (m - 1)` has one set bit less than `m`, and is smaller.
shared_bits_pred : (n k m : ℕ) → m ≤ n → 0 < m → m < 2 ^ k → Lowered k m (shared_bits n m (m - 1))
shared_bits_pred n zero m le positive small = absurd (omega arith)
shared_bits_pred zero (suc k) m le positive small = absurd (omega arith)
shared_bits_pred (suc n) (suc k) m le positive small = elim (Bool-cases (m % 2 == 0)) [
  | inl even ↦
      let whole : m ≡ m / 2 * 2 = ground arith in
      rw whole (
        rw (shared_bits_even n (m / 2) (omega arith)) (
          Lowered-even k (m / 2) _
            (shared_bits_pred n k (m / 2) (omega arith) (omega arith) (omega arith))))
  | inr odd ↦
      let whole : m ≡ m / 2 * 2 + 1 = ground arith in
      rw whole (rw (shared_bits_odd n (m / 2) (omega arith)) (Lowered-odd k (m / 2)))
]

bit_and_pred : (k m : ℕ) → 0 < m → m < 2 ^ k → Lowered k m (bit_and m (m - 1))
bit_and_pred k m positive small =
    rw (bit_and-bitwise m (m - 1)) (shared_bits_pred m k m (omega arith) positive small)

ones-zero : (k : ℕ) → ones k 0 ≡ 0
unfolding ones
ones-zero zero = refl
ones-zero (suc k) = omega (arith, ones-zero k)

popcount_loop-eq : (fuel k m c : ℕ) → m ≤ fuel → m < 2 ^ k → popcount_loop fuel m c ≡ c + ones k m
unfolding popcount_loop
popcount_loop-eq zero k m c le small =
    let z : m ≡ 0 = omega arith in rw z (omega (arith, ones-zero k))
popcount_loop-eq (suc fuel) k zero c le small = omega (arith, ones-zero k)
popcount_loop-eq (suc fuel) k (suc m) c le small =
    let lowered = bit_and_pred k (suc m) (omega arith) small in
    ground (
      arith,
      popcount_loop-eq fuel k (bit_and (suc m) (suc m - 1)) (c + 1) (omega (arith, lowered))
          (omega (arith, lowered)),
      lowered,
    )

length-chosen :
    (ms : List WeightedMember) (mask : ℕ) → length (chosen ms mask) ≡ ones (length ms) mask
unfolding ones
length-chosen [] mask = rw (chosen-nil mask)
length-chosen (m ∷ ms) mask = ground (arith, chosen-cons m ms mask, length-chosen ms (mask / 2))

-- The loop has fuel enough: it counts the members that the mask chooses.
pub popcount-chosen :
    (ms : List WeightedMember) (mask : ℕ)
    → mask < 2 ^ length ms
    → popcount mask ≡ length (chosen ms mask)
unfolding popcount
popcount-chosen ms mask small =
    omega
      (arith, popcount_loop-eq mask (length ms) mask 0 (omega arith) small, length-chosen ms mask)
