-- ===== src/Treasury/Coalitions.antt =====
-- packages/weighted-treasury/src/coalitions.ts. A bit mask is a natural number; `has_bit` shifts
-- right one place at a time. Weights are whole numbers, as `validateSpec` demands of them.
pub mod Bits
pub mod Masks
pub mod Descent
pub mod Enumeration
pub mod Cover
pub mod Irredundant
pub mod Order
use Prim.Native.Nat.{bit_and}
use bufi.Base.{
  ℕ, zero, suc, ◌+◌, ◌-◌, ◌/◌, ◌%◌, ◌^◌, Bool, true, false, ◌&&◌, ◌||◌, not, Option, none, some,
  List, [], ◌∷◌, map, ltb, leb, ◌==◌, if◌then◌else◌, length,
}
use bufi.Base.Texts.{Text}

pub record WeightedMember : Type 0 where
  pub id : Text
  pub weight : ℕ

abbrev pub max_enumerable_owners : ℕ
max_enumerable_owners = 20

-- The loop of `isWinning`, and of the reduction in `expectedSpendOutcome`.
unfoldable pub winning_sum : List WeightedMember → (Text → Bool) → ℕ → ℕ
winning_sum [] has sum = sum
winning_sum (m ∷ ms) has sum = winning_sum ms has (if has m.id then sum + m.weight else sum)

-- `ReadonlySet<string>` is its membership test.
unfoldable pub is_winning : List WeightedMember → ℕ → (Text → Bool) → Bool
is_winning members threshold has = leb threshold (winning_sum members has 0)

-- `mask & (1 << i)` as a test, and `(mask >> i) & 1`.
abbrev pub has_bit : ℕ → ℕ → Bool
has_bit mask zero = mask % 2 == 1
has_bit mask (suc i) = has_bit (mask / 2) i

-- The loop of `weightOf` from position `i` on.
unfoldable pub weight_from : ℕ → List WeightedMember → ℕ → ℕ → ℕ
weight_from mask [] i sum = sum
weight_from mask (m ∷ ms) i sum =
    weight_from mask ms (suc i) (if has_bit mask i then sum + m.weight else sum)

unfoldable pub weight_of : List WeightedMember → ℕ → ℕ
weight_of members mask = weight_from mask members 0 0

-- `for (i < n && minimal)`. A set bit's weight is part of `sum`, so `-` is exact where it is read.
unfoldable pub minimal_from : ℕ → ℕ → ℕ → List WeightedMember → ℕ → Bool
minimal_from mask sum threshold [] i = true
minimal_from mask sum threshold (m ∷ ms) i =
    elim (has_bit mask i && leb threshold (sum - m.weight)) [
      | true ↦ false
      | false ↦ minimal_from mask sum threshold ms (suc i)
    ]

-- The body of the enumeration loop decides whether `mask` is pushed.
unfoldable pub is_pushed : List WeightedMember → ℕ → ℕ → Bool
is_pushed members threshold mask =
    let sum = weight_of members mask in
    if ltb sum threshold then false else minimal_from mask sum threshold members 0

-- `for (mask = from; rounds left; mask++)`.
unfoldable pub collect : List WeightedMember → ℕ → ℕ → ℕ → List ℕ
collect members threshold zero mask = []
collect members threshold (suc rounds) mask =
    let rest = collect members threshold rounds (mask + 1) in
    if is_pushed members threshold mask then mask ∷ rest else rest

-- `for (m = mask; m; m &= m - 1) c++`. The value falls in each round, so `mask` rounds suffice.
unfoldable pub popcount_loop : ℕ → ℕ → ℕ → ℕ
popcount_loop zero m c = c
popcount_loop (suc fuel) m c = elim (m == 0) [
  | true ↦ c
  | false ↦ popcount_loop fuel (bit_and m (m - 1)) (c + 1)
]

unfoldable pub popcount : ℕ → ℕ
popcount mask = popcount_loop mask mask 0

-- `lowBitOrder(a, b, n) <= 0`: at the first position where the masks differ, `a` has the bit.
unfoldable pub low_bit_le : ℕ → ℕ → ℕ → ℕ → Bool
low_bit_le a b zero i = true
low_bit_le a b (suc n) i = elim (has_bit a i) [
  | true ↦ elim (has_bit b i) [ true ↦ low_bit_le a b n (suc i) | false ↦ true ]
  | false ↦ elim (has_bit b i) [ true ↦ false | false ↦ low_bit_le a b n (suc i) ]
]

-- The comparator `popcount(a) - popcount(b) || lowBitOrder(a, b, n)` is not positive.
unfoldable pub sorts_before : ℕ → ℕ → ℕ → Bool
sorts_before n a b =
    if popcount a == popcount b then low_bit_le a b n 0 else ltb (popcount a) (popcount b)

-- `Array.prototype.sort` is stable: an element goes before the first later one that it may precede.
unfoldable pub insert_mask : ℕ → ℕ → List ℕ → List ℕ
insert_mask n a [] = a ∷ []
insert_mask n a (b ∷ bs) = if sorts_before n a b then a ∷ b ∷ bs else b ∷ insert_mask n a bs

unfoldable pub sort_masks : ℕ → List ℕ → List ℕ
sort_masks n [] = []
sort_masks n (a ∷ as') = insert_mask n a (sort_masks n as')

-- `members.filter((_, i) => mask & (1 << i)).map((m) => m.id)`, from position `i` on.
unfoldable pub chosen_from : ℕ → List WeightedMember → ℕ → List Text
chosen_from mask [] i = []
chosen_from mask (m ∷ ms) i =
    let rest = chosen_from mask ms (suc i) in if has_bit mask i then m.id ∷ rest else rest

unfoldable pub chosen : List WeightedMember → ℕ → List Text
chosen members mask = chosen_from mask members 0

-- `none` is the `RangeError` past twenty owners.
unfoldable pub minimal_winning_coalitions : List WeightedMember → ℕ → Option (List (List Text))
minimal_winning_coalitions members threshold =
    let n = length members in
    if ltb max_enumerable_owners n
    then none
    else some (map (chosen members) (sort_masks n (collect members threshold (2 ^ n - 1) 1)))
