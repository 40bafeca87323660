-- ===== src/Treasury/Coalitions/Masks.antt =====
-- The loops of coalitions.ts over positions, as recursions on the mask: position `i + 1` of a mask
-- is position `i` of its half.
use bufi.Base.{
  ℕ, suc, ◌+◌, ◌*◌, ◌/◌, ◌%◌, ◌^◌, ◌<◌, ◌≡◌, refl, Bool, List, [], ◌∷◌, arith, ◌==◌, if◌then◌else◌,
  length,
}
use bufi.Base.Texts.{Text}
use bufi.Treasury.Coalitions.{
  WeightedMember, winning_sum, weight_from, weight_of, minimal_from, chosen_from, chosen,
}

weight_from_shift :
    (mask : ℕ) (ms : List WeightedMember) (i sum : ℕ)
    → weight_from mask ms (suc i) sum ≡ weight_from (mask / 2) ms i sum
unfolding weight_from
weight_from_shift mask [] i sum = refl
weight_from_shift mask (m ∷ ms) i sum = weight_from_shift mask ms (suc i) _

weight_from_acc :
    (mask : ℕ) (ms : List WeightedMember) (i sum : ℕ)
    → weight_from mask ms i sum ≡ sum + weight_from mask ms i 0
unfolding weight_from
weight_from_acc mask [] i sum = omega arith
weight_from_acc mask (m ∷ ms) i sum = ground (
  arith,
  weight_from_acc mask ms (suc i) (sum + m.weight),
  weight_from_acc mask ms (suc i) (0 + m.weight),
  weight_from_acc mask ms (suc i) sum,
)

abbrev pub bit_weight : ℕ → ℕ → ℕ
bit_weight mask w = if mask % 2 == 1 then w else 0

pub weight_of-cons :
    (m : WeightedMember) (ms : List WeightedMember) (mask : ℕ)
    → weight_of (m ∷ ms) mask ≡ bit_weight mask m.weight + weight_of ms (mask / 2)
unfolding weight_of weight_from
weight_of-cons m ms mask = ground (
  arith,
  weight_from_shift mask ms 0 (0 + m.weight),
  weight_from_shift mask ms 0 0,
  weight_from_acc (mask / 2) ms 0 (0 + m.weight),
)

pub weight_of-nil : (mask : ℕ) → weight_of [] mask ≡ 0
unfolding weight_of weight_from
weight_of-nil mask = refl

pub minimal_from_shift :
    (mask sum t : ℕ) (ms : List WeightedMember) (i : ℕ)
    → minimal_from mask sum t ms (suc i) ≡ minimal_from (mask / 2) sum t ms i
unfolding minimal_from
minimal_from_shift mask sum t [] i = refl
minimal_from_shift mask sum t (m ∷ ms) i = ground (arith, minimal_from_shift mask sum t ms (suc i))

chosen_from_shift :
    (mask : ℕ) (ms : List WeightedMember) (i : ℕ)
    → chosen_from mask ms (suc i) ≡ chosen_from (mask / 2) ms i
unfolding chosen_from
chosen_from_shift mask [] i = refl
chosen_from_shift mask (m ∷ ms) i = ground (arith, chosen_from_shift mask ms (suc i))

pub chosen-nil : (mask : ℕ) → chosen [] mask ≡ []
unfolding chosen chosen_from
chosen-nil mask = refl

pub chosen-cons :
    (m : WeightedMember) (ms : List WeightedMember) (mask : ℕ)
    → chosen (m ∷ ms) mask
      ≡ (if mask % 2 == 1 then m.id ∷ chosen ms (mask / 2) else chosen ms (mask / 2))
unfolding chosen chosen_from
chosen-cons m ms mask = ground (arith, chosen_from_shift mask ms 0)

pub winning_sum_acc :
    (ms : List WeightedMember) (has : Text → Bool) (sum : ℕ)
    → winning_sum ms has sum ≡ sum + winning_sum ms has 0
unfolding winning_sum
winning_sum_acc [] has sum = omega arith
winning_sum_acc (m ∷ ms) has sum = ground (
  arith,
  winning_sum_acc ms has (sum + m.weight),
  winning_sum_acc ms has (0 + m.weight),
  winning_sum_acc ms has sum,
)

pub winning_sum-cons :
    (m : WeightedMember) (ms : List WeightedMember) (has : Text → Bool)
    → winning_sum (m ∷ ms) has 0 ≡ (if has m.id then m.weight else 0) + winning_sum ms has 0
unfolding winning_sum
winning_sum-cons m ms has = ground (arith, winning_sum_acc ms has (0 + m.weight))

-- The mask of the members that pass a test.
unfoldable pub mask_of : List WeightedMember → (Text → Bool) → ℕ
mask_of [] has = 0
mask_of (m ∷ ms) has = (if has m.id then 1 else 0) + 2 * mask_of ms has

pub mask_of-lt : (ms : List WeightedMember) (has : Text → Bool) → mask_of ms has < 2 ^ length ms
unfolding mask_of
mask_of-lt [] has = omega arith
mask_of-lt (m ∷ ms) has = ground (arith, mask_of-lt ms has, pow_two-suc (length ms))
  where
    pow_two-suc : (n : ℕ) → 2 ^ suc n ≡ 2 * 2 ^ n
    pow_two-suc n = omega arith
