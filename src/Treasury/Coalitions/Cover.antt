-- ===== src/Treasury/Coalitions/Cover.antt =====
-- A group reaches the threshold exactly when it contains a listed coalition.
use bufi.Base.{
  ℕ, suc, ◌-◌, ◌/◌, ◌^◌, ◌≤◌, ◌≡◌, Bool, true, List, [], ◌∷◌, map, arith, some, leb→le, le→leb,
  length, all, any, In, Bool-ext, In→any, any→In, In-map, map-In,
}
use mathlib.Core.Path.{ap}
use native.Mathlib.Decide.{dec_lt}
use bufi.Base.Texts.{Text}
use bufi.Treasury.Coalitions.{
  WeightedMember, max_enumerable_owners, winning_sum, is_winning, weight_of, is_pushed, collect,
  sort_masks, chosen, minimal_winning_coalitions,
}
use bufi.Treasury.Coalitions.Masks.{
  weight_of-cons, weight_of-nil, chosen-nil, chosen-cons, winning_sum-cons, mask_of, mask_of-lt,
}
use bufi.Treasury.Coalitions.Descent.{Minimal, minimal}
use bufi.Treasury.Coalitions.Enumeration.{
  In-collect, collect-In, sort_masks-In, In-sort_masks, is_pushed_wins,
}

-- The mask of the approvers weighs what they weigh, and chooses approvers only.
pub weight_of-mask_of :
    (ms : List WeightedMember) (has : Text → Bool)
    → weight_of ms (mask_of ms has) ≡ winning_sum ms has 0
unfolding mask_of winning_sum
weight_of-mask_of [] has = weight_of-nil 0
weight_of-mask_of (m ∷ ms) has = ground (
  arith,
  weight_of-cons m ms (mask_of (m ∷ ms) has),
  winning_sum-cons m ms has,
  weight_of-mask_of ms has,
)

all-chosen-mask_of :
    (ms : List WeightedMember) (has : Text → Bool) → all has (chosen ms (mask_of ms has)) ≡ true
unfolding mask_of
all-chosen-mask_of [] has = rw (chosen-nil 0)
all-chosen-mask_of (m ∷ ms) has =
    ground (arith, chosen-cons m ms (mask_of (m ∷ ms) has), all-chosen-mask_of ms has)

-- Approvers weigh at least what any coalition among them weighs.
pub weight_of-le :
    (ms : List WeightedMember) (has : Text → Bool) (mask : ℕ)
    → all has (chosen ms mask) ≡ true
    → weight_of ms mask ≤ winning_sum ms has 0
weight_of-le [] has mask h = omega (arith, weight_of-nil mask)
weight_of-le (m ∷ ms) has mask h = ground (
  arith,
  weight_of-cons m ms mask,
  chosen-cons m ms mask,
  winning_sum-cons m ms has,
  weight_of-le ms has (mask / 2),
)

is_pushed-Minimal :
    (ms : List WeightedMember) (t : ℕ) {mask : ℕ} (m : Minimal ms t mask)
    → is_pushed ms t m.least ≡ true
unfolding is_pushed
is_pushed-Minimal ms t m = ground (arith, m.wins, m.passes)

weight_of-zero : (ms : List WeightedMember) → weight_of ms 0 ≡ 0
weight_of-zero [] = weight_of-nil 0
weight_of-zero (m ∷ ms) = omega (arith, weight_of-cons m ms 0, weight_of-zero ms)

-- The masks that the enumeration pushes cover every winning group, and only those.
abbrev pub listed_masks : List WeightedMember → ℕ → List ℕ
listed_masks ms t = sort_masks (length ms) (collect ms t (2 ^ length ms - 1) 1)

module _ (ms : List WeightedMember) (t : ℕ) (pos : 1 ≤ t) (has : Text → Bool) where
  covered : is_winning ms t has ≡ true → any (all has) (map (chosen ms) (listed_masks ms t)) ≡ true
  unfolding is_winning
  covered w =
      In→any (all has) (chosen ms found.least) _
        (In-map (chosen ms) found.least (listed_masks ms t) listed_found)
        (found.subset has (all-chosen-mask_of ms has))
    where
      found : Minimal ms t (mask_of ms has)
      found =
          minimal (suc (mask_of ms has)) ms t (mask_of ms has) (omega arith)
            (rw (weight_of-mask_of ms has) (leb→le _ _ w))

      positive : 1 ≤ found.least
      positive = elim (dec_lt 0 found.least) [
        | yes p ↦ p
        | no p ↦
            let z : found.least ≡ 0 = omega arith in
            absurd (omega (arith, weight_of-zero ms, found.wins, ap (weight_of ms) z))
      ]

      listed_found : In found.least (listed_masks ms t)
      listed_found = In-sort_masks _ _ _ (
          In-collect ms t (2 ^ length ms - 1) 1 found.least positive
            (omega (arith, found.below, mask_of-lt ms has)) (is_pushed-Minimal ms t found))

  covering : any (all has) (map (chosen ms) (listed_masks ms t)) ≡ true → is_winning ms t has ≡ true
  unfolding is_winning
  covering c = le→leb _ _ (omega (arith, heavy, weight_of-le ms has mask.0 sub))
    where
      group : (c : List Text) × In c (map (chosen ms) (listed_masks ms t)) × (all has c ≡ true)
      group = any→In (all has) _ c

      mask : (a : ℕ) × In a (listed_masks ms t) × (group.0 ≡ chosen ms a)
      mask = map-In (chosen ms) group.0 (listed_masks ms t) group.1

      sub : all has (chosen ms mask.0) ≡ true
      sub = rw (← mask.2) group.2

      heavy : t ≤ weight_of ms mask.0
      heavy = is_pushed_wins ms t mask.0 (collect-In ms t _ 1 mask.0 (sort_masks-In _ _ _ mask.1))

-- For at most twenty owners and a positive threshold the list is produced, and a group of approvers
-- reaches the threshold exactly when it contains one of the listed coalitions.
pub minimal_winning_coalitions-cover :
    (ms : List WeightedMember) (t : ℕ)
    → 1 ≤ t
    → length ms ≤ max_enumerable_owners
    → (cs : List (List Text)) × (minimal_winning_coalitions ms t ≡ some cs)
      × ((has : Text → Bool) → is_winning ms t has ≡ any (all has) cs)
unfolding minimal_winning_coalitions
minimal_winning_coalitions-cover ms t pos small = (
  map (chosen ms) (listed_masks ms t),
  ground arith,
  λ has. Bool-ext _ _ (covered ms t pos has) (covering ms t pos has),
)

listed_small :
    (ms : List WeightedMember) (t : ℕ) (cs : List (List Text))
    → minimal_winning_coalitions ms t ≡ some cs
    → length ms ≤ max_enumerable_owners
unfolding minimal_winning_coalitions
listed_small ms t cs h = ground arith

-- The rule for whatever list the function returned.
pub minimal_winning_coalitions-rule :
    (ms : List WeightedMember) (t : ℕ) (cs : List (List Text)) (has : Text → Bool)
    → 1 ≤ t
    → minimal_winning_coalitions ms t ≡ some cs
    → is_winning ms t has ≡ any (all has) cs
minimal_winning_coalitions-rule ms t cs has pos h =
    let c = minimal_winning_coalitions-cover ms t pos (listed_small ms t cs h) in
    let same : cs ≡ c.0 = ground (arith, c.1) in rw same (c.2 has)
