-- ===== src/Treasury/Tests.antt =====
-- Runs of packages/weighted-treasury on the owners of its own tests, and the theorems at them.
use bufi.Base.{◌≡◌, refl, inl, inr, Bool, false, some, List, [], ◌∷◌, arith, any, all, map, length}
use bufi.Base.Texts.{Text, text}
use bufi.Base.TextSets.{Distinct, Fresh-Distinct}
use bufi.Treasury.Coalitions.{
  WeightedMember, is_winning, weight_from, weight_of, minimal_from, is_pushed, collect,
  popcount_loop, popcount, low_bit_le, sorts_before, insert_mask, sort_masks, chosen_from, chosen,
  minimal_winning_coalitions,
}
use bufi.Treasury.Coalitions.Cover.{minimal_winning_coalitions-cover}
use bufi.Treasury.Coalitions.Irredundant.{minimal_winning_coalitions-minimal, without}
use bufi.Treasury.Coalitions.Order.{Ascending, minimal_winning_coalitions-Ascending}

abbrev a : Text
a = text "A"

abbrev b : Text
b = text "B"

abbrev c : Text
c = text "C"

abbrev three : List WeightedMember
three =
    record { id = a; weight = 2 }
    ∷ record { id = b; weight = 1 }
    ∷ record { id = c; weight = 1 }
    ∷ []

abbrev coalitions_of_three : List (List Text)
coalitions_of_three = (a ∷ b ∷ []) ∷ (a ∷ c ∷ []) ∷ []

three_coalitions : minimal_winning_coalitions three 3 ≡ some coalitions_of_three
unfolding minimal_winning_coalitions sort_masks collect is_pushed weight_of weight_from minimal_from
    insert_mask sorts_before popcount popcount_loop low_bit_le chosen chosen_from
three_coalitions = refl

minimal_winning_coalitions-cover_example :
    (cs : List (List Text)) × (minimal_winning_coalitions three 3 ≡ some cs)
    × ((has : Text → Bool) → is_winning three 3 has ≡ any (all has) cs)
minimal_winning_coalitions-cover_example =
    minimal_winning_coalitions-cover three 3 (omega arith) (omega arith)

Distinct-three : Distinct (a ∷ b ∷ c ∷ [])
Distinct-three = Fresh-Distinct (a ∷ b ∷ c ∷ []) [] (refl, (refl, (refl, tt)))

minimal_winning_coalitions-minimal_example : is_winning three 3 (without b (a ∷ b ∷ [])) ≡ false
minimal_winning_coalitions-minimal_example =
    minimal_winning_coalitions-minimal three 3 (a ∷ b ∷ []) b Distinct-three three_coalitions
      (inl refl) (inr (inl refl))

minimal_winning_coalitions-Ascending_example : Ascending (map length coalitions_of_three)
minimal_winning_coalitions-Ascending_example =
    minimal_winning_coalitions-Ascending three 3 three_coalitions
