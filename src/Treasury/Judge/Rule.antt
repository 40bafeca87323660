-- ===== src/Treasury/Judge/Rule.antt =====
-- What the judge answers.
use bufi.Base.{
  ℕ, suc, ◌⊎◌, ◌+◌, ◌≤◌, ◌≡◌, ◌↔◌, refl, Bool, true, false, List, [], ◌∷◌, arith, leb→le,
  leb-false→lt, keep, Bool-cases, inl, inr,
}
use bufi.Base.Int.{ℤ, pos, negsuc, pos_part, neg_part, leb_ℤ, ◌≤ℤ◌, ◌+ℤ◌, int_laws, ◌-ℤ◌}
use bufi.Base.Texts.{Text}
use bufi.Treasury.Coalitions.{WeightedMember, winning_sum, is_winning}
use bufi.Treasury.Judge.{
  Spend, Why, weight_below, not_on_allowlist, vault_holds_less, weight_reached, sum_weights,
  approving_weight, expected_spend_outcome, timelock_remaining, at_least_zero,
}

sum_weights-keep :
    (ms : List WeightedMember) (has : Text → Bool) (sum : ℕ)
    → sum_weights sum (keep (λ o. has o.id) ms) ≡ winning_sum ms has sum
unfolding sum_weights winning_sum
sum_weights-keep [] has sum = refl
sum_weights-keep (m ∷ ms) has sum =
    ground (arith, sum_weights-keep ms has sum, sum_weights-keep ms has (sum + m.weight))

-- What each verdict says of the spend; the weight it quotes is the one that the rule compares.
abbrev pub Explains : Spend → Why → Type 0
Explains s (weight_below w t) =
    (t ≡ s.threshold_weight) × (w ≡ winning_sum s.owners s.approvers 0) × (suc w ≤ t)
Explains s not_on_allowlist =
    (s.threshold_weight ≤ winning_sum s.owners s.approvers 0) × (s.destination_allowlisted ≡ false)
Explains s (vault_holds_less held asked d) =
    (s.threshold_weight ≤ winning_sum s.owners s.approvers 0)
    × (s.destination_allowlisted ≡ true)
    × (held ≡ s.available)
    × (asked ≡ s.amount)
    × (held +ℤ pos 1 ≤ℤ asked)
Explains s weight_reached =
    (s.threshold_weight ≤ winning_sum s.owners s.approvers 0)
    × (s.destination_allowlisted ≡ true)
    × (s.amount ≤ℤ s.available)

-- Every verdict is explained by the values that it quotes, and the spend passes exactly under the
-- verdict that the weight is reached.
pub expected_spend_outcome-Explains :
    (s : Spend)
    → Explains s (expected_spend_outcome s).why
      × (((expected_spend_outcome s).pass ≡ true)
          ↔ ((expected_spend_outcome s).why ≡ weight_reached))
unfolding expected_spend_outcome is_winning approving_weight ◌+ℤ◌
expected_spend_outcome-Explains s = (
  ground (arith, sum_weights-keep s.owners s.approvers 0),
  (λ h. ground arith, λ h. ground arith),
)

clamp_low : (z : ℤ) → z ≤ℤ pos 0 → at_least_zero z ≡ pos 0
clamp_low (pos n) h = ground arith
clamp_low (negsuc n) h = refl

clamp_high : (z : ℤ) → pos 0 ≤ℤ z → at_least_zero z ≡ z
clamp_high (pos n) h = refl
clamp_high (negsuc n) h = absurd (omega arith)

-- The time left is zero once the chain's clock has passed the end of the lock, and else what is
-- missing to it.
pub timelock_remaining_lem :
    (a l n : ℤ)
    → ((a +ℤ l ≤ℤ n) × (timelock_remaining a l n ≡ pos 0))
      ⊎ ((n +ℤ pos 1 ≤ℤ a +ℤ l) × (timelock_remaining a l n +ℤ n ≡ a +ℤ l))
unfolding timelock_remaining
timelock_remaining_lem a l n = elim (Bool-cases (leb_ℤ (a +ℤ l) n)) [
  | inl over ↦ inl (over_le over, clamp_low (a +ℤ l -ℤ n) (omega (int_laws, over_le over)))
  | inr still ↦ inr (
    omega (int_laws, still_lt still),
    rw (clamp_high (a +ℤ l -ℤ n) (omega (int_laws, still_lt still))) (omega int_laws),
  )
]
  where
    over_le : leb_ℤ (a +ℤ l) n ≡ true → a +ℤ l ≤ℤ n
    over_le h = leb→le _ _ h

    still_lt :
        leb_ℤ (a +ℤ l) n ≡ false
        → suc (pos_part n + neg_part (a +ℤ l)) ≤ pos_part (a +ℤ l) + neg_part n
    still_lt h = leb-false→lt _ _ h
