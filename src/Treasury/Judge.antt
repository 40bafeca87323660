-- ===== src/Treasury/Judge.antt =====
-- packages/weighted-treasury/src/judge.ts. `why` keeps the values that the message shows.
pub mod Rule
use bufi.Base.{ℕ, ◌+◌, ◌≡◌, Bool, true, false, not, List, [], ◌∷◌, keep}
use bufi.Base.Int.{ℤ, pos, ltb_ℤ, ◌+ℤ◌, ◌-ℤ◌}
use bufi.Base.Texts.{Text}
use bufi.Treasury.Coalitions.{WeightedMember, is_winning}

pub record Spend : Type 0 where
  pub owners : List WeightedMember
  pub threshold_weight : ℕ
  pub approvers : Text → Bool
  pub destination_allowlisted : Bool
  pub amount : ℤ
  pub available : ℤ
  pub decimals : ℕ

pub data Why : Type 0 where
  weight_below : ℕ → ℕ → Why
  not_on_allowlist : Why
  vault_holds_less : ℤ → ℤ → ℕ → Why
  weight_reached : Why

pub record SpendOutcome : Type 0 where
  pub pass : Bool
  pub why : Why

-- `.reduce((sum, o) => sum + o.weight, sum)`
unfoldable pub sum_weights : ℕ → List WeightedMember → ℕ
sum_weights sum [] = sum
sum_weights sum (m ∷ ms) = sum_weights (sum + m.weight) ms

-- `owners.filter((o) => approvers.has(o.id)).reduce((sum, o) => sum + o.weight, 0)`
unfoldable pub approving_weight : List WeightedMember → (Text → Bool) → ℕ
approving_weight owners approvers = sum_weights 0 (keep (λ o. approvers o.id) owners)

unfoldable pub expected_spend_outcome : Spend → SpendOutcome
expected_spend_outcome s = elim (is_winning s.owners s.threshold_weight s.approvers) [
  | false ↦ record {
    pass = false;
    why = weight_below (approving_weight s.owners s.approvers) s.threshold_weight;
  }
  | true ↦ elim s.destination_allowlisted [
    | false ↦ record { pass = false; why = not_on_allowlist }
    | true ↦ elim (ltb_ℤ s.available s.amount) [
      | true ↦ record { pass = false; why = vault_holds_less s.available s.amount s.decimals }
      | false ↦ record { pass = true; why = weight_reached }
    ]
  ]
]

-- `Math.max(0, z)`
abbrev pub at_least_zero : ℤ → ℤ
at_least_zero (pos n) = pos n
at_least_zero (ℤ.negsuc n) = pos 0

-- The arguments are `approvedAt`, `timeLock` and `chainNow`, in whole seconds.
unfoldable pub timelock_remaining : ℤ → ℤ → ℤ → ℤ
timelock_remaining approved_at time_lock chain_now =
    at_least_zero (approved_at +ℤ time_lock -ℤ chain_now)
