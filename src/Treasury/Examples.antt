-- ===== src/Treasury/Examples.antt =====
-- Runs of both compilers of packages/weighted-treasury on a small specification, and the theorems
-- at it.
use bufi.Base.{
  ℕ, ◌≡◌, refl, ◌↔◌, inl, inr, Bool, true, false, all, All, and_true, Option-cases, Option, none,
  some, List, map, [], ◌∷◌, arith, ◌⊎◌, ◌≤◌, ◌^◌,
}
use Prim.Native.String.{String}
use bufi.Base.Int.{pos, ◌+ℤ◌, ◌≤ℤ◌}
use bufi.Base.Texts.{Text, text, to_lower_case}
use bufi.Base.TextSets.{includes, distinct_texts}
use bufi.Treasury.Coalitions.{
  weight_from, weight_of, minimal_from, is_pushed, collect, popcount_loop, popcount, low_bit_le,
  sorts_before, insert_mask, sort_masks, chosen_from, chosen, minimal_winning_coalitions,
}
use bufi.Treasury.Spec.{integer, TreasuryOwner, TreasuryAsset, WeightedTreasurySpec, Outcome, ok}
use bufi.Treasury.Validate.{
  validate_spec, validate_owners, validate_owner, validate_assets, validate_budget, is_evm_address,
  is_solana_key,
}
use bufi.Treasury.Validate.Valid.{IsValidSpec}
use bufi.Treasury.Validate.Sound.{validate_spec-IsValidSpec}
use bufi.Treasury.Approvers.{members}
use bufi.Treasury.Encoding.{u256be}
use bufi.Treasury.Encoding.RoundTrip.{Encodes, u256be-Encodes}
use bufi.Treasury.Evm.{
  EvmTreasuryConfig, compile_evm, evm_owners, evm_owner, check_addresses, evm_recipients,
  check_budgets,
}
use bufi.Treasury.Evm.Exact.{IsExact, compile_evm-IsExact}
use bufi.Treasury.Judge.{weight_reached, expected_spend_outcome, timelock_remaining}
use bufi.Treasury.Judge.Rule.{Explains, expected_spend_outcome-Explains, timelock_remaining_lem}
use bufi.Treasury.Squads.{
  CompileSquadsOptions, SquadsSigner, SquadsPolicy, SquadsTreasuryPlan, compile_squads,
  key_of_owners, map_set, has_value, squads_recipients, policy_of, mint_of, asset_policies,
}
use bufi.Treasury.SdkArgs.{SolanaRuntime, PolicyCreate, to_string, to_sdk_policy_create_actions}
use bufi.Treasury.SdkArgs.Digits.{read_integer}
use bufi.Treasury.SdkArgs.ReadBack.{
  CanBeRead, IsKey, HasKeys, read_action, enforced, seeds_from, to_sdk_policy_create_actions-read,
}
use bufi.Treasury.Squads.Parity.{spend_of}

abbrev owner : String → ℕ → String → String → TreasuryOwner
owner id weight evm solana = record {
  id = text id;
  weight = integer (pos weight);
  evm = some (text evm);
  solana = some (text solana);
}

abbrev usdc : TreasuryAsset
usdc = record {
  symbol = text "USDC";
  solana_mint = some (text "4zMMC9srt5Ri5X14GAgXhaHii3GnPAEERYPJgZJDncDU");
  solana_decimals = some (integer (pos 6));
  budget = none;
}

abbrev payroll : Text
payroll = text "AQoKYV7tYpTrFZN6P5oUufbQKAUr9mNYGe1TTJC9wajM"

abbrev treasury : WeightedTreasurySpec
treasury = record {
  version = integer (pos 1);
  owners =
      owner "A" 2 "0x0000000000000000000000000000000000000001"
        "7xKXtg2CW87d97TXJSDpbD5jBkheTqA83TZRuJosgAsU"
      ∷ owner "B" 1 "0x0000000000000000000000000000000000000002"
          "9WzDXwBbmkg8ZTbNMqUxvQRAyrZzDsGYdLVL9zYtAWWM"
      ∷ owner "C" 1 "0x000000000000000000000000000000000000000C"
          "GQ6x9QZ1yYbJkJ5hY6gH6k6wJ8xQ5Zt2bYhXr8uUPd3V"
      ∷ [];
  threshold_weight = integer (pos 3);
  allowlist =
      record {
        label = some (text "payroll");
        evm = some (text "0x00000000000000000000000000000000000000AA");
        solana = some payroll;
      }
      ∷ [];
  assets = usdc ∷ [];
  admin_timelock_seconds = integer (pos 86_400);
}

treasury_valid : validate_spec treasury ≡ ok tt
unfolding validate_spec validate_owners validate_owner validate_assets validate_budget
    is_evm_address is_solana_key
treasury_valid = refl

abbrev result {ℓ} : {A : Type ℓ} → Outcome A → A → A
result (ok a) d = a
result _ d = d

abbrev no_config : EvmTreasuryConfig
no_config = record { owners = []; threshold_weight = 0; allowlist = []; notes = [] }

compile_evm-IsExact_example :
    IsExact to_lower_case treasury (result (compile_evm to_lower_case treasury) no_config)
unfolding compile_evm validate_spec validate_owners validate_owner validate_assets validate_budget
    is_evm_address is_solana_key evm_owners evm_owner check_addresses evm_recipients check_budgets
compile_evm-IsExact_example =
    compile_evm-IsExact to_lower_case treasury
      (result (compile_evm to_lower_case treasury) no_config) refl

abbrev options : CompileSquadsOptions
options = record { max_policies = none; source_account_index = none }

abbrev no_plan : SquadsTreasuryPlan
no_plan = record {
  program_id = [];
  settings = record { signers = []; threshold = 0; time_lock = 0 };
  policies = [];
  source_account_index = 0;
  notes = [];
}

abbrev plan : SquadsTreasuryPlan
plan = result (compile_squads treasury options) no_plan

abbrev approvers : Text → Bool
approvers x = includes (text "A" ∷ text "C" ∷ []) x

validate_spec-IsValidSpec_example : (validate_spec treasury ≡ ok tt) ↔ IsValidSpec treasury
validate_spec-IsValidSpec_example = validate_spec-IsValidSpec treasury

expected_spend_outcome-Explains_example :
    let s = spend_of treasury approvers payroll (pos 10) (pos 970) 6 in
    Explains s (expected_spend_outcome s).why
    × (((expected_spend_outcome s).pass ≡ true) ↔ ((expected_spend_outcome s).why ≡ weight_reached))
expected_spend_outcome-Explains_example =
    expected_spend_outcome-Explains (spend_of treasury approvers payroll (pos 10) (pos 970) 6)

timelock_remaining_lem_example :
    ((pos 1000 +ℤ pos 10 ≤ℤ pos 1004) × (timelock_remaining (pos 1000) (pos 10) (pos 1004) ≡ pos 0))
    ⊎ ((pos 1004 +ℤ pos 1 ≤ℤ pos 1000 +ℤ pos 10)
        × (timelock_remaining (pos 1000) (pos 10) (pos 1004) +ℤ pos 1004 ≡ pos 1000 +ℤ pos 10))
timelock_remaining_lem_example = timelock_remaining_lem (pos 1000) (pos 10) (pos 1004)

u256be-Encodes_example :
    ((bs : List ℕ) × (u256be (pos 2_010_000) ≡ some bs) × Encodes (pos 2_010_000) bs)
    ⊎ ((u256be (pos 2_010_000) ≡ none) × ((v : ℕ) → pos 2_010_000 ≡ pos v → 2 ^ 256 ≤ v))
u256be-Encodes_example = u256be-Encodes (pos 2_010_000)

-- A runtime that keeps the texts it is given, and takes no missing key.
abbrev runtime : SolanaRuntime Text Text
runtime = record { public_key = λ k. k; bn = λ t. some t }

runtime-CanBeRead : CanBeRead runtime (λ k. k) read_integer
runtime-CanBeRead = record { keys = λ t k taken. cc; numbers = λ z. (to_string z, (refl, refl)) }

abbrev is_there : Option Text → Bool
is_there none = false
is_there (some t) = true

signers-there :
    (signers : List SquadsSigner)
    → all (λ s. is_there s.key) signers ≡ true
    → All (λ (s : SquadsSigner). (t : Text) × ((s.key ≡ some t) × IsKey runtime t)) signers
signers-there [] there = tt
signers-there (s ∷ rest) there = elim (Option-cases s.key) [
  | inl e ↦ absurd (ground arith)
  | inr e ↦ ((e.0, (e.1, (e.0, refl))), signers-there rest (ground arith))
]

texts-taken : (ts : List Text) → All (IsKey runtime) ts
texts-taken [] = tt
texts-taken (t ∷ ts) = ((t, refl), texts-taken ts)

policies-HasKeys :
    (ps : List SquadsPolicy)
    → all (λ p. all (λ s. is_there s.key) p.signers) ps ≡ true
    → All (HasKeys runtime) ps
policies-HasKeys [] there = tt
policies-HasKeys (p ∷ ps) there = (
  (
    signers-there p.signers (and_true _ _ there).0,
    texts-taken p.payload.destinations,
    (p.payload.mint, refl),
  ),
  policies-HasKeys ps (and_true _ _ there).1,
)

plan-keys : all (λ p. all (λ s. is_there s.key) p.signers) plan.policies ≡ true
unfolding compile_squads validate_spec validate_owners validate_owner validate_assets
    validate_budget is_evm_address is_solana_key key_of_owners map_set has_value squads_recipients
    distinct_texts members minimal_winning_coalitions sort_masks collect is_pushed weight_of
    weight_from minimal_from insert_mask sorts_before popcount popcount_loop low_bit_le chosen
    chosen_from asset_policies mint_of policy_of bufi.Treasury.Squads.signer_of
    bufi.Treasury.Squads.map_get
plan-keys = refl

to_sdk_policy_create_actions-read_example :
    (actions : List (PolicyCreate Text Text)) × ((to_sdk_policy_create_actions runtime plan none
        ≡ some actions)
      × (map (read_action (λ k. k) read_integer) actions ≡ map enforced plan.policies)
      × (map (λ a. a.seed) actions ≡ seeds_from 1 plan.policies))
to_sdk_policy_create_actions-read_example =
    to_sdk_policy_create_actions-read (λ k. k) read_integer runtime runtime-CanBeRead plan none
      (policies-HasKeys plan.policies plan-keys)
