-- ===== src/Treasury/Validate/Valid.antt =====
-- What a valid specification is.
use bufi.Base.{ℕ, suc, ◌+◌, ◌≤◌, ◌≡◌, ◌≢◌, Bool, true, Option, none, some, List, [], ◌∷◌, map, All}
use bufi.Base.Int.{ℤ, pos, ◌≤ℤ◌}
use bufi.Base.Texts.{Text}
use bufi.Base.TextSets.{Distinct}
use bufi.Treasury.Spec.{
  Number, integer, whole, max_weight, TreasuryOwner, Period, Budget, TreasuryAsset,
  WeightedTreasurySpec,
}
use bufi.Treasury.Validate.{is_evm_address, is_solana_key}

-- A whole number between two bounds.
abbrev pub InRange : ℕ → ℕ → Number → Type 0
InRange lo hi n = (w : ℕ) × (n ≡ integer (pos w)) × (lo ≤ w) × (w ≤ hi)

abbrev pub Present : (Text → Bool) → Option Text → Type 0
Present test none = Unit
Present test (some a) = test a ≡ true

abbrev pub IsValidOwner : TreasuryOwner → Type 0
IsValidOwner o =
    InRange 1 max_weight o.weight × Present is_evm_address o.evm × Present is_solana_key o.solana

abbrev pub owner_ids : List TreasuryOwner → List Text
owner_ids = map (λ (o : TreasuryOwner). o.id)

abbrev pub total_weight : List TreasuryOwner → ℕ
total_weight [] = 0
total_weight (o ∷ os) = whole o.weight + total_weight os

abbrev pub IsPositive : Number → Type 0
IsPositive n = (w : ℕ) × (n ≡ integer (pos (suc w)))

abbrev pub IsValidPeriod : Period → Type 0
IsValidPeriod (Period.custom n) = IsPositive n
IsValidPeriod _ = Unit

-- The cap of one use is positive and within the cap of a period.
abbrev pub IsValidUse : Option ℤ → ℤ → Type 0
IsValidUse none cap = Unit
IsValidUse (some use_cap) cap = (pos 1 ≤ℤ use_cap) × (use_cap ≤ℤ cap)

abbrev pub IsValidBudget : Option Budget → Type 0
IsValidBudget none = Unit
IsValidBudget (some b) =
    (pos 1 ≤ℤ b.max_per_period) × IsValidUse b.max_per_use b.max_per_period × IsValidPeriod b.period

pub record IsValidSpec (s : WeightedTreasurySpec) : Type 0 where
  pub version_one : s.version ≡ integer (pos 1)
  pub some_owner : s.owners ≢ []
  pub distinct : Distinct (owner_ids s.owners)
  pub owners_valid : All IsValidOwner s.owners
  pub threshold : InRange 1 (total_weight s.owners) s.threshold_weight
  pub some_recipient : s.allowlist ≢ []
  pub some_asset : s.assets ≢ []
  pub budgets_valid : All (λ (a : TreasuryAsset). IsValidBudget a.budget) s.assets
  pub timelock : InRange 0 0xffffffff s.admin_timelock_seconds
