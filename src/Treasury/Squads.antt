-- ===== src/Treasury/Squads.antt =====
-- packages/weighted-treasury/src/squads/compile.ts.
pub mod Keys
pub mod Policies
pub mod Plan
pub mod Parity
use bufi.Base.{
  ℕ, zero, suc, ◌+◌, ◌-◌, ◌*◌, ◌^◌, ◌≡◌, Bool, true, false, not, ◌&&◌, Option, none, some, List, [],
  ◌∷◌, ◌++◌, map, ltb, length, any, if◌then◌else◌,
}
use bufi.Base.Int.{ℤ, pos, ltb_ℤ}
use bufi.Base.Texts.{Text, text, text_eq}
use bufi.Base.TextSets.{distinct_texts}
use bufi.Treasury.Coalitions.{minimal_winning_coalitions}
use bufi.Treasury.Spec.{
  Number, integer, whole, TreasuryOwner, AllowedRecipient, Period, Budget, TreasuryAsset,
  WeightedTreasurySpec, Backend, Reason, Outcome, ok, range_error, ◌>>=◌, ◌>>◌, fail_if, fail,
}
use bufi.Treasury.Validate.{validate_spec, is_empty}
use bufi.Treasury.Approvers.{members}
use bufi.Treasury.Evm.{truthy}

abbrev pub smart_account_program_id : Text
smart_account_program_id = text "SMRTzfY6DfH5ik3TKiyLFfXexV8uSG3d2UksSCYdunG"

abbrev pub native_sol_mint : Text
native_sol_mint = text "11111111111111111111111111111111"

abbrev pub all_permissions : ℕ
all_permissions = 7

abbrev pub u64_max : ℕ
u64_max = 2 ^ 64 - 1

abbrev pub default_max_policies : ℕ
default_max_policies = 64

pub data SquadsPeriod : Type 0 where
  one_time daily weekly monthly : SquadsPeriod
  custom : ℕ → SquadsPeriod

-- `keyOf.get(id)!` is not checked, so the key of a signer may be missing.
pub record SquadsSigner : Type 0 where
  pub key : Option Text
  pub permissions : ℕ

pub record SpendingLimit : Type 0 where
  pub mint : Text
  pub source_account_index : ℕ
  pub destinations : List Text
  pub start : ℕ
  pub expiration : Option ℕ
  pub period : SquadsPeriod
  pub accumulate_unused : Bool
  pub max_per_period : ℤ
  pub max_per_use : ℤ
  pub enforce_exact_quantity : Bool

pub record SquadsPolicy : Type 0 where
  pub coalition : List Text
  pub asset : Text
  pub signers : List SquadsSigner
  pub threshold : ℕ
  pub time_lock : ℕ
  pub payload : SpendingLimit

pub record SquadsSettings : Type 0 where
  pub signers : List SquadsSigner
  pub threshold : ℕ
  pub time_lock : ℕ

-- The notes, with the numbers that they show.
pub data SquadsNote : Type 0 where
  admin_needs_all : ℕ → SquadsNote
  settings_run_anything : SquadsNote
  policy_count : ℕ → ℕ → ℕ → SquadsNote
  no_timelock : SquadsNote

pub record SquadsTreasuryPlan : Type 0 where
  pub program_id : Text
  pub settings : SquadsSettings
  pub policies : List SquadsPolicy
  pub source_account_index : ℕ
  pub notes : List SquadsNote

pub record CompileSquadsOptions : Type 0 where
  pub max_policies : Option ℕ
  pub source_account_index : Option ℕ

-- `keyOf`, a `Map` in insertion order.
abbrev pub KeyMap : Type 0
KeyMap = List (Text × Text)

unfoldable pub map_set : Text → Text → KeyMap → KeyMap
map_set id key [] = (id, key) ∷ []
map_set id key ((i, k) ∷ m) = if text_eq i id then (i, key) ∷ m else (i, k) ∷ map_set id key m

unfoldable pub map_get : Text → KeyMap → Option Text
map_get id [] = none
map_get id ((i, k) ∷ m) = if text_eq i id then some k else map_get id m

-- `[...keyOf.values()].includes(key)`
unfoldable pub has_value : KeyMap → Text → Bool
has_value [] key = false
has_value ((i, k) ∷ m) key = if text_eq key k then true else has_value m key

unfoldable pub key_of_owners : List TreasuryOwner → KeyMap → Outcome KeyMap
key_of_owners [] m = ok m
key_of_owners (o ∷ os) m = elim (truthy o.solana) [
  | none ↦ fail Backend.squads (Reason.owner_without_solana o.id)
  | some key ↦ do
    fail_if (has_value m key) Backend.squads (Reason.solana_key_twice key)
    key_of_owners os (map_set o.id key m)
]

-- `recipient.solana ?? fail(…)`: only a missing wallet is refused.
unfoldable pub squads_recipients : List AllowedRecipient → ℕ → Outcome (List Text)
squads_recipients [] i = ok []
squads_recipients (r ∷ rs) i = elim r.solana [
  | none ↦ fail Backend.squads (Reason.recipient_without_solana r.label i)
  | some wallet ↦ do wallets ← squads_recipients rs (suc i); ok (wallet ∷ wallets)
]

unfoldable pub to_squads_period : Period → SquadsPeriod
to_squads_period (Period.custom seconds) = SquadsPeriod.custom (whole seconds)
to_squads_period Period.one_time = SquadsPeriod.one_time
to_squads_period Period.daily = SquadsPeriod.daily
to_squads_period Period.weekly = SquadsPeriod.weekly
to_squads_period Period.monthly = SquadsPeriod.monthly

abbrev pub or_else {ℓ} : {A : Type ℓ} → Option A → A → A
or_else none d = d
or_else (some a) d = a

abbrev pub budget_period : Option Budget → SquadsPeriod
budget_period none = SquadsPeriod.daily
budget_period (some b) = to_squads_period b.period

abbrev pub budget_cap : Option Budget → ℤ
budget_cap none = pos u64_max
budget_cap (some b) = b.max_per_period

abbrev pub budget_use : Option Budget → ℤ
budget_use none = pos 0
budget_use (some b) = or_else b.max_per_use (pos 0)

unfoldable pub signer_of : KeyMap → Text → SquadsSigner
signer_of keys id = record { key = map_get id keys; permissions = all_permissions }

-- The policy that the inner loop pushes.
unfoldable pub policy_of : KeyMap → List Text → ℕ → TreasuryAsset → Text → List Text → SquadsPolicy
policy_of keys destinations source asset mint coalition = record {
  coalition = coalition;
  asset = asset.symbol;
  signers = map (signer_of keys) coalition;
  threshold = length coalition;
  time_lock = 0;
  payload = record {
    mint = mint;
    source_account_index = source;
    destinations = destinations;
    start = 0;
    expiration = none;
    period = budget_period asset.budget;
    accumulate_unused = false;
    max_per_period = budget_cap asset.budget;
    max_per_use = budget_use asset.budget;
    enforce_exact_quantity = false;
  };
}

-- `solanaMint === 'native' ? NATIVE_SOL_MINT : solanaMint ?? fail(…)`
unfoldable pub mint_of : TreasuryAsset → Outcome Text
mint_of asset = elim asset.solana_mint [
  | none ↦ fail Backend.squads (Reason.asset_without_mint asset.symbol)
  | some mint ↦ ok (if text_eq mint (text "native") then native_sol_mint else mint)
]

-- `solanaDecimals !== undefined && solanaDecimals !== 9`
abbrev pub is_not_nine : Option Number → Bool
is_not_nine none = false
is_not_nine (some (Number.integer z)) = if ltb_ℤ z (pos 9) then true else ltb_ℤ (pos 9) z
is_not_nine (some Number.fractional) = true

unfoldable pub asset_policies :
    KeyMap → List Text → ℕ → List (List Text) → List TreasuryAsset → Outcome (List SquadsPolicy)
asset_policies keys destinations source coalitions [] = ok []
asset_policies keys destinations source coalitions (a ∷ as') = do
  mint ← mint_of a
  fail_if (text_eq mint native_sol_mint && is_not_nine a.solana_decimals) Backend.squads
      Reason.native_decimals
  policies ← asset_policies keys destinations source coalitions as'
  ok (map (policy_of keys destinations source a mint) coalitions ++ policies)

abbrev pub or_range_error : Option (List (List Text)) → Outcome (List (List Text))
or_range_error none = range_error
or_range_error (some cs) = ok cs

abbrev pub timelock_notes : ℕ → List SquadsNote
timelock_notes zero = SquadsNote.no_timelock ∷ []
timelock_notes (suc n) = []

unfoldable pub compile_squads :
    WeightedTreasurySpec → CompileSquadsOptions → Outcome SquadsTreasuryPlan
compile_squads s options = do
  validate_spec s
  let max_policies = or_else options.max_policies default_max_policies
  let source = or_else options.source_account_index 0
  keys ← key_of_owners s.owners []
  recipients ← squads_recipients s.allowlist 0
  let destinations = distinct_texts [] recipients
  fail_if (is_empty destinations) Backend.squads Reason.empty_destinations
  coalitions ←
      or_range_error (minimal_winning_coalitions (members s.owners) (whole s.threshold_weight))
  let policy_count = length coalitions * length s.assets
  fail_if (ltb max_policies policy_count) Backend.squads
      (Reason.too_many_policies (length coalitions) (length s.assets) policy_count)
  policies ← asset_policies keys destinations source coalitions s.assets
  ok (record {
    program_id = smart_account_program_id;
    settings = record {
      signers = map (λ (o : TreasuryOwner). signer_of keys o.id) s.owners;
      threshold = length s.owners;
      time_lock = whole s.admin_timelock_seconds;
    };
    policies = policies;
    source_account_index = source;
    notes =
        SquadsNote.admin_needs_all (length s.owners)
        ∷ SquadsNote.settings_run_anything
        ∷ SquadsNote.policy_count (length coalitions) (length s.assets) policy_count
        ∷ timelock_notes (whole s.admin_timelock_seconds);
  })
