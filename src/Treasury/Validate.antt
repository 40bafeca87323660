-- ===== src/Treasury/Validate.antt =====
-- packages/weighted-treasury/src/validate.ts.
pub mod Valid
pub mod Owners
pub mod Assets
pub mod Sound
use bufi.Base.{
  ℕ, ◌+◌, ◌≡◌, Bool, true, false, not, ◌&&◌, ◌||◌, Option, none, some, List, [], ◌∷◌, ltb, leb,
  ◌==◌, length, all, any,
}
use bufi.Base.Int.{ℤ, pos, ltb_ℤ, leb_ℤ}
use bufi.Base.Texts.{Text, text_eq}
use bufi.Base.TextSets.{includes}
use bufi.Treasury.Spec.{
  Number, integer, is_outside, whole, max_weight, TreasuryOwner, Period, Budget, TreasuryAsset,
  WeightedTreasurySpec, Backend, Reason, Outcome, ok, ◌>>=◌, ◌>>◌, fail_if,
}

abbrev pub is_hex : ℕ → Bool
is_hex c = leb b'0' c && leb c b'9' || (leb b'a' c && leb c b'f' || leb b'A' c && leb c b'F')

-- `[1-9A-HJ-NP-Za-km-z]`
abbrev pub is_base58 : ℕ → Bool
is_base58 c =
    leb b'1' c && leb c b'9'
    || (leb b'A' c && leb c b'H'
        || (leb b'J' c && leb c b'N'
            || (leb b'P' c && leb c b'Z'
                || (leb b'a' c && leb c b'k' || leb b'm' c && leb c b'z'))))

-- `/^0x[0-9a-fA-F]{40}$/`
unfoldable pub is_evm_address : Text → Bool
is_evm_address [] = false
is_evm_address (a ∷ []) = false
is_evm_address (a ∷ b ∷ rest) =
    (a == b'0') && ((b == b'x') && ((length rest == 40) && all is_hex rest))

-- `/^[1-9A-HJ-NP-Za-km-z]{32,44}$/`
unfoldable pub is_solana_key : Text → Bool
is_solana_key value = leb 32 (length value) && (leb (length value) 44 && all is_base58 value)

-- `value !== undefined && !test(value)`
abbrev pub is_present_but_not : (Text → Bool) → Option Text → Bool
is_present_but_not test none = false
is_present_but_not test (some value) = not (test value)

-- One round of the loop over the owners; the state is the set of ids and the total weight.
unfoldable pub validate_owner : TreasuryOwner → List Text → ℕ → Outcome (List Text × ℕ)
validate_owner owner ids total = do
  fail_if (includes ids owner.id) Backend.spec (Reason.duplicate_owner_id owner.id)
  fail_if (is_outside (pos 1) (pos max_weight) owner.weight) Backend.spec
      (Reason.weight_out_of_range owner.id)
  fail_if (is_present_but_not is_evm_address owner.evm) Backend.spec
      (Reason.invalid_evm_address owner.id)
  fail_if (is_present_but_not is_solana_key owner.solana) Backend.spec
      (Reason.invalid_solana_key owner.id)
  ok (owner.id ∷ ids, total + whole owner.weight)

unfoldable pub validate_owners : List TreasuryOwner → List Text → ℕ → Outcome ℕ
validate_owners [] ids total = ok total
validate_owners (owner ∷ owners) ids total = do
  (ids', total') ← validate_owner owner ids total
  validate_owners owners ids' total'

-- `maxPerUse !== undefined && (maxPerUse <= 0n || maxPerUse > maxPerPeriod)`
abbrev pub is_use_outside : Budget → Bool
is_use_outside b = elim b.max_per_use [
  | none ↦ false
  | some use_cap ↦ leb_ℤ use_cap (pos 0) || ltb_ℤ b.max_per_period use_cap
]

-- `!Number.isInteger(customSeconds) || customSeconds <= 0`
abbrev pub is_custom_not_positive : Period → Bool
is_custom_not_positive (Period.custom (Number.integer z)) = leb_ℤ z (pos 0)
is_custom_not_positive (Period.custom Number.fractional) = true
is_custom_not_positive _ = false

unfoldable pub validate_budget : Text → Option Budget → Outcome (Unit {0})
validate_budget symbol none = ok tt
validate_budget symbol (some b) = do
  fail_if (leb_ℤ b.max_per_period (pos 0)) Backend.spec (Reason.budget_not_positive symbol)
  fail_if (is_use_outside b) Backend.spec (Reason.use_not_in_budget symbol)
  fail_if (is_custom_not_positive b.period) Backend.spec (Reason.custom_period_not_positive symbol)

unfoldable pub validate_assets : List TreasuryAsset → Outcome (Unit {0})
validate_assets [] = ok tt
validate_assets (asset ∷ assets) = do
  validate_budget asset.symbol asset.budget
  validate_assets assets

-- `spec.version !== 1`
abbrev pub is_not_one : Number → Bool
is_not_one (Number.integer z) = ltb_ℤ z (pos 1) || ltb_ℤ (pos 1) z
is_not_one Number.fractional = true

abbrev pub is_empty : {A : Type 0} → List A → Bool
is_empty [] = true
is_empty (x ∷ xs) = false

unfoldable pub validate_spec : WeightedTreasurySpec → Outcome (Unit {0})
validate_spec s = do
  fail_if (is_not_one s.version) Backend.spec (Reason.unsupported_version s.version)
  fail_if (is_empty s.owners) Backend.spec Reason.no_owner
  total ← validate_owners s.owners [] 0
  fail_if (is_outside (pos 1) (pos total) s.threshold_weight) Backend.spec
      (Reason.threshold_out_of_range total)
  fail_if (is_empty s.allowlist) Backend.spec Reason.empty_allowlist
  fail_if (is_empty s.assets) Backend.spec Reason.no_asset
  validate_assets s.assets
  fail_if (is_outside (pos 0) (pos 0xffffffff) s.admin_timelock_seconds) Backend.spec
      Reason.timelock_not_u32
