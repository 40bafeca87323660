-- ===== src/Treasury/Validate/Sound.antt =====
-- `validateSpec` accepts exactly the valid specifications.
use bufi.Base.{◌≡◌, ◌≢◌, ◌↔◌, refl, false, List, [], ◌∷◌, arith}
use native.Mathlib.Nat.{zero-add}
use bufi.Base.Int.{pos, negsuc}
use bufi.Base.TextSets.{Fresh-Distinct, Distinct-Fresh}
use bufi.Treasury.Spec.{
  Number, integer, fractional, WeightedTreasurySpec, ok, >>=-eq-ok, >>-eq-ok, fail_if-eq-ok,
}
use bufi.Treasury.Validate.{validate_owners, is_not_one, is_empty, validate_spec}
use bufi.Treasury.Validate.Valid.{total_weight, owner_ids, IsValidSpec}
use bufi.Treasury.Validate.Owners.{outside_InRange, InRange-outside, owners_sound, owners_complete}
use bufi.Treasury.Validate.Assets.{assets_sound, assets_complete}

version_iff : (n : Number) → (is_not_one n ≡ false) ↔ (n ≡ integer (pos 1))
version_iff (integer (pos n)) = (λ h. ground arith, λ h. ground arith)
version_iff (integer (negsuc n)) = (λ h. absurd (ground arith), λ h. absurd (ground arith))
version_iff fractional = (λ h. absurd (ground arith), λ h. absurd (ground arith))

empty_iff : {A : Type 0} (xs : List A) → (is_empty xs ≡ false) ↔ (xs ≢ [])
empty_iff [] = (λ h. absurd (ground arith), λ h. absurd (h refl))
empty_iff (x ∷ xs) = (λ h. λ e. cc, λ h. refl)

validate_spec_sound : (s : WeightedTreasurySpec) → validate_spec s ≡ ok tt → IsValidSpec s
unfolding validate_spec
validate_spec_sound s h =
    let version = >>-eq-ok _ _ h in
    let owner = >>-eq-ok _ _ version.1 in
    let owners = >>=-eq-ok (validate_owners s.owners [] 0) _ owner.1 in
    let loop = owners_sound s.owners [] 0 owners.1 in
    let total : owners.0 ≡ total_weight s.owners = omega (arith, loop.0) in
    let threshold = >>-eq-ok _ _ owners.2 in
    let recipient = >>-eq-ok _ _ threshold.1 in
    let asset = >>-eq-ok _ _ recipient.1 in
    let assets = >>-eq-ok _ _ asset.1 in
    record {
      version_one = (version_iff s.version).0 (fail_if-eq-ok _ _ _ version.0);
      some_owner = (empty_iff s.owners).0 (fail_if-eq-ok _ _ _ owner.0);
      distinct = Fresh-Distinct (owner_ids s.owners) [] loop.1;
      owners_valid = loop.2;
      threshold =
          rw (← total)
            (outside_InRange 1 owners.0 s.threshold_weight (fail_if-eq-ok _ _ _ threshold.0));
      some_recipient = (empty_iff s.allowlist).0 (fail_if-eq-ok _ _ _ recipient.0);
      some_asset = (empty_iff s.assets).0 (fail_if-eq-ok _ _ _ asset.0);
      budgets_valid = assets_sound s.assets assets.0;
      timelock =
          outside_InRange 0 0xffffffff s.admin_timelock_seconds (fail_if-eq-ok _ _ _ assets.1);
    }

validate_spec_complete : (s : WeightedTreasurySpec) → IsValidSpec s → validate_spec s ≡ ok tt
unfolding validate_spec
validate_spec_complete s v = rw (
  (version_iff s.version).1 v.version_one,
  (empty_iff s.owners).1 v.some_owner,
  owners_complete s.owners [] 0 (Distinct-Fresh (owner_ids s.owners) [] v.distinct (λ x i j. i))
      v.owners_valid,
  zero-add,
  InRange-outside 1 (total_weight s.owners) s.threshold_weight v.threshold,
  (empty_iff s.allowlist).1 v.some_recipient,
  (empty_iff s.assets).1 v.some_asset,
  assets_complete s.assets v.budgets_valid,
  InRange-outside 0 0xffffffff s.admin_timelock_seconds v.timelock,
)

-- A specification passes the validation exactly when it has version 1, owners with distinct ids,
-- whole weights in [1, 1000000] and well-formed addresses, a whole threshold between 1 and the sum
-- of the weights, a recipient, an asset, positive budgets whose single use fits the period, and a
-- timelock of 32 bits.
pub validate_spec-IsValidSpec :
    (s : WeightedTreasurySpec) → (validate_spec s ≡ ok tt) ↔ IsValidSpec s
validate_spec-IsValidSpec s = (validate_spec_sound s, validate_spec_complete s)
