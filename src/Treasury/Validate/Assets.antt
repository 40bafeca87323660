-- ===== src/Treasury/Validate/Assets.antt =====
-- The loop of `validateSpec` over the assets.
use bufi.Base.{
  zero, suc, ◌≡◌, ◌↔◌, refl, Bool, false, Option, none, some, List, [], ◌∷◌, arith, All,
}
use bufi.Base.Int.{ℤ, pos, negsuc, ◌≤ℤ◌, leb_ℤ}
use bufi.Base.Texts.{Text}
use bufi.Treasury.Spec.{
  integer, fractional, Period, Budget, TreasuryAsset, Backend, Reason, ok, ◌>>◌, fail_if, >>-eq-ok,
}
use bufi.Treasury.Validate.{
  is_use_outside, is_custom_not_positive, validate_budget, validate_assets,
}
use bufi.Treasury.Validate.Valid.{IsValidPeriod, IsValidUse, IsValidBudget}

period_iff : (p : Period) → (is_custom_not_positive p ≡ false) ↔ IsValidPeriod p
period_iff Period.one_time = (λ h. tt, λ h. refl)
period_iff Period.daily = (λ h. tt, λ h. refl)
period_iff Period.weekly = (λ h. tt, λ h. refl)
period_iff Period.monthly = (λ h. tt, λ h. refl)
period_iff (Period.custom (integer (pos zero))) =
    (λ h. absurd (ground arith), λ h. absurd (ground arith))
period_iff (Period.custom (integer (pos (suc n)))) = (λ h. (n, refl), λ h. ground arith)
period_iff (Period.custom (integer (negsuc n))) =
    (λ h. absurd (ground arith), λ h. absurd (ground arith))
period_iff (Period.custom fractional) = (λ h. absurd (ground arith), λ h. absurd (ground arith))

use_iff : (b : Budget) → (is_use_outside b ≡ false) ↔ IsValidUse b.max_per_use b.max_per_period
use_iff b =
    elim (b.max_per_use)
      as (λ u.
        (is_use_outside (record b { max_per_use = u }) ≡ false) ↔ IsValidUse u b.max_per_period) [
          | none ↦ (λ h. tt, λ h. refl)
          | some u ↦ (λ h. ground arith, λ h. ground arith)
        ]

three_guards :
    (a b c : Bool) (bk : Backend) (p q r : Reason)
    → (fail_if a bk p >> (fail_if b bk q >> fail_if c bk r)) ≡ ok tt
    → (a ≡ false) × (b ≡ false) × (c ≡ false)
three_guards a b c bk p q r h = ground arith

positive_iff : (z : ℤ) → (leb_ℤ z (pos 0) ≡ false) ↔ (pos 1 ≤ℤ z)
positive_iff z = (λ h. ground arith, λ h. ground arith)

budget_sound :
    (symbol : Text) (b : Option Budget) → validate_budget symbol b ≡ ok tt → IsValidBudget b
unfolding validate_budget
budget_sound symbol none h = tt
budget_sound symbol (some b) h =
    let g =
      three_guards (leb_ℤ b.max_per_period (pos 0)) (is_use_outside b)
        (is_custom_not_positive b.period) Backend.spec _ _ _ h in
    ((positive_iff b.max_per_period).0 g.0, (use_iff b).0 g.1, (period_iff b.period).0 g.2)

budget_complete :
    (symbol : Text) (b : Option Budget) → IsValidBudget b → validate_budget symbol b ≡ ok tt
unfolding validate_budget
budget_complete symbol none v = refl
budget_complete symbol (some b) v =
    rw ((positive_iff b.max_per_period).1 v.0, (use_iff b).1 v.1, (period_iff b.period).1 v.2)

pub assets_sound :
    (as' : List TreasuryAsset)
    → validate_assets as' ≡ ok tt
    → All (λ (a : TreasuryAsset). IsValidBudget a.budget) as'
unfolding validate_assets
assets_sound [] h = tt
assets_sound (a ∷ as') h =
    let m = >>-eq-ok (validate_budget a.symbol a.budget) _ h in
    (budget_sound a.symbol a.budget m.0, assets_sound as' m.1)

pub assets_complete :
    (as' : List TreasuryAsset)
    → All (λ (a : TreasuryAsset). IsValidBudget a.budget) as'
    → validate_assets as' ≡ ok tt
unfolding validate_assets
assets_complete [] v = refl
assets_complete (a ∷ as') v = rw (budget_complete a.symbol a.budget v.0) (assets_complete as' v.1)
