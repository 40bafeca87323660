-- ===== src/Wallets/Examples.antt =====
-- Runs of the model of packages/modular-wallets-core/src on small inputs, and its theorems there.
use bufi.Base.{◌≡◌, not, ◌||◌, refl, true, false, none, List, [], ◌∷◌, ◌++◌, map, all, In}
use bufi.Base.Int.{ltb_ℤ, pos, ◌+ℤ◌, ◌-ℤ◌}
use bufi.Base.Texts.{Text, text, to_lower_case}
use bufi.Wallets.Failures.{Fallible, done, failed, Failure}
use bufi.Wallets.Grant.{BufiGrant, BufiGrantSpendBudget, is_same}
use bufi.Wallets.Updates.{PermissionUpdate, build_bufi_grant}
use bufi.Wallets.Updates.Access.{
  permits, is_allowed, is_budgeted, is_erc20_function, HasDistinctTargets,
}
use bufi.Wallets.Updates.Exact.{build_bufi_grant-permits}
use bufi.Wallets.Presets.{
  AgentGrantPresetBase, SpendFromYieldGrantParameters, Erc8183BuyerGrantParameters,
  spend_from_yield_grant, erc8183_buyer_grant, entry, complete_signature, transfer_signature,
}
use bufi.Wallets.Presets.Buyer.{erc8183_buyer_grant-permits}
use bufi.Wallets.Presets.Yield.{names}
use bufi.Wallets.Presets.Paying.{
  signature_of, pays_from_yield, spend_from_yield_grant-permits,
  build_spend_from_yield_calls-permitted,
}
use bufi.Wallets.SpendFromYield.{
  YieldPayment, TokenBalance, VaultConfig, SpendFromYieldCalls, liquid, withdrawal, payment_call,
  build_spend_from_yield_calls,
}
use bufi.Wallets.SpendFromYield.Covered.{
  IsCovered, total_of, sourced_of, build_spend_from_yield_calls-IsCovered,
}

-- A selector that is the signature itself.
abbrev whole_signature : Text → Text
whole_signature t = t

abbrev ten : BufiGrantSpendBudget
ten = record { limit = pos 10; refresh_interval_seconds = pos 60 }

abbrev base : AgentGrantPresetBase
base = record {
  expiry = record { valid_after = none; valid_until = pos 100 };
  gas = none;
  required_paymaster = none;
}

abbrev from_yield : SpendFromYieldGrantParameters
from_yield = record {
  base = base;
  token = text "0xA";
  vaults = text "0xB" ∷ text "0xb" ∷ [];
  recipients = text "0xC" ∷ [];
  budget = ten;
  include_redeem = false;
}

abbrev granted : Fallible BufiGrant → BufiGrant
granted (done g) = g
granted (failed why) = record {
  scope = record { allow = [] };
  budget = none;
  expiry = base.expiry;
  required_paymaster = none;
}

abbrev built : Fallible (List PermissionUpdate) → List PermissionUpdate
built (done us) = us
built (failed why) = []

abbrev yield_grant : BufiGrant
yield_grant = granted (spend_from_yield_grant whole_signature from_yield)

abbrev yield_updates : List PermissionUpdate
yield_updates = built (build_bufi_grant yield_grant)

yield_grant-granted : spend_from_yield_grant whole_signature from_yield ≡ done yield_grant
unfolding spend_from_yield_grant bufi.Wallets.Presets.vault_entries is_same
yield_grant-granted = refl

yield_updates-built : build_bufi_grant yield_grant ≡ done yield_updates
unfolding build_bufi_grant spend_from_yield_grant bufi.Wallets.Presets.vault_entries is_same
    bufi.Wallets.Presets.grant
yield_updates-built = refl

-- Two payments of 4 with 5 liquid: 3 are withdrawn.
abbrev two_payments : List YieldPayment
two_payments =
    record { token = text "0xa"; to = text "0xC"; amount = pos 4 }
    ∷ record { token = text "0xA"; to = text "0xC"; amount = pos 4 }
    ∷ []

abbrev five : List TokenBalance
five = record { token = text "0xA"; balance = pos 5 } ∷ []

abbrev one_vault : List VaultConfig
one_vault = record { token = text "0xA"; vault = text "0xB" } ∷ []

abbrev paying : SpendFromYieldCalls
paying = record {
  withdrawals =
      map (withdrawal (text "0xD"))
        (record { token = text "0xa"; vault = text "0xB"; amount = pos 3 } ∷ []);
  transfers = map payment_call two_payments;
  calls =
      map (withdrawal (text "0xD"))
        (record { token = text "0xa"; vault = text "0xB"; amount = pos 3 } ∷ [])
      ++ map payment_call two_payments;
  sourced = record { token = text "0xa"; vault = text "0xB"; amount = pos 3 } ∷ [];
}

paying-built : build_spend_from_yield_calls (text "0xD") two_payments five one_vault ≡ done paying
unfolding build_spend_from_yield_calls bufi.Wallets.SpendFromYield.collect_needed
    bufi.Wallets.SpendFromYield.source_needed bufi.Wallets.SpendFromYield.add_needed ◌-ℤ◌ ◌+ℤ◌
    bufi.Wallets.SpendFromYield.last_set bufi.Wallets.SpendFromYield.source_short
paying-built = refl

no_vault-short :
    build_spend_from_yield_calls (text "0xD") two_payments five []
    ≡ failed (Failure.short (pos 3) (text "0xa"))
unfolding build_spend_from_yield_calls bufi.Wallets.SpendFromYield.collect_needed
    bufi.Wallets.SpendFromYield.source_needed bufi.Wallets.SpendFromYield.add_needed ◌-ℤ◌ ◌+ℤ◌
    bufi.Wallets.SpendFromYield.last_set bufi.Wallets.SpendFromYield.source_short
no_vault-short = refl

yield_grant-distinct : HasDistinctTargets yield_grant.scope.allow
unfolding spend_from_yield_grant bufi.Wallets.Presets.vault_entries is_same
    bufi.Wallets.Presets.grant
yield_grant-distinct = (refl, (refl, tt))

paid_in_token : all (λ q. is_same from_yield.token q.token) two_payments ≡ true
unfolding is_same
paid_in_token = refl

known_vaults : all (λ c. names c.vault from_yield.vaults) one_vault ≡ true
unfolding is_same
known_vaults = refl

build_bufi_grant-permits_example :
    permits whole_signature yield_updates (text "0xb") complete_signature
    ≡ is_allowed yield_grant.scope.allow (text "0xb") complete_signature (
        not (is_budgeted yield_grant (text "0xb"))
        || is_erc20_function whole_signature complete_signature)
build_bufi_grant-permits_example =
    build_bufi_grant-permits whole_signature yield_grant yield_updates yield_grant-distinct
      yield_updates-built (text "0xb") complete_signature

spend_from_yield_grant-permits_example :
    permits whole_signature yield_updates (text "0xa") transfer_signature
    ≡ pays_from_yield whole_signature from_yield (text "0xa") transfer_signature
spend_from_yield_grant-permits_example =
    spend_from_yield_grant-permits whole_signature from_yield yield_grant yield_updates
      yield_grant-granted yield_updates-built (text "0xa") transfer_signature

build_spend_from_yield_calls-permitted_example :
    all
      (λ c.
        permits whole_signature yield_updates c.target (whole_signature (signature_of c.call_data)))
      paying.calls
    ≡ true
build_spend_from_yield_calls-permitted_example =
    build_spend_from_yield_calls-permitted whole_signature from_yield yield_grant yield_updates
      (text "0xD") two_payments five one_vault paying yield_grant-granted yield_updates-built
      paying-built paid_in_token known_vaults

build_spend_from_yield_calls-IsCovered_example :
    (paying.calls ≡ map (withdrawal (text "0xD")) paying.sourced ++ map payment_call two_payments)
    × (all (λ s. ltb_ℤ (pos 0) s.amount) paying.sourced ≡ true)
    × ((p : YieldPayment)
        → In p two_payments
        → IsCovered
            (total_of (to_lower_case p.token) two_payments)
            (liquid five one_vault (to_lower_case p.token))
            (sourced_of (to_lower_case p.token) paying.sourced))
build_spend_from_yield_calls-IsCovered_example =
    build_spend_from_yield_calls-IsCovered (text "0xD") two_payments five one_vault paying
      paying-built

abbrev buyer : Erc8183BuyerGrantParameters
buyer = record {
  base = base;
  job_contract = none;
  token = text "0xA";
  budget = ten;
  include_complete = false;
}

abbrev buyer_updates : List PermissionUpdate
buyer_updates = built (build_bufi_grant (erc8183_buyer_grant whole_signature buyer))

buyer_updates-built :
    build_bufi_grant (erc8183_buyer_grant whole_signature buyer) ≡ done buyer_updates
unfolding build_bufi_grant erc8183_buyer_grant bufi.Wallets.Presets.grant
buyer_updates-built = refl

jobs-apart : is_same (text "0x0747EEf0706327138c69792bF28Cd525089e4583") (text "0xA") ≡ false
unfolding is_same
jobs-apart = refl

erc8183_buyer_grant-permits_example :
    permits whole_signature buyer_updates
      (text "0x0747EEf0706327138c69792bF28Cd525089e4583")
      complete_signature
    ≡ false
unfolding is_same
erc8183_buyer_grant-permits_example =
    erc8183_buyer_grant-permits whole_signature buyer buyer_updates jobs-apart buyer_updates-built
      (text "0x0747EEf0706327138c69792bF28Cd525089e4583") complete_signature
