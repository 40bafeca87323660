-- ===== src/Wallets/Presets.antt =====
-- packages/modular-wallets-core/src/cascade/agentGrantPresets.ts: the grants of the agent roles.
-- `toFunctionSelector` is a parameter.
pub mod Buyer
pub mod Yield
pub mod Paying
use bufi.Base.{Bool, true, false, not, Option, none, some, List, [], ◌∷◌, ◌++◌, if◌then◌else◌}
use bufi.Base.Int.{ℤ, pos}
use bufi.Base.Texts.{Text, text, text_eq, to_lower_case}
use bufi.Base.TextSets.{includes}
use bufi.Wallets.Failures.{Fallible, done, failed, Failure, and_then, fail_when}
use bufi.Wallets.Grant.{
  BufiGrantScopeEntry, BufiGrantErc20Budget, BufiGrantSpendBudget, BufiGrantBudget, BufiGrantExpiry,
  BufiGrant, is_same,
}
use bufi.Wallets.Updates.{is_listed}

abbrev pub default_agent_gas_budget : BufiGrantSpendBudget
default_agent_gas_budget = record {
  limit = pos 500_000_000_000_000_000;
  refresh_interval_seconds = pos 86_400;
}

abbrev pub arc_testnet_erc8183_jobs : Text
arc_testnet_erc8183_jobs = text "0x0747EEf0706327138c69792bF28Cd525089e4583"

abbrev pub arc_testnet_reputation : Text
arc_testnet_reputation = text "0x8004B663056A597Dffe9eCcC1965A193B7388713"

abbrev pub transfer_signature : Text
transfer_signature = text "function transfer(address,uint256)"

abbrev pub approve_signature : Text
approve_signature = text "function approve(address,uint256)"

abbrev pub withdraw_signature : Text
withdraw_signature = text "function withdraw(uint256,address,address)"

abbrev pub redeem_signature : Text
redeem_signature = text "function redeem(uint256,address,address)"

abbrev pub create_job_signature : Text
create_job_signature = text "function createJob(address,address,uint256,string,address)"

abbrev pub set_budget_signature : Text
set_budget_signature = text "function setBudget(uint256,uint256,bytes)"

abbrev pub fund_signature : Text
fund_signature = text "function fund(uint256,bytes)"

abbrev pub submit_signature : Text
submit_signature = text "function submit(uint256,bytes32,bytes)"

abbrev pub complete_signature : Text
complete_signature = text "function complete(uint256,bytes32,bytes)"

abbrev pub reject_signature : Text
reject_signature = text "function reject(uint256,bytes32,bytes)"

abbrev pub give_feedback_signature : Text
give_feedback_signature =
    text "function giveFeedback(uint256,int128,uint8,string,string,string,string,bytes32)"

abbrev pub deposit_signature : Text
deposit_signature = text "function deposit(address,uint256)"

abbrev pub deposit_for_signature : Text
deposit_for_signature = text "function depositFor(address,address,uint256)"

-- What every role's parameters have.
pub record AgentGrantPresetBase : Type 0 where
  pub expiry : BufiGrantExpiry
  pub gas : Option BufiGrantSpendBudget
  pub required_paymaster : Option Text

pub record Erc8183BuyerGrantParameters : Type 0 where
  pub base : AgentGrantPresetBase
  pub job_contract : Option Text
  pub token : Text
  pub budget : BufiGrantSpendBudget
  pub include_complete : Bool

pub record Erc8183ProviderGrantParameters : Type 0 where
  pub base : AgentGrantPresetBase
  pub job_contract : Option Text

pub record Erc8004RaterGrantParameters : Type 0 where
  pub base : AgentGrantPresetBase
  pub reputation_registry : Option Text
  pub give_feedback : Option Text

pub record FloatFunderGrantParameters : Type 0 where
  pub base : AgentGrantPresetBase
  pub token : Text
  pub recipients : List Text
  pub budget : BufiGrantSpendBudget

pub record GatewayDepositorGrantParameters : Type 0 where
  pub base : AgentGrantPresetBase
  pub gateway_wallet : Text
  pub token : Text
  pub budget : BufiGrantSpendBudget

pub record SpendFromYieldGrantParameters : Type 0 where
  pub base : AgentGrantPresetBase
  pub token : Text
  pub vaults : List Text
  pub recipients : List Text
  pub budget : BufiGrantSpendBudget
  pub include_redeem : Bool

abbrev pub or_default : {A : Type 0} → Option A → A → A
or_default none a = a
or_default (some a) b = a

-- A scope entry with the selectors it names.
abbrev pub entry : Text → List Text → BufiGrantScopeEntry
entry target selectors = record { target = target; selectors = some selectors }

abbrev erc20_list : Option (Text × BufiGrantSpendBudget) → Option (List BufiGrantErc20Budget)
erc20_list none = none
erc20_list (some erc20) = some (
    record {
      token = erc20.0;
      limit = erc20.1.limit;
      refresh_interval_seconds = erc20.1.refresh_interval_seconds;
    }
    ∷ [])

abbrev unless_empty : Option Text → Option Text
unless_empty none = none
unless_empty (some []) = none
unless_empty (some (c ∷ cs)) = some (c ∷ cs)

-- `grant(scope, expiry, erc20, gas, requiredPaymaster)`
unfoldable pub grant :
    List BufiGrantScopeEntry
    → AgentGrantPresetBase
    → Option (Text × BufiGrantSpendBudget)
    → BufiGrant
grant scope base erc20 = record {
  scope = record { allow = scope };
  budget = some (record {
    erc20 = erc20_list erc20;
    native = none;
    gas = some (or_default base.gas default_agent_gas_budget);
  });
  expiry = base.expiry;
  required_paymaster = unless_empty base.required_paymaster;
}

-- The loop over the vaults, with the set of those seen: the entries that it pushes.
unfoldable pub vault_entries :
    Text → List Text → List Text → List Text → Fallible (List BufiGrantScopeEntry)
vault_entries token selectors [] seen = done []
vault_entries token selectors (vault ∷ vaults) seen =
    let key = to_lower_case vault in
    let skipped = vault_entries token selectors vaults seen in
    let pushed =
      and_then (vault_entries token selectors vaults (key ∷ seen))
        (λ rest. done (entry vault selectors ∷ rest)) in
    if is_same vault token
    then failed (Failure.vault_is_token token)
    else if includes seen key
    then skipped
    else pushed

module _ (to_function_selector : Text → Text) where
  abbrev pub job_selectors : Bool → List Text
  job_selectors include_complete =
      to_function_selector create_job_signature
      ∷ to_function_selector fund_signature
      ∷ to_function_selector reject_signature
      ∷ (if include_complete then to_function_selector complete_signature ∷ [] else [])

  unfoldable pub erc8183_buyer_grant : Erc8183BuyerGrantParameters → BufiGrant
  erc8183_buyer_grant p =
      grant
        (entry p.token
            (to_function_selector approve_signature ∷ to_function_selector transfer_signature ∷ [])
          ∷ entry (or_default p.job_contract arc_testnet_erc8183_jobs)
              (job_selectors p.include_complete)
          ∷ [])
        p.base (some (p.token, p.budget))

  unfoldable pub erc8183_provider_grant : Erc8183ProviderGrantParameters → BufiGrant
  erc8183_provider_grant p =
      grant
        (entry (or_default p.job_contract arc_testnet_erc8183_jobs)
            (to_function_selector set_budget_signature ∷ to_function_selector submit_signature ∷ [])
          ∷ [])
        p.base none

  unfoldable pub erc8004_rater_grant : Erc8004RaterGrantParameters → BufiGrant
  erc8004_rater_grant p =
      grant
        (entry (or_default p.reputation_registry arc_testnet_reputation)
            (to_function_selector (or_default p.give_feedback give_feedback_signature) ∷ [])
          ∷ [])
        p.base none

  unfoldable pub float_funder_grant : FloatFunderGrantParameters → Fallible BufiGrant
  float_funder_grant p = fail_when (not (is_listed p.recipients)) Failure.no_float_recipient (
      done (
        grant (entry p.token (to_function_selector transfer_signature ∷ []) ∷ []) p.base
          (some (p.token, p.budget))))

  unfoldable pub gateway_depositor_grant : GatewayDepositorGrantParameters → BufiGrant
  gateway_depositor_grant p =
      grant
        (entry p.token (to_function_selector approve_signature ∷ [])
          ∷ entry p.gateway_wallet (
              to_function_selector deposit_signature
              ∷ to_function_selector deposit_for_signature
              ∷ [])
          ∷ [])
        p.base (some (p.token, p.budget))

  abbrev pub vault_selectors : Bool → List Text
  vault_selectors include_redeem =
      to_function_selector withdraw_signature
      ∷ (if include_redeem then to_function_selector redeem_signature ∷ [] else [])

  unfoldable pub spend_from_yield_grant : SpendFromYieldGrantParameters → Fallible BufiGrant
  spend_from_yield_grant p = fail_when (not (is_listed p.vaults)) Failure.no_vault (
      fail_when (not (is_listed p.recipients)) Failure.no_recipient (
        and_then (vault_entries p.token (vault_selectors p.include_redeem) p.vaults []) (λ entries.
          done (
            grant (entry p.token (to_function_selector transfer_signature ∷ []) ∷ entries) p.base
              (some (p.token, p.budget))))))
