-- ===== src/Wallets/Updates.antt =====
-- packages/modular-wallets-core/src/actions/plugins/sessionKey: `buildBufiGrant`, and the updates of
-- permissionUpdates.ts, each standing for its ABI encoding.
pub mod Access
pub mod Exact
use bufi.Base.{Bool, true, false, not, Option, none, some, List, [], ◌∷◌, ◌++◌}
use bufi.Base.Int.{ℤ, pos, leb_ℤ}
use bufi.Base.Texts.{Text}
use bufi.Wallets.Failures.{Fallible, done, Failure, fail_when}
use bufi.Wallets.Grant.{
  BufiGrantScopeEntry, BufiGrantErc20Budget, BufiGrantSpendBudget, BufiGrantBudget, BufiGrant,
}

pub data ContractAccessControlType : Type 0 where
  allowlist denylist allow_all : ContractAccessControlType

pub data PermissionUpdate : Type 0 where
  set_access_list_type : ContractAccessControlType → PermissionUpdate
  -- The contract, whether it is on the list, and whether its selectors are checked.
  update_access_list_address_entry : Text → Bool → Bool → PermissionUpdate
  update_access_list_function_entry : Text → Text → Bool → PermissionUpdate
  update_time_range : ℤ → ℤ → PermissionUpdate
  set_native_token_spend_limit : ℤ → ℤ → PermissionUpdate
  set_erc20_spend_limit : Text → ℤ → ℤ → PermissionUpdate
  set_gas_spend_limit : ℤ → ℤ → PermissionUpdate
  set_required_paymaster : Text → PermissionUpdate

abbrev pub or_empty : {A : Type 0} → Option (List A) → List A
or_empty none = []
or_empty (some xs) = xs

abbrev pub is_listed : {A : Type 0} → List A → Bool
is_listed [] = false
is_listed (x ∷ xs) = true

-- The inner loop of `buildBufiGrant`.
unfoldable pub selector_updates : Text → List Text → List PermissionUpdate
selector_updates target [] = []
selector_updates target (selector ∷ rest) =
    update_access_list_function_entry target selector true ∷ selector_updates target rest

unfoldable pub entry_updates : List BufiGrantScopeEntry → List PermissionUpdate
entry_updates [] = []
entry_updates (e ∷ es) =
    let selectors = or_empty e.selectors in
    update_access_list_address_entry e.target true (is_listed selectors)
      ∷ selector_updates e.target selectors
    ++ entry_updates es

unfoldable pub erc20_updates : List BufiGrantErc20Budget → List PermissionUpdate
erc20_updates [] = []
erc20_updates (b ∷ bs) =
    set_erc20_spend_limit b.token b.limit b.refresh_interval_seconds ∷ erc20_updates bs

abbrev pub native_updates : Option BufiGrantSpendBudget → List PermissionUpdate
native_updates none = []
native_updates (some b) = set_native_token_spend_limit b.limit b.refresh_interval_seconds ∷ []

abbrev pub gas_updates : Option BufiGrantSpendBudget → List PermissionUpdate
gas_updates none = []
gas_updates (some b) = set_gas_spend_limit b.limit b.refresh_interval_seconds ∷ []

unfoldable pub budget_updates : Option BufiGrantBudget → List PermissionUpdate
budget_updates none = []
budget_updates (some b) =
    erc20_updates (or_empty b.erc20) ++ (native_updates b.native ++ gas_updates b.gas)

-- An empty text is falsy.
abbrev pub paymaster_updates : Option Text → List PermissionUpdate
paymaster_updates none = []
paymaster_updates (some []) = []
paymaster_updates (some (c ∷ cs)) = set_required_paymaster (c ∷ cs) ∷ []

abbrev pub or_zero_time : Option ℤ → ℤ
or_zero_time none = pos 0
or_zero_time (some z) = z

-- The updates behind those of the scope.
unfoldable pub later_updates : BufiGrant → List PermissionUpdate
later_updates g =
    budget_updates g.budget
    ++ update_time_range (or_zero_time g.expiry.valid_after) g.expiry.valid_until
      ∷ paymaster_updates g.required_paymaster

unfoldable pub build_bufi_grant : BufiGrant → Fallible (List PermissionUpdate)
build_bufi_grant g = fail_when (not (is_listed g.scope.allow)) Failure.no_target (
    fail_when (leb_ℤ g.expiry.valid_until (or_zero_time g.expiry.valid_after))
      Failure.expires_too_early
      (done (set_access_list_type allowlist ∷ entry_updates g.scope.allow ++ later_updates g)))
