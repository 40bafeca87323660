-- ===== src/Wallets/Updates/Access.antt =====
-- The permissions that the updates of `buildBufiGrant` in packages/modular-wallets-core/src leave, as
-- `_performSessionKeyPermissionsUpdate` and `_checkCallPermissions` of
-- contracts/src/bufi/v0.7/session/permissions/SessionKeyPermissions.sol read them. The reverts on
-- malformed updates, the times and the amounts are left out.
use bufi.Base.{
  ◌≡◌, Bool, true, false, not, ◌&&◌, ◌||◌, ◌^◌, ◌-◌, Option, none, some, List, [], ◌∷◌, any,
  if◌then◌else◌,
}
use bufi.Base.Int.{ℤ, pos, ltb_ℤ}
use bufi.Base.Texts.{Text}
use bufi.Wallets.Grant.{
  BufiGrantScopeEntry, BufiGrantErc20Budget, BufiGrantBudget, BufiGrant, is_same,
}
use bufi.Wallets.Presets.{transfer_signature, approve_signature}
use bufi.Wallets.Updates.{
  ContractAccessControlType, allowlist, denylist, allow_all, PermissionUpdate, set_access_list_type,
  update_access_list_address_entry, update_access_list_function_entry, set_erc20_spend_limit,
  or_empty, is_listed,
}

-- What the plugin keeps for a key and bears on one contract and one selector: the type of the list,
-- whether the contract is on it, whether its selectors are checked, whether the selector is on it, and
-- whether the contract is an ERC-20 with a spend limit.
pub record Access : Type 0 where
  pub list_type : ContractAccessControlType
  pub on_list : Bool
  pub checked : Bool
  pub function_on : Bool
  pub limited : Bool

abbrev pub no_access : Access
no_access = record {
  list_type = allowlist;
  on_list = false;
  checked = false;
  function_on = false;
  limited = false;
}

-- One update, where it is of the contract and the selector.
abbrev apply_address : Bool → Bool → Bool → Access → Access
apply_address true is_on check a = record a { on_list = is_on; checked = check }
apply_address false is_on check a = a

abbrev apply_function : Bool → Bool → Access → Access
apply_function true is_on a = record a { function_on = is_on }
apply_function false is_on a = a

abbrev apply_limit : Bool → Bool → Access → Access
apply_limit true enabled a = record a { limited = enabled }
apply_limit false enabled a = a

-- `type(uint256).max` stands for no limit.
abbrev pub is_limit : ℤ → Bool
is_limit limit = ltb_ℤ limit (pos (2 ^ 256 - 1))

unfoldable pub apply_update : Text → Text → PermissionUpdate → Access → Access
apply_update target selector (set_access_list_type t) a = record a { list_type = t }
apply_update target selector (update_access_list_address_entry t is_on check) a =
    apply_address (is_same t target) is_on check a
apply_update target selector (update_access_list_function_entry t s is_on) a =
    apply_function (is_same t target && is_same s selector) is_on a
apply_update target selector (set_erc20_spend_limit t limit interval) a =
    apply_limit (is_same t target) (is_limit limit) a
apply_update target selector _ a = a

unfoldable pub apply_updates : Text → Text → List PermissionUpdate → Access → Access
apply_updates target selector [] a = a
apply_updates target selector (u ∷ us) a =
    apply_updates target selector us (apply_update target selector u a)

-- `_checkCallPermissions`, with whether the selector passes the check of ERC-20 contracts with a spend
-- limit. A contract that is not on the list, or whose selectors are not checked, is decided before
-- that check.
unfoldable pub check_call : ContractAccessControlType → Bool → Bool → Bool → Bool → Bool
check_call allowlist on_list checked function_on erc20_passes =
    if not on_list then false else if not checked then true else function_on && erc20_passes
check_call denylist on_list checked function_on erc20_passes =
    if not on_list then true else if not checked then false else not function_on && erc20_passes
check_call allow_all on_list checked function_on erc20_passes = erc20_passes

abbrev pub is_callable : Access → Bool → Bool
is_callable a erc20_passes = check_call a.list_type a.on_list a.checked a.function_on erc20_passes

module _ (to_function_selector : Text → Text) where
  -- `isAllowedERC20Function`
  abbrev pub is_erc20_function : Text → Bool
  is_erc20_function selector =
      is_same (to_function_selector transfer_signature) selector
      || is_same (to_function_selector approve_signature) selector

  unfoldable pub permits : List PermissionUpdate → Text → Text → Bool
  permits updates target selector =
      let a = apply_updates target selector updates no_access in
      is_callable a (not a.limited || is_erc20_function selector)

-- Whether the budgets of a grant limit a token: the last one of the token counts.
abbrev pub limited_by : Text → List BufiGrantErc20Budget → Bool → Bool
limited_by target [] before = before
limited_by target (b ∷ bs) before =
    limited_by target bs (if is_same b.token target then is_limit b.limit else before)

abbrev pub budgets_of : Option BufiGrantBudget → List BufiGrantErc20Budget
budgets_of none = []
budgets_of (some b) = or_empty b.erc20

abbrev pub is_budgeted : BufiGrant → Text → Bool
is_budgeted g target = limited_by target (budgets_of g.budget) false

-- What a scope entry says of a call, given whether a budget of the target lets the selector pass: an
-- entry that names no selectors lets every call pass.
abbrev pub is_allowed_by : Text → Text → Bool → BufiGrantScopeEntry → Bool
is_allowed_by target selector in_budget e =
    is_same e.target target
    && (not (is_listed (or_empty e.selectors))
        || (any (λ s. is_same s selector) (or_empty e.selectors) && in_budget))

abbrev pub is_allowed : List BufiGrantScopeEntry → Text → Text → Bool → Bool
is_allowed entries target selector in_budget = any (is_allowed_by target selector in_budget) entries

-- No two entries have one target.
abbrev pub HasDistinctTargets : List BufiGrantScopeEntry → Type 0
HasDistinctTargets [] = Unit
HasDistinctTargets (e ∷ es) =
    (any (λ f. is_same f.target e.target) es ≡ false) × HasDistinctTargets es
