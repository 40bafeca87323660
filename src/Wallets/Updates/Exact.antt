-- ===== src/Wallets/Updates/Exact.antt =====
-- `buildBufiGrant` of packages/modular-wallets-core/src permits what the scope allows, and no more.
use bufi.Base.{
  ◌≡◌, Bool, refl, ap, sym, ◌∙◌, true, false, not, ◌&&◌, ◌||◌, Option, none, some, List, [], ◌∷◌,
  ◌++◌, any, arith, Bool-cases, or-true, or-false, inl, inr,
}
use bufi.Base.Int.{leb_ℤ}
use bufi.Base.Texts.{Text}
use bufi.Wallets.Failures.{done, fail_when-done, Failure}
use bufi.Wallets.Grant.{
  BufiGrantScopeEntry, BufiGrantErc20Budget, BufiGrantSpendBudget, BufiGrantBudget, BufiGrant,
  is_same, is_same_right,
}
use bufi.Wallets.Updates.{
  PermissionUpdate, set_access_list_type, allowlist, or_empty, is_listed, or_zero_time,
  selector_updates, entry_updates, erc20_updates, native_updates, gas_updates, paymaster_updates,
  update_time_range, budget_updates, later_updates, build_bufi_grant,
}
use bufi.Wallets.Updates.Access.{
  Access, no_access, apply_update, apply_updates, is_callable, check_call, is_limit, limited_by,
  budgets_of, is_budgeted, is_erc20_function, permits, is_allowed, HasDistinctTargets,
}

same_targets :
    (t u : Text) (es : List BufiGrantScopeEntry)
    → is_same t u ≡ true
    → any (λ f. is_same f.target t) es ≡ false
    → any (λ f. is_same f.target u) es ≡ false
same_targets t u [] h n = refl
same_targets t u (e ∷ es) h n = ground (arith, is_same_right t u e.target h, same_targets t u es h)

module _ (target selector : Text) where
  apply_updates-append :
      (us vs : List PermissionUpdate) (a : Access)
      → apply_updates target selector (us ++ vs) a
        ≡ apply_updates target selector vs (apply_updates target selector us a)
  unfolding apply_updates
  apply_updates-append [] vs a = refl
  apply_updates-append (u ∷ us) vs a = apply_updates-append us vs (apply_update target selector u a)

  -- The function entries of another contract change nothing.
  apply_selectors-other :
      (t : Text) (ss : List Text) (a : Access)
      → is_same t target ≡ false
      → apply_updates target selector (selector_updates t ss) a ≡ a
  unfolding apply_updates apply_update selector_updates
  apply_selectors-other t [] a h = refl
  apply_selectors-other t (s ∷ ss) a h = rw (apply_updates, h) (apply_selectors-other t ss a h)

  apply_selectors :
      (t : Text) (ss : List Text) (a : Access)
      → is_same t target ≡ true
      → apply_updates target selector (selector_updates t ss) a
        ≡ record a { function_on = a.function_on || any (λ s. is_same s selector) ss }
  unfolding apply_updates apply_update selector_updates
  apply_selectors t [] a h = ap (λ b. record a { function_on = b }) (sym (or-false a.function_on))
  apply_selectors t (s ∷ ss) a h = elim (Bool-cases (is_same s selector)) [
    | inl e ↦
        rw (apply_updates, h, e)
          (apply_selectors t ss (record a { function_on = true }) h
            ∙ ap (λ b. record a { function_on = b }) (sym (or-true a.function_on)))
    | inr e ↦ rw (apply_updates, h, e) (apply_selectors t ss a h)
  ]

  -- Entries of other contracts change nothing.
  apply_entries-other :
      (es : List BufiGrantScopeEntry) (a : Access)
      → any (λ e. is_same e.target target) es ≡ false
      → apply_updates target selector (entry_updates es) a ≡ a
  unfolding apply_updates apply_update entry_updates
  apply_entries-other [] a h = refl
  apply_entries-other (e ∷ es) a h =
      let other : is_same e.target target ≡ false = ground arith in
      rw
        (
          apply_updates,
          other,
          apply_updates-append (selector_updates e.target (or_empty e.selectors)) (entry_updates es)
              a,
          apply_selectors-other e.target (or_empty e.selectors) a other,
        )
        (apply_entries-other es a (ground arith))

  is_allowed-other :
      (in_budget : Bool) (es : List BufiGrantScopeEntry)
      → any (λ e. is_same e.target target) es ≡ false
      → is_allowed es target selector in_budget ≡ false
  is_allowed-other in_budget [] h = refl
  is_allowed-other in_budget (e ∷ es) h =
      let other : is_same e.target target ≡ false = ground arith in
      rw (other, is_allowed-other in_budget es (ground arith)) refl

  apply_entries :
      (in_budget : Bool) (es : List BufiGrantScopeEntry)
      → HasDistinctTargets es
      → is_callable (apply_updates target selector (entry_updates es) no_access) in_budget
        ≡ is_allowed es target selector in_budget
  unfolding apply_updates apply_update entry_updates check_call
  apply_entries in_budget [] d = refl
  apply_entries in_budget (e ∷ es) d = elim (Bool-cases (is_same e.target target)) [
    | inl this ↦
        let others = same_targets e.target target es this d.0 in
        rw
          (
            apply_updates,
            this,
            apply_updates-append (selector_updates e.target (or_empty e.selectors))
                (entry_updates es)
                (record no_access {
                  on_list = true;
                  checked = is_listed (or_empty e.selectors);
                  function_on = false;
                }),
            apply_selectors e.target (or_empty e.selectors)
                (record no_access {
                  on_list = true;
                  checked = is_listed (or_empty e.selectors);
                  function_on = false;
                })
                this,
            apply_entries-other es
                (record no_access {
                  on_list = true;
                  checked = is_listed (or_empty e.selectors);
                  function_on = any (λ s. is_same s selector) (or_empty e.selectors);
                })
                others,
            is_allowed-other in_budget es others,
          )
          (ground arith)
    | inr other ↦
        rw
          (
            apply_updates,
            other,
            apply_updates-append (selector_updates e.target (or_empty e.selectors))
                (entry_updates es) no_access,
            apply_selectors-other e.target (or_empty e.selectors) no_access other,
          )
          (apply_entries in_budget es d.1)
  ]

  -- Entries of the scope limit no contract.
  apply_selectors-unlimited :
      (t : Text) (ss : List Text) (a : Access)
      → (apply_updates target selector (selector_updates t ss) a).limited ≡ a.limited
  unfolding apply_updates apply_update selector_updates
  apply_selectors-unlimited t [] a = refl
  apply_selectors-unlimited t (s ∷ ss) a =
      elim (Bool-cases (is_same t target && is_same s selector)) [
        | inl e ↦
            rw (apply_updates, e) (apply_selectors-unlimited t ss (record a { function_on = true }))
        | inr e ↦ rw (apply_updates, e) (apply_selectors-unlimited t ss a)
      ]

  apply_entries-unlimited :
      (es : List BufiGrantScopeEntry) (a : Access)
      → (apply_updates target selector (entry_updates es) a).limited ≡ a.limited
  unfolding apply_updates apply_update entry_updates
  apply_entries-unlimited [] a = refl
  apply_entries-unlimited (e ∷ es) a =
      let listed = record a { on_list = true; checked = is_listed (or_empty e.selectors) } in
      elim (Bool-cases (is_same e.target target)) [
        | inl this ↦
            rw
              (
                apply_updates,
                this,
                apply_updates-append (selector_updates e.target (or_empty e.selectors))
                    (entry_updates es) listed,
              )
              (apply_entries-unlimited es _
                ∙ apply_selectors-unlimited e.target (or_empty e.selectors) listed)
        | inr other ↦
            rw
              (
                apply_updates,
                other,
                apply_updates-append (selector_updates e.target (or_empty e.selectors))
                    (entry_updates es) a,
              )
              (apply_entries-unlimited es _
                ∙ apply_selectors-unlimited e.target (or_empty e.selectors) a)
      ]

  apply_erc20 :
      (bs : List BufiGrantErc20Budget) (a : Access)
      → apply_updates target selector (erc20_updates bs) a
        ≡ record a { limited = limited_by target bs a.limited }
  unfolding apply_updates apply_update erc20_updates
  apply_erc20 [] a = refl
  apply_erc20 (b ∷ bs) a = elim (Bool-cases (is_same b.token target)) [
    | inl e ↦ rw (apply_updates, e) (apply_erc20 bs (record a { limited = is_limit b.limit }))
    | inr e ↦ rw (apply_updates, e) (apply_erc20 bs a)
  ]

  apply_budget :
      (budget : Option BufiGrantBudget) (a : Access)
      → apply_updates target selector (budget_updates budget) a
        ≡ record a { limited = limited_by target (budgets_of budget) a.limited }
  unfolding apply_updates apply_update budget_updates
  apply_budget none a = refl
  apply_budget (some b) a =
      rw
        (
          apply_updates-append (erc20_updates (or_empty b.erc20))
              (native_updates b.native ++ gas_updates b.gas) a,
          apply_erc20 (or_empty b.erc20) a,
        )
        (spend_limits b.native b.gas _)
    where
      spend_limits :
          (native gas : Option BufiGrantSpendBudget) (a : Access)
          → apply_updates target selector (native_updates native ++ gas_updates gas) a ≡ a
      spend_limits none none a = refl
      spend_limits none (some g) a = refl
      spend_limits (some n) none a = refl
      spend_limits (some n) (some g) a = refl

  -- The native and the gas budget, the window and the paymaster leave the contract alone.
  apply_later :
      (g : BufiGrant) (a : Access)
      → apply_updates target selector (later_updates g) a
        ≡ record a { limited = limited_by target (budgets_of g.budget) a.limited }
  unfolding apply_updates apply_update later_updates
  apply_later g a =
      rw
        (
          apply_updates-append (budget_updates g.budget)
              (update_time_range (or_zero_time g.expiry.valid_after) g.expiry.valid_until
                ∷ paymaster_updates g.required_paymaster)
              a,
          apply_budget g.budget a,
        )
        (paymaster g.required_paymaster _)
    where
      paymaster :
          (p : Option Text) (a : Access) → apply_updates target selector (paymaster_updates p) a ≡ a
      paymaster none a = refl
      paymaster (some []) a = refl
      paymaster (some (c ∷ cs)) a = refl

  permits-built :
      (to_function_selector : Text → Text) (g : BufiGrant)
      → HasDistinctTargets g.scope.allow
      → permits to_function_selector
          (set_access_list_type allowlist ∷ entry_updates g.scope.allow ++ later_updates g)
          target
          selector
        ≡ is_allowed g.scope.allow target selector
            (not (is_budgeted g target) || is_erc20_function to_function_selector selector)
  unfolding permits apply_updates apply_update
  permits-built to_function_selector g d =
      rw
        (
          apply_updates-append (entry_updates g.scope.allow) (later_updates g) no_access,
          apply_later g (apply_updates target selector (entry_updates g.scope.allow) no_access),
          apply_entries-unlimited g.scope.allow no_access,
        )
        (apply_entries
          (not (is_budgeted g target) || is_erc20_function to_function_selector selector)
          g.scope.allow d)

-- The updates that are built for a grant whose targets differ permit a call exactly when an entry of
-- the scope has its target, and either names no selectors, or has its selector, which is then a
-- transfer or an approval where a budget limits the target.
pub build_bufi_grant-permits :
    (to_function_selector : Text → Text) (g : BufiGrant) (updates : List PermissionUpdate)
    → HasDistinctTargets g.scope.allow
    → build_bufi_grant g ≡ done updates
    → (target selector : Text)
    → permits to_function_selector updates target selector
      ≡ is_allowed g.scope.allow target selector
          (not (is_budgeted g target) || is_erc20_function to_function_selector selector)
unfolding build_bufi_grant
build_bufi_grant-permits to_function_selector g updates d h target selector =
    let (listed, h₁) = fail_when-done (not (is_listed g.scope.allow)) Failure.no_target h in
    let (timely, h₂) =
      fail_when-done (leb_ℤ g.expiry.valid_until (or_zero_time g.expiry.valid_after))
        Failure.expires_too_early h₁ in
    let same : updates
        ≡ set_access_list_type allowlist ∷ entry_updates g.scope.allow ++ later_updates g =
      cc h₂ in
    rw same (permits-built target selector to_function_selector g d)
