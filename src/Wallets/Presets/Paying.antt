-- ===== src/Wallets/Presets/Paying.antt =====
-- The calls of packages/modular-wallets-core/src/cascade/buildSpendFromYieldCalls.ts under the grant
-- of `spendFromYieldGrant`.
use bufi.Base.{
  ◌≡◌, refl, ap, ◌∙◌, Bool, true, false, not, ◌&&◌, ◌||◌, none, some, List, [], ◌∷◌, ◌++◌, map, any,
  all, arith, if◌then◌else◌, Option-cases, Bool-cases, inl, inr, true_and, and_true, or-true,
}
use bufi.Base.Texts.{Text, text_eq, to_lower_case}
use bufi.Wallets.Failures.{done, Failure, and_then-done, fail_when-done, done-injective}
use bufi.Wallets.Grant.{BufiGrant, is_same, is_same_self}
use bufi.Wallets.Updates.{PermissionUpdate, is_listed, build_bufi_grant}
use bufi.Wallets.Updates.Access.{permits, is_allowed, is_budgeted, HasDistinctTargets}
use bufi.Wallets.Updates.Exact.{build_bufi_grant-permits}
use bufi.Wallets.Presets.{
  SpendFromYieldGrantParameters, entry, grant, transfer_signature, withdraw_signature,
  vault_selectors, vault_entries, spend_from_yield_grant,
}
use bufi.Wallets.Presets.Yield.{names, vault_entries-IsVaultList, IsVaultList-apart}
use bufi.Wallets.SpendFromYield.{
  YieldPayment, TokenBalance, VaultConfig, Sourced, Needed, FunctionData, withdraw, transfer,
  SpendFromYieldCalls, last_set, source_needed, collect_needed, withdrawal, payment_call,
  build_spend_from_yield_calls,
}
use bufi.Wallets.SpendFromYield.Covered.{source-IsRound}

-- The function that a call's data names.
abbrev pub signature_of : FunctionData → Text
signature_of (withdraw amount receiver owner) = withdraw_signature
signature_of (transfer to amount) = transfer_signature

module _ (to_function_selector : Text → Text) where
  -- Transfers of the token, and withdrawals from the vaults, with redemptions if these are included.
  abbrev pub pays_from_yield : SpendFromYieldGrantParameters → Text → Text → Bool
  pays_from_yield p target selector =
      (is_same p.token target && is_same (to_function_selector transfer_signature) selector)
      || (names target p.vaults
          && any (λ x. is_same x selector) (vault_selectors to_function_selector p.include_redeem))

  grant-allow :
      (p : SpendFromYieldGrantParameters) (g : BufiGrant)
      → spend_from_yield_grant to_function_selector p ≡ done g
      → HasDistinctTargets g.scope.allow
        × ((t s : Text) (ok : Bool)
            → is_allowed g.scope.allow t s ok ≡ (pays_from_yield p t s && ok))
        × ((t : Text) → is_same p.token t ≡ false → is_budgeted g t ≡ false)
        × ((t : Text) → is_same p.token t ≡ true → names t p.vaults ≡ false)
  unfolding spend_from_yield_grant grant
  grant-allow p g h =
      let (vaulted, h₁) = fail_when-done (not (is_listed p.vaults)) Failure.no_vault h in
      let (received, h₂) = fail_when-done (not (is_listed p.recipients)) Failure.no_recipient h₁ in
      let (es, run, h₃) =
        and_then-done
          (vault_entries p.token (vault_selectors to_function_selector p.include_redeem) p.vaults
            [])
          _ h₂ in
      let listed = vault_entries-IsVaultList p.token _ _ p.vaults [] es run in
      let (distinct, off_token, off_seen, on_new, allowed) = listed in
      let same : g
          ≡ grant (entry p.token (to_function_selector transfer_signature ∷ []) ∷ es) p.base
              (some (p.token, p.budget)) =
        done-injective _ _ h₃ in
      rw same (
        (off_token, distinct),
        λ t s ok. rw (allowed t s ok, on_new t refl) (ground arith),
        λ t other. rw other refl,
        λ t this.
            IsVaultList-apart p.token (vault_selectors to_function_selector p.include_redeem)
              p.vaults es t listed this,
      )

  -- A grant for paying out of a position permits transfers of the token and withdrawals from the
  -- vaults that it names, with redemptions where these are included, and no other call. The token's
  -- spend limit takes no withdrawal away.
  pub spend_from_yield_grant-permits :
      (p : SpendFromYieldGrantParameters) (g : BufiGrant) (updates : List PermissionUpdate)
      → spend_from_yield_grant to_function_selector p ≡ done g
      → build_bufi_grant g ≡ done updates
      → (target selector : Text)
      → permits to_function_selector updates target selector ≡ pays_from_yield p target selector
  spend_from_yield_grant-permits p g updates h built target selector =
      let (distinct, allowed, unlimited, apart) = grant-allow p g h in
      build_bufi_grant-permits to_function_selector g updates distinct built target selector
      ∙ allowed target selector _
      ∙ (elim (Bool-cases (is_same p.token target)) [
        | inl e ↦ rw (e, apart target e) (ground arith)
        | inr e ↦ rw (e, unlimited target e) (ground arith)
      ])

last_here :
    (p : Text → Bool) (w : Text) (test : Bool) {v : Text}
    → p w ≡ true
    → (if test then some w else none) ≡ some v
    → p v ≡ true
last_here p w true h found = cc
last_here p w false h found = cc

last_set-all :
    {A : Type 0} (key_of value_of : A → Text) (p : Text → Bool) (key : Text) (as' : List A)
    {v : Text}
    → all (λ a. p (value_of a)) as' ≡ true
    → last_set key_of value_of key as' ≡ some v
    → p v ≡ true
unfolding last_set
last_set-all key_of value_of p key [] h found = cc
last_set-all key_of value_of p key (a ∷ as') h found =
    elim (Option-cases (last_set key_of value_of key as')) [
      | inl none_later ↦
          last_here p (value_of a) (text_eq (to_lower_case (key_of a)) key) (and_true _ _ h).0
            (rw none_later at found)
      | inr later ↦
          last_set-all key_of value_of p key as' (and_true _ _ h).1
            (later.1 ∙ (rw later.1 at found))
    ]

-- Every vault that is withdrawn from is one of the configurations.
sourced-all :
    (balances : List TokenBalance) (vaults : List VaultConfig) (p : Text → Bool) (ns : List Needed)
    (ss : List Sourced)
    → all (λ c. p c.vault) vaults ≡ true
    → source_needed balances vaults ns ≡ done ss
    → all (λ s. p s.vault) ss ≡ true
unfolding source_needed
sourced-all balances vaults p [] ss known h = let nothing : ss ≡ [] = cc h in rw nothing refl
sourced-all balances vaults p (n ∷ ns) ss known h =
    let (later, rest, round) = source-IsRound balances vaults n ns ss h in
    let ih = sourced-all balances vaults p ns later known rest in
    elim round [
      | inl r ↦ rw r.1 ih
      | inr r ↦ rw r.3 (
          true_and _ _
            (last_set-all (λ c. c.token) (λ c. c.vault) p (to_lower_case n.token) vaults known r.1)
            ih)
    ]

all-append :
    {A : Type 0} (p : A → Bool) (xs ys : List A)
    → all p xs ≡ true
    → all p ys ≡ true
    → all p (xs ++ ys) ≡ true
all-append p [] ys h k = k
all-append p (x ∷ xs) ys h k = ground (arith, all-append p xs ys)

all-implies :
    {A : Type 0} (p q : A → Bool) (xs : List A)
    → ((a : A) → p a ≡ true → q a ≡ true)
    → all p xs ≡ true
    → all q xs ≡ true
all-implies p q [] f h = refl
all-implies p q (x ∷ xs) f h = ground (arith, f x, all-implies p q xs f)

all-map :
    {A B : Type 0} (f : A → B) (p : B → Bool) (xs : List A)
    → all p (map f xs) ≡ all (λ a. p (f a)) xs
all-map f p [] = refl
all-map f p (x ∷ xs) = rw (all-map f p xs) refl

-- With payments in the granted token and configurations of granted vaults, every call that is built
-- to pay out of the position is permitted by the grant.
pub build_spend_from_yield_calls-permitted :
    (to_function_selector : Text → Text) (p : SpendFromYieldGrantParameters) (g : BufiGrant)
    (updates : List PermissionUpdate) (account : Text) (payments : List YieldPayment)
    (balances : List TokenBalance) (vaults : List VaultConfig) (calls : SpendFromYieldCalls)
    → spend_from_yield_grant to_function_selector p ≡ done g
    → build_bufi_grant g ≡ done updates
    → build_spend_from_yield_calls account payments balances vaults ≡ done calls
    → all (λ q. is_same p.token q.token) payments ≡ true
    → all (λ c. names c.vault p.vaults) vaults ≡ true
    → all
        (λ c.
          permits to_function_selector updates c.target
            (to_function_selector (signature_of c.call_data)))
        calls.calls
      ≡ true
unfolding build_spend_from_yield_calls
build_spend_from_yield_calls-permitted to_function_selector p g updates account payments balances
      vaults calls h built made in_token known =
    let (needed, collected, h₁) = and_then-done (collect_needed payments []) _ made in
    let (ss, sourced, h₂) = and_then-done (source_needed balances vaults needed) _ h₁ in
    let same : calls.calls ≡ map (withdrawal account) ss ++ map payment_call payments =
      ap (λ (c : SpendFromYieldCalls). c.calls) (done-injective _ _ h₂) in
    let permitted = spend_from_yield_grant-permits to_function_selector p g updates h built in
    rw same (
      all-append _ (map (withdrawal account) ss) (map payment_call payments)
        (rw
          (all-map (withdrawal account)
            (λ c.
              permits to_function_selector updates c.target
                (to_function_selector (signature_of c.call_data)))
            ss)
          (all-implies (λ s. names s.vault p.vaults) _ ss
            (λ s listed.
              rw (permitted s.vault (to_function_selector withdraw_signature))
                (rw (listed, is_same_self (to_function_selector withdraw_signature)) (or-true _)))
            (sourced-all balances vaults (λ v. names v p.vaults) needed ss known sourced)))
        (rw
          (all-map payment_call
            (λ c.
              permits to_function_selector updates c.target
                (to_function_selector (signature_of c.call_data)))
            payments)
          (all-implies (λ q. is_same p.token q.token) _ payments
            (λ q paid.
              rw (permitted q.token (to_function_selector transfer_signature))
                (rw (paid, is_same_self (to_function_selector transfer_signature)) refl))
            in_token)))
