-- ===== src/Treasury/Squads/Plan.antt =====
-- A plan that was not refused, and who approves it.
use bufi.Base.{
  ℕ, ◌≡◌, refl, sym, ap, ◌∙◌, inl, inr, Bool, false, ◌&&◌, Option, some, List, [], ◌∷◌, map, arith,
  In, length, all, map-In, length-map, leb_self, and-true,
}
use bufi.Base.Int.{ℤ}
use bufi.Base.Texts.{Text, text_eq}
use bufi.Base.TextSets.{includes, distinct_texts}
use bufi.Treasury.Coalitions.{minimal_winning_coalitions}
use bufi.Treasury.Coalitions.Irredundant.{ids}
use bufi.Treasury.Spec.{
  whole, TreasuryOwner, TreasuryAsset, WeightedTreasurySpec, ok, >>=-eq-ok, >>-eq-ok, fail_if-eq-ok,
  ok-injective,
}
use bufi.Treasury.Validate.{is_empty}
use bufi.Treasury.Validate.Valid.{IsValidSpec, owner_ids}
use bufi.Treasury.Validate.Sound.{validate_spec-IsValidSpec}
use bufi.Treasury.Approvers.{members, approves, approves_owner}
use bufi.Treasury.Squads.{
  KeyMap, CompileSquadsOptions, SquadsTreasuryPlan, signer_of, policy_of, key_of_owners,
  asset_policies, squads_recipients, compile_squads, or_range_error, or_else,
}
use bufi.Treasury.Squads.Keys.{solana_key, IsNew-nil, Keyed, key_of_owners-Keyed}
use bufi.Treasury.Squads.Policies.{approved, within_limit, policy_admits}

pub ids-members : (os : List TreasuryOwner) → ids (members os) ≡ owner_ids os
unfolding members
ids-members [] = refl
ids-members (o ∷ os) = ground (arith, ids-members os)

length-members : (os : List TreasuryOwner) → length (members os) ≡ length os
unfolding members
length-members [] = refl
length-members (o ∷ os) = ground (arith, length-members os)

-- The signers of a coalition approve when its members do.
module _ (os : List TreasuryOwner) (keys : KeyMap) (keyed : Keyed os [] keys)
    (has : Text → Bool) where
  signer_approves :
      (x : Text)
      → In x (owner_ids os)
      → approved (approves solana_key os has) (signer_of keys x) ≡ has x
  unfolding signer_of
  signer_approves x i =
      let o = map-In (λ (o : TreasuryOwner). o.id) x os i in
      let k = keyed.found o.0 o.1 in
      ground (arith, o.2, k.2, approves_owner solana_key os has o.0 k.0 keyed.distinct o.1 k.1)

  pub signers_approve :
      (c : List Text)
      → ((x : Text) → In x c → In x (owner_ids os))
      → all (approved (approves solana_key os has)) (map (signer_of keys) c) ≡ all has c
  signers_approve [] f = refl
  signers_approve (x ∷ c) f =
      rw (signer_approves x (f x (inl refl)), signers_approve c (λ y i. f y (inr i)))

-- What a policy of the plan admits, by what it is made of.
pub policy_of-admits :
    (keys : KeyMap) (dests : List Text) (source : ℕ) (a : TreasuryAsset) (mint : Text)
    (c : List Text) (mint' dest : Text) (amount : ℤ) (q : Text → Bool)
    → is_empty dests ≡ false
    → policy_admits (policy_of keys dests source a mint c) mint' dest amount q ≡ (
        text_eq mint mint'
        && (includes dests dest
            && (within_limit (policy_of keys dests source a mint c).payload amount
                && all (approved q) (map (signer_of keys) c))))
unfolding policy_admits policy_of
policy_of-admits keys dests source a mint c mint' dest amount q ne =
    rw (ne, length-map (signer_of keys) c, leb_self (length c), and-true)

-- The parts of a plan that was not refused.
pub record Compiled (s : WeightedTreasurySpec) (plan : SquadsTreasuryPlan) : Type 0 where
  pub valid : IsValidSpec s
  pub keys : KeyMap
  pub keyed : Keyed s.owners [] keys
  pub wallets : List Text
  pub listed : squads_recipients s.allowlist 0 ≡ ok wallets
  pub source : ℕ
  pub some_destination : is_empty (distinct_texts [] wallets) ≡ false
  pub coalitions : List (List Text)
  pub found :
      minimal_winning_coalitions (members s.owners) (whole s.threshold_weight) ≡ some coalitions
  pub made :
      asset_policies keys (distinct_texts [] wallets) source coalitions s.assets ≡ ok plan.policies

enumerated :
    (o : Option (List (List Text))) (cs : List (List Text)) → or_range_error o ≡ ok cs → o ≡ some cs
enumerated o cs h = ground arith

pub compile_squads-Compiled :
    (s : WeightedTreasurySpec) (options : CompileSquadsOptions) (plan : SquadsTreasuryPlan)
    → compile_squads s options ≡ ok plan
    → Compiled s plan
unfolding compile_squads
compile_squads-Compiled s options plan h =
    let valid = >>-eq-ok _ _ h in
    let spec = (validate_spec-IsValidSpec s).0 valid.0 in
    let keys = >>=-eq-ok (key_of_owners s.owners []) _ valid.1 in
    let wallets = >>=-eq-ok (squads_recipients s.allowlist 0) _ keys.2 in
    let some_destination = >>-eq-ok _ _ wallets.2 in
    let coalitions = >>=-eq-ok (or_range_error _) _ some_destination.1 in
    let cap = >>-eq-ok _ _ coalitions.2 in
    let policies = >>=-eq-ok (asset_policies keys.0 _ _ coalitions.0 s.assets) _ cap.1 in
    let made = ok-injective _ _ policies.2 in
    record {
      valid = spec;
      keys = keys.0;
      keyed =
          key_of_owners-Keyed s.owners [] keys.0 keys.1 spec.distinct
            (IsNew-nil (owner_ids s.owners));
      wallets = wallets.0;
      listed = wallets.1;
      source = or_else options.source_account_index 0;
      some_destination = fail_if-eq-ok _ _ _ some_destination.0;
      coalitions = coalitions.0;
      found = enumerated _ _ coalitions.1;
      made = policies.1 ∙ ap (λ (p : SquadsTreasuryPlan). ok p.policies) (sym made);
    }
