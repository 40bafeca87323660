-- ===== src/Treasury/Evm/Exact.antt =====
-- What `compileEvm` returns means what the specification says.
use bufi.Base.{
  ℕ, ◌≤◌, ◌≡◌, ◌↔◌, inl, inr, Bool, none, some, List, [], ◌∷◌, map, All, In, length, ltb-false→le,
  In-map, map-In,
}
use bufi.Base.Texts.{Text}
use bufi.Base.TextSets.{distinct_texts_iff, distinct_texts-Distinct, Distinct, Fresh-Distinct}
use bufi.Treasury.Coalitions.{is_winning}
use bufi.Treasury.Spec.{
  whole, max_evm_owners, TreasuryOwner, AllowedRecipient, TreasuryAsset, WeightedTreasurySpec, ok,
  >>=-eq-ok, >>-eq-ok, ok-injective, fail_if-eq-ok,
}
use bufi.Treasury.Validate.Valid.{IsValidSpec}
use bufi.Treasury.Validate.Sound.{validate_spec-IsValidSpec}
use bufi.Treasury.Approvers.{members, approves, approves_owner, winning_sum-renamed}
use bufi.Treasury.Evm.{EvmOwner, EvmTreasuryConfig, evm_owners, evm_recipients, compile_evm}
use bufi.Treasury.Evm.Listed.{
  evm_address, or_empty, as_member, addresses, Listed, evm_owners-Listed, check_addresses-Fresh,
  Listed-DistinctAddresses, name_of, Listed-renamed, Listed-name, check_budgets-none,
  recipient_address, evm_recipients_lem,
}

module _ (to_lower_case : Text → Text) where
  -- The configuration has the specification's approval rule and recipients, and drops nothing.
  pub record IsExact (s : WeightedTreasurySpec) (c : EvmTreasuryConfig) : Type 0 where
    pub valid : IsValidSpec s
    pub few_owners : length s.owners ≤ max_evm_owners
    pub distinct_owners : Distinct (addresses c.owners)
    pub same_rule :
        (has : Text → Bool)
        → is_winning
            (as_member c.owners)
            c.threshold_weight
            (approves (evm_address to_lower_case) s.owners has)
          ≡ is_winning (members s.owners) (whole s.threshold_weight) has
    pub same_recipients :
        (a : Text)
        → In a c.allowlist ↔ (
            (r : AllowedRecipient) × In r s.allowlist
            × (recipient_address to_lower_case r ≡ some a))
    pub distinct_recipients : Distinct c.allowlist
    pub no_budget : All (λ (a : TreasuryAsset). a.budget ≡ none) s.assets

  Listed-same_rule :
      (os : List TreasuryOwner) (es : List EvmOwner) (t : ℕ) (has : Text → Bool)
      → Listed to_lower_case os es
      → Distinct (addresses es)
      → is_winning (as_member es) t (approves (evm_address to_lower_case) os has)
        ≡ is_winning (members os) t has
  unfolding is_winning
  Listed-same_rule os es t has l d = rw (Listed-renamed to_lower_case os es l) (
      rw (
        winning_sum-renamed (name_of to_lower_case) os (approves (evm_address to_lower_case) os has)
          has 0
          (λ o i.
            approves_owner (evm_address to_lower_case) os has o (name_of to_lower_case o)
              (Listed-DistinctAddresses to_lower_case os es l d) i
              (Listed-name to_lower_case os es o l i))))

  recipients_iff :
      (rs : List AllowedRecipient) (ts : List Text) (a : Text)
      → evm_recipients to_lower_case rs 0 ≡ ok ts
      → In a ts ↔ ((r : AllowedRecipient) × In r rs × (recipient_address to_lower_case r ≡ some a))
  recipients_iff rs ts a h = (to, from)
    where
      lem :
          (ts ≡ map (λ r. or_empty (recipient_address to_lower_case r)) rs)
          × All
              (λ r.
                recipient_address to_lower_case r
                ≡ some (or_empty (recipient_address to_lower_case r)))
              rs
      lem = evm_recipients_lem to_lower_case rs 0 ts h

      present :
          (qs : List AllowedRecipient) (r : AllowedRecipient)
          → All
              (λ r.
                recipient_address to_lower_case r
                ≡ some (or_empty (recipient_address to_lower_case r)))
              qs
          → In r qs
          → recipient_address to_lower_case r ≡ some (or_empty (recipient_address to_lower_case r))
      present [] r p i = elim i [ ]
      present (q ∷ qs) r p (inl e) = rw e p.0
      present (q ∷ qs) r p (inr i) = present qs r p.1 i

      to : In a ts → (r : AllowedRecipient) × In r rs × (recipient_address to_lower_case r ≡ some a)
      to i =
          let m = map-In (λ r. or_empty (recipient_address to_lower_case r)) a rs (rw lem.0 at i) in
          (m.0, m.1, rw m.2 (present rs m.0 lem.1 m.1))

      from :
          ((r : AllowedRecipient) × In r rs × (recipient_address to_lower_case r ≡ some a))
          → In a ts
      from (r, i, e) =
          let j = In-map (λ r. or_empty (recipient_address to_lower_case r)) r rs i in
          rw lem.0 (rw (e, or_empty) at j)

  -- When the compiler accepts a specification, the specification is valid, has at most 1000 owners
  -- and no budget; owner addresses and recipients are listed once each; a group of owners reaches
  -- the threshold under its addresses exactly when it does under its ids; and the recipients are
  -- exactly the lower-cased addresses of the allowlist, whichever function lower-cases.
  pub compile_evm-IsExact :
      (s : WeightedTreasurySpec) (c : EvmTreasuryConfig)
      → compile_evm to_lower_case s ≡ ok c
      → IsExact s c
  unfolding compile_evm
  compile_evm-IsExact s c h =
      let valid = >>-eq-ok _ _ h in
      let few = >>-eq-ok _ _ valid.1 in
      let owners = >>=-eq-ok (evm_owners to_lower_case s.owners) _ few.1 in
      let unique = >>-eq-ok _ _ owners.2 in
      let recipients = >>=-eq-ok (evm_recipients to_lower_case s.allowlist 0) _ unique.1 in
      let budgets = >>-eq-ok _ _ recipients.2 in
      let config = ok-injective _ _ budgets.1 in
      let listed = evm_owners-Listed to_lower_case s.owners owners.0 owners.1 in
      let distinct =
        Fresh-Distinct (addresses owners.0) [] (check_addresses-Fresh owners.0 [] unique.0) in
      rw config (record {
        valid = (validate_spec-IsValidSpec s).0 valid.0;
        few_owners = ltb-false→le _ _ (fail_if-eq-ok _ _ _ few.0);
        distinct_owners = distinct;
        same_rule = λ has.
            Listed-same_rule s.owners owners.0 (whole s.threshold_weight) has listed distinct;
        same_recipients = λ a. (
          λ i.
              (recipients_iff s.allowlist recipients.0 a recipients.1).0
                ((distinct_texts_iff recipients.0 a).0 i),
          λ r.
              (distinct_texts_iff recipients.0 a).1
                ((recipients_iff s.allowlist recipients.0 a recipients.1).1 r),
        );
        distinct_recipients = Fresh-Distinct _ [] (distinct_texts-Distinct [] recipients.0);
        no_budget = check_budgets-none s.assets budgets.0;
      })
