-- ===== src/AgentApp/State/Deployments.antt =====
-- The deployments of apps/agent/src/state.ts by their chain.
use bufi.Base.{
  ℕ, ◌≡◌, ◌==◌, refl, ap, ◌∙◌, Bool, true, false, not, some, List, [], ◌∷◌, ◌++◌, keep, arith,
  Bool-cases, inl, inr, if◌then◌else◌,
}
use bufi.Base.Int.{ℤ}
use bufi.AgentApp.State.{
  TreasuryChainKey, StoredDeployment, AgentState, chain_index, is_on, upsert_deployment, first_on,
  find_deployment,
}

same_third : (x y z : ℕ) → (x == y) ≡ true → (x == z) ≡ true → (y == z) ≡ true
same_third x y z p q = ground arith

other_third : (x y z : ℕ) → (x == y) ≡ false → (x == z) ≡ true → (y == z) ≡ false
other_third x y z p q = ground arith

module _ {A : Type 0} (p : A → Bool) where
  keep-false : (x : A) (xs : List A) → p x ≡ false → keep p (x ∷ xs) ≡ keep p xs
  keep-false x xs h = rw (keep, h) refl

  keep-true : (x : A) (xs : List A) → p x ≡ true → keep p (x ∷ xs) ≡ x ∷ keep p xs
  keep-true x xs h = rw (keep, h) refl

-- Two nested tests where the inner one needs the outer one.
absorb :
    {A : Type 0} (outer inner : Bool) (a b c : A)
    → (inner ≡ true → outer ≡ true)
    → (if outer then a else c) ≡ (if outer then a else if inner then b else c)
absorb true inner a b c f = refl
absorb false true a b c f = ground (arith, f refl)
absorb false false a b c f = refl

swap :
    {A : Type 0} (outer inner : Bool) (a b c : A)
    → (inner ≡ true → outer ≡ false)
    → (if inner then b else if outer then a else c) ≡ (if outer then a else if inner then b else c)
swap true true a b c f = ground (arith, f refl)
swap false inner a b c f = refl
swap true false a b c f = refl

first_on-upsert :
    (ds : List (StoredDeployment ℤ)) (d : StoredDeployment ℤ) (chain : TreasuryChainKey)
    → first_on chain (keep (λ e. not (is_on d.chain e)) ds ++ d ∷ [])
      ≡ (if is_on chain d then some d else first_on chain ds)
unfolding first_on
first_on-upsert [] d chain = refl
first_on-upsert (e ∷ ds) d chain =
    let others : StoredDeployment ℤ → Bool = λ x. not (is_on d.chain x) in
    let x = chain_index e.chain in
    let y = chain_index d.chain in
    let z = chain_index chain in
    let later = first_on-upsert ds d chain in
    elim (Bool-cases (is_on d.chain e)) [
      | inl same ↦
          ap (λ t. first_on chain (t ++ d ∷ [])) (keep-false others e ds (ap not same))
          ∙ later
          ∙ absorb (y == z) (x == z) (some d) (some e) (first_on chain ds) (same_third x y z same)
      | inr other ↦
          ap (λ t. first_on chain (t ++ d ∷ [])) (keep-true others e ds (ap not other))
          ∙ ap (λ r. if x == z then some e else r) later
          ∙ swap (y == z) (x == z) (some d) (some e) (first_on chain ds) (other_third x y z other)
    ]

-- After a deployment is put in, its chain has it and every other chain has what it had.
pub find_deployment-upsert :
    (state : AgentState ℤ) (d : StoredDeployment ℤ) (chain : TreasuryChainKey)
    → find_deployment (upsert_deployment state d) chain
      ≡ (if is_on chain d then some d else find_deployment state chain)
unfolding find_deployment upsert_deployment
find_deployment-upsert state d chain = first_on-upsert state.deployments d chain
