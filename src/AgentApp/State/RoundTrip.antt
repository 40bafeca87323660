-- ===== src/AgentApp/State/RoundTrip.antt =====
-- The state file of apps/agent/src/state.ts: what is written is read back.
use bufi.Base.{
  ℕ, zero, suc, ◌+◌, ◌/◌, ◌%◌, ◌≤◌, ◌≡◌, refl, ap, Bool, true, false, Option, none, some, List, [],
  ◌∷◌, map, all, arith, ltb, Bool-cases, inl, inr, if◌then◌else◌,
}
use bufi.Base.Int.{ℤ, pos, negsuc}
use bufi.Base.Texts.{Text}
use bufi.Treasury.SdkArgs.{decimal_from, decimal, to_string}
use bufi.Treasury.SdkArgs.Digits.{read_integer, read_integer-to_string}
use bufi.AgentApp.State.{
  AgentGrant, StoredDeployment, AgentState, map_option, map_erc20_budget, map_gas_budget, map_grant,
  map_owner, map_agent, map_deployment, map_state, is_digit, is_bigint_string, every,
  is_erc20_budget, is_grant, is_agent, is_owner, is_deployment, is_state, parse_state,
  serialize_state,
}

abbrev pub is_unsigned : ℤ → Bool
is_unsigned (pos n) = true
is_unsigned (negsuc n) = false

decimal_from-digits :
    (fuel n : ℕ) (behind : Text)
    → n ≤ fuel
    → all is_digit behind ≡ true
    → is_bigint_string (decimal_from fuel n behind) ≡ true
unfolding is_bigint_string decimal_from
decimal_from-digits zero n behind le h = ground arith
decimal_from-digits (suc fuel) n behind le h = elim (Bool-cases (ltb n 10)) [
  | inl small ↦ rw small (ground arith)
  | inr large ↦
      rw large
        (decimal_from-digits fuel (n / 10) ((n % 10 + 48) ∷ behind) (ground arith) (ground arith))
]

is_bigint_string-minus : (cs : Text) → is_bigint_string (b'-' ∷ cs) ≡ false
unfolding is_bigint_string
is_bigint_string-minus cs = refl

-- A bigint's text passes the schema exactly when it has no sign.
is_bigint_string-to_string : (z : ℤ) → is_bigint_string (to_string z) ≡ is_unsigned z
unfolding to_string decimal
is_bigint_string-to_string (pos n) = decimal_from-digits n n [] (omega arith) refl
is_bigint_string-to_string (negsuc n) = is_bigint_string-minus (decimal (suc n))

module _ {A B : Type 0} where
  map-back : (f : A → B) (g : B → A) (xs : List A) → ((a : A) → g (f a) ≡ a) → map g (map f xs) ≡ xs
  map-back f g [] h = refl
  map-back f g (x ∷ xs) h = rw (h x, map-back f g xs h) refl

  all-map :
      (f : A → B) (p : B → Bool) (q : A → Bool) (xs : List A)
      → ((a : A) → p (f a) ≡ q a)
      → all p (map f xs) ≡ all q xs
  all-map f p q [] h = refl
  all-map f p q (x ∷ xs) h = rw (h x, all-map f p q xs h) refl

  option-back :
      (f : A → B) (g : B → A) (o : Option A)
      → ((a : A) → g (f a) ≡ a)
      → map_option g (map_option f o) ≡ o
  option-back f g none h = refl
  option-back f g (some a) h = rw (h a) refl

  every-option :
      (f : A → B) (p : B → Bool) (q : A → Bool) (o : Option A)
      → ((a : A) → p (f a) ≡ q a)
      → every p (map_option f o) ≡ every q o
  every-option f p q none h = refl
  every-option f p q (some a) h = h a

read_grant : (g : AgentGrant ℤ) → map_grant read_integer (map_grant to_string g) ≡ g
unfolding map_grant
read_grant g =
    rw
      (
        option-back (map (map_erc20_budget to_string)) (map (map_erc20_budget read_integer))
            g.erc20_budget
            (λ bs.
              map-back (map_erc20_budget to_string) (map_erc20_budget read_integer) bs
                (λ b. rw (read_integer-to_string b.limit) refl)),
        option-back (map_gas_budget to_string) (map_gas_budget read_integer) g.gas_budget
            (λ b. rw (read_integer-to_string b.limit) refl),
      )
      refl

read_deployment :
    (d : StoredDeployment ℤ) → map_deployment read_integer (map_deployment to_string d) ≡ d
unfolding map_deployment
read_deployment d =
    rw
      (
        map-back (map_owner to_string) (map_owner read_integer) d.owners
            (λ o. rw (read_integer-to_string o.weight) refl),
        read_integer-to_string d.threshold_weight,
        option-back (map_agent to_string) (map_agent read_integer) d.agent
            (λ a. rw (read_grant a.grant) refl),
      )
      refl

read_state : (s : AgentState ℤ) → map_state read_integer (map_state to_string s) ≡ s
unfolding map_state
read_state s =
    rw
      (map-back (map_deployment to_string) (map_deployment read_integer) s.deployments
        read_deployment)
      refl

is_grant-to_string :
    (g : AgentGrant ℤ) → is_grant is_bigint_string (map_grant to_string g) ≡ is_grant is_unsigned g
unfolding is_grant map_grant
is_grant-to_string g =
    rw
      (
        every-option (map (map_erc20_budget to_string)) (all (is_erc20_budget is_bigint_string))
            (all (is_erc20_budget is_unsigned)) g.erc20_budget
            (λ bs.
              all-map (map_erc20_budget to_string) (is_erc20_budget is_bigint_string)
                (is_erc20_budget is_unsigned) bs
                (λ b. rw (is_bigint_string-to_string b.limit) refl)),
        every-option (map_gas_budget to_string) (λ b. is_bigint_string b.limit)
            (λ b. is_unsigned b.limit) g.gas_budget (λ b. is_bigint_string-to_string b.limit),
      )
      refl

is_deployment-to_string :
    (d : StoredDeployment ℤ)
    → is_deployment is_bigint_string (map_deployment to_string d) ≡ is_deployment is_unsigned d
unfolding is_deployment map_deployment
is_deployment-to_string d =
    rw
      (
        all-map (map_owner to_string) (is_owner is_bigint_string) (is_owner is_unsigned) d.owners
            (λ o. rw (is_bigint_string-to_string o.weight) refl),
        is_bigint_string-to_string d.threshold_weight,
        every-option (map_agent to_string) (is_agent is_bigint_string) (is_agent is_unsigned)
            d.agent (λ a. rw (is_grant-to_string a.grant) refl),
      )
      refl

-- A state that is written is read back as it was, if its keys and addresses have their form and
-- its amounts are not negative; any other one is refused when it is read.
pub parse_state-serialize_state :
    (s : AgentState ℤ)
    → parse_state (serialize_state s) ≡ (if is_state is_unsigned s then some s else none)
unfolding parse_state serialize_state is_state map_state
parse_state-serialize_state s =
    rw
      (all-map (map_deployment to_string) (is_deployment is_bigint_string)
        (is_deployment is_unsigned) s.deployments is_deployment-to_string)
      (ap (λ t. if is_state is_unsigned s then some t else none) (read_state s))
