-- ===== src/Wallets/SpendFromYield/Covered.antt =====
-- What packages/modular-wallets-core/src/cascade/buildSpendFromYieldCalls.ts sources for the payments
-- in each token.
use bufi.Base.{
  all, ◌&&◌, ◌≡◌, refl, ap, sym, ◌∙◌, Bool, true, false, ◌||◌, Option, none, some, List, [], ◌∷◌,
  ◌++◌, map, arith, In, In→any, ◌⊎◌, inl, inr, Bool-cases, any,
}
use bufi.Base.Int.{+ℤ_zero, ℤ, pos, ◌+ℤ◌, ◌-ℤ◌, ◌≤ℤ◌, ltb_ℤ, leb_ℤ, +ℤ_parts, -ℤ_parts, eq_of_parts}
use bufi.Base.Texts.{text_eq_comm, Text, text_eq, text_eq→eq, text_eq_self, to_lower_case}
use bufi.Wallets.Failures.{Fallible, done, failed, and_then-done}
use bufi.Wallets.SpendFromYield.{
  YieldPayment, TokenBalance, VaultConfig, Sourced, Needed, SpendFromYieldCalls, add_needed,
  collect_needed, liquid, vault_of, source_short, source_needed, build_spend_from_yield_calls,
  withdrawal, payment_call,
}

abbrev when : Bool → ℤ → ℤ
when true z = z
when false z = pos 0

-- The payments in one token, given by its text in lower case.
abbrev pub total_of : Text → List YieldPayment → ℤ
total_of key [] = pos 0
total_of key (p ∷ ps) = when (text_eq (to_lower_case p.token) key) p.amount +ℤ total_of key ps

-- What is withdrawn for one token.
abbrev pub sourced_of : Text → List Sourced → ℤ
sourced_of key [] = pos 0
sourced_of key (s ∷ ss) = when (text_eq (to_lower_case s.token) key) s.amount +ℤ sourced_of key ss

abbrev needed_of : Text → List Needed → ℤ
needed_of key [] = pos 0
needed_of key (n ∷ ns) = when (text_eq (to_lower_case n.token) key) n.amount +ℤ needed_of key ns

abbrev has : Text → List Needed → Bool
has key [] = false
has key (n ∷ ns) = text_eq (to_lower_case n.token) key || has key ns

abbrev Distinct : List Needed → Type 0
Distinct [] = Unit
Distinct (n ∷ ns) = (has (to_lower_case n.token) ns ≡ false) × Distinct ns

+ℤ_assoc : (a b c : ℤ) → (a +ℤ b) +ℤ c ≡ a +ℤ (b +ℤ c)
+ℤ_assoc a b c =
    eq_of_parts _ _
      (omega (arith, +ℤ_parts a b, +ℤ_parts (a +ℤ b) c, +ℤ_parts b c, +ℤ_parts a (b +ℤ c)))

zero_+ℤ : (a : ℤ) → pos 0 +ℤ a ≡ a
zero_+ℤ a = eq_of_parts _ _ (omega (arith, +ℤ_parts (pos 0) a))

+ℤ_swap : (a b c : ℤ) → a +ℤ (b +ℤ c) ≡ b +ℤ (a +ℤ c)
+ℤ_swap a b c =
    eq_of_parts _ _
      (omega (arith, +ℤ_parts b c, +ℤ_parts a (b +ℤ c), +ℤ_parts a c, +ℤ_parts b (a +ℤ c)))

when-sum : (test : Bool) (a b c : ℤ) → when test (a +ℤ b) +ℤ c ≡ when test b +ℤ (when test a +ℤ c)
when-sum true a b c = +ℤ_assoc a b c ∙ +ℤ_swap a b c
when-sum false a b c = ap (λ z. pos 0 +ℤ z) (sym (zero_+ℤ c))

needed_of-add_needed :
    (key token : Text) (amount : ℤ) (ns : List Needed)
    → needed_of key (add_needed token amount ns)
      ≡ when (text_eq (to_lower_case token) key) amount +ℤ needed_of key ns
unfolding add_needed
needed_of-add_needed key token amount [] = refl
needed_of-add_needed key token amount (n ∷ ns) =
    elim (Bool-cases (text_eq (to_lower_case n.token) (to_lower_case token))) [
      | inl e ↦
          rw (e, text_eq→eq (to_lower_case n.token) (to_lower_case token) e)
            (when-sum (text_eq (to_lower_case token) key) n.amount amount (needed_of key ns))
      | inr e ↦ rw (e, needed_of-add_needed key token amount ns) (+ℤ_swap _ _ (needed_of key ns))
    ]

has-add_needed :
    (key token : Text) (amount : ℤ) (ns : List Needed)
    → has key (add_needed token amount ns) ≡ (text_eq (to_lower_case token) key || has key ns)
unfolding add_needed
has-add_needed key token amount [] = refl
has-add_needed key token amount (n ∷ ns) =
    elim (Bool-cases (text_eq (to_lower_case n.token) (to_lower_case token))) [
      | inl e ↦ rw (e, text_eq→eq (to_lower_case n.token) (to_lower_case token) e) (ground arith)
      | inr e ↦ rw (e, has-add_needed key token amount ns) (ground arith)
    ]

Distinct-add_needed :
    (token : Text) (amount : ℤ) (ns : List Needed)
    → Distinct ns
    → Distinct (add_needed token amount ns)
unfolding add_needed
Distinct-add_needed token amount [] d = (refl, tt)
Distinct-add_needed token amount (n ∷ ns) d =
    elim (Bool-cases (text_eq (to_lower_case n.token) (to_lower_case token))) [
      | inl e ↦ rw e (d.0, d.1)
      | inr e ↦
          rw (e, has-add_needed (to_lower_case n.token) token amount ns)
            (
              other_key (to_lower_case token) (to_lower_case n.token)
                  (has (to_lower_case n.token) ns) e d.0,
              Distinct-add_needed token amount ns d.1,
            )
    ]
  where
    other_key :
        (s t : Text) (b : Bool) → text_eq t s ≡ false → b ≡ false → (text_eq s t || b) ≡ false
    other_key s t b e h = rw (text_eq_comm s t, e, h) refl

-- The totals after the loop over the payments.
collect_needed-totals :
    (ps : List YieldPayment) (ns ms : List Needed)
    → collect_needed ps ns ≡ done ms
    → Distinct ns
    → Distinct ms
      × ((key : Text)
          → (needed_of key ms ≡ total_of key ps +ℤ needed_of key ns)
            × (has key ms ≡ (any (λ p. text_eq (to_lower_case p.token) key) ps || has key ns)))
unfolding collect_needed
collect_needed-totals [] ns ms h d =
    let same : ms ≡ ns = cc h in rw same (d, λ key. (sym (zero_+ℤ (needed_of key ns)), refl))
collect_needed-totals (p ∷ ps) ns ms h d =
    let positive : ltb_ℤ p.amount (pos 0) ≡ false = ground arith in
    let (distinct, totals) =
      collect_needed-totals ps (add_needed p.token p.amount ns) ms (rw positive at h)
        (Distinct-add_needed p.token p.amount ns d) in
    (
      distinct,
      λ key.
          let total = totals key in
          (
            total.0
                ∙ ap (λ z. total_of key ps +ℤ z) (needed_of-add_needed key p.token p.amount ns)
                ∙ sym (
                    +ℤ_assoc (when (text_eq (to_lower_case p.token) key) p.amount) (total_of key ps)
                      (needed_of key ns)
                    ∙ +ℤ_swap (when (text_eq (to_lower_case p.token) key) p.amount)
                        (total_of key ps) (needed_of key ns)),
            total.1 ∙ rw (has-add_needed key p.token p.amount ns) (ground arith),
          ),
    )

-- Nothing is sourced where the balance is enough, and else what it falls short by.
abbrev pub IsCovered : ℤ → ℤ → ℤ → Type 0
IsCovered total balance sourced =
    ((total ≤ℤ balance) × (sourced ≡ pos 0))
    ⊎ ((ltb_ℤ balance total ≡ true) × (total ≡ balance +ℤ sourced))

source_short-done :
    (token : Text) (shortfall : ℤ) (vault : Option Text) (run : Fallible (List Sourced))
    (ss : List Sourced)
    → source_short token shortfall vault run ≡ done ss
    → (later : List Sourced) × (run ≡ done later)
      × ((v : Text) × (vault ≡ some v)
          × (ss ≡ record { token = token; vault = v; amount = shortfall } ∷ later))
unfolding source_short
source_short-done token shortfall none run ss h = cc
source_short-done token shortfall (some v) (done later) ss h = (later, refl, (v, refl, cc))
source_short-done token shortfall (some v) (failed why) ss h = cc

enough : (a l : ℤ) → leb_ℤ (a -ℤ l) (pos 0) ≡ true → IsCovered (a +ℤ pos 0) l (pos 0)
enough a l h = inl (ground (arith, -ℤ_parts a l, +ℤ_parts a (pos 0)), refl)

topped_up :
    (a l : ℤ) → leb_ℤ (a -ℤ l) (pos 0) ≡ false → IsCovered (a +ℤ pos 0) l ((a -ℤ l) +ℤ pos 0)
topped_up a l h = inr (
  ground (arith, -ℤ_parts a l, +ℤ_parts a (pos 0)),
  eq_of_parts _ _ (
      omega (
        arith,
        -ℤ_parts a l,
        +ℤ_parts a (pos 0),
        +ℤ_parts (a -ℤ l) (pos 0),
        +ℤ_parts l ((a -ℤ l) +ℤ pos 0),
      )),
)

module _ (balances : List TokenBalance) (vaults : List VaultConfig) where
  abbrev pub shortfall_of : Needed → ℤ
  shortfall_of n = n.amount -ℤ liquid balances vaults (to_lower_case n.token)

  -- What is pushed in one round: nothing where nothing is short, and else the shortfall.
  abbrev pub IsRound : Needed → List Sourced → List Sourced → Type 0
  IsRound n later ss =
      ((leb_ℤ (shortfall_of n) (pos 0) ≡ true) × (ss ≡ later))
      ⊎ ((v : Text) × (vault_of balances vaults (to_lower_case n.token) ≡ some v)
          × (leb_ℤ (shortfall_of n) (pos 0) ≡ false)
          × (ss ≡ record { token = n.token; vault = v; amount = shortfall_of n } ∷ later))

  pub source-IsRound :
      (n : Needed) (ns : List Needed) (ss : List Sourced)
      → source_needed balances vaults (n ∷ ns) ≡ done ss
      → (later : List Sourced) × (source_needed balances vaults ns ≡ done later)
        × IsRound n later ss
  unfolding source_needed
  source-IsRound n ns ss h = elim (Bool-cases (leb_ℤ (shortfall_of n) (pos 0))) [
    | inl e ↦ (ss, rw e at h, inl (e, refl))
    | inr e ↦
        let (later, rest, pushed) =
          source_short-done n.token (shortfall_of n)
            (vault_of balances vaults (to_lower_case n.token)) (source_needed balances vaults ns) ss
            (rw e at h) in
        (later, rest, inr (pushed.0, pushed.1, e, pushed.2))
  ]

  sourced_of-absent :
      (key : Text) (ns : List Needed) (ss : List Sourced)
      → source_needed balances vaults ns ≡ done ss
      → has key ns ≡ false
      → (sourced_of key ss ≡ pos 0) × (needed_of key ns ≡ pos 0)
  unfolding source_needed
  sourced_of-absent key [] ss h absent = let nothing : ss ≡ [] = cc h in rw nothing (refl, refl)
  sourced_of-absent key (n ∷ ns) ss h absent =
      let other : text_eq (to_lower_case n.token) key ≡ false = ground arith in
      let (later, rest, round) = source-IsRound n ns ss h in
      let ih = sourced_of-absent key ns later rest (ground arith) in
      elim round [
        | inl r ↦ rw (r.1, other, ih.0, ih.1) (refl, zero_+ℤ (pos 0))
        | inr r ↦ rw (r.3, other, ih.0, ih.1) (zero_+ℤ (pos 0), zero_+ℤ (pos 0))
      ]

  source_needed-IsCovered :
      (key : Text) (ns : List Needed) (ss : List Sourced)
      → source_needed balances vaults ns ≡ done ss
      → Distinct ns
      → has key ns ≡ true
      → IsCovered (needed_of key ns) (liquid balances vaults key) (sourced_of key ss)
  source_needed-IsCovered key [] ss h d present = ground arith
  source_needed-IsCovered key (n ∷ ns) ss h d present =
      let (later, rest, round) = source-IsRound n ns ss h in
      elim (Bool-cases (text_eq (to_lower_case n.token) key)) [
        | inl e ↦
            let k : to_lower_case n.token ≡ key = text_eq→eq (to_lower_case n.token) key e in
            let none_left = sourced_of-absent key ns later rest (rw k at d.0) in
            elim round [
              | inl r ↦
                  rw (r.1, e, none_left.0, none_left.1)
                    (enough n.amount (liquid balances vaults key) (rw k at r.0))
              | inr r ↦
                  rw (r.3, e, none_left.0, none_left.1, k)
                    (topped_up n.amount (liquid balances vaults key) (rw k at r.2))
            ]
        | inr e ↦
            let ih = source_needed-IsCovered key ns later rest d.1 (ground arith) in
            elim round [
              | inl r ↦ rw (r.1, e, zero_+ℤ (needed_of key ns)) ih
              | inr r ↦ rw (r.3, e, zero_+ℤ (needed_of key ns), zero_+ℤ (sourced_of key later)) ih
            ]
      ]

-- No withdrawal is of nothing, or of less.
source_needed-positive :
    (balances : List TokenBalance) (vaults : List VaultConfig) (ns : List Needed)
    (ss : List Sourced)
    → source_needed balances vaults ns ≡ done ss
    → all (λ s. ltb_ℤ (pos 0) s.amount) ss ≡ true
unfolding source_needed
source_needed-positive balances vaults [] ss h = let nothing : ss ≡ [] = cc h in rw nothing refl
source_needed-positive balances vaults (n ∷ ns) ss h =
    let (later, rest, round) = source-IsRound balances vaults n ns ss h in
    let ih = source_needed-positive balances vaults ns later rest in
    elim round [
      | inl r ↦ rw r.1 ih
      | inr r ↦ rw r.3 (short (shortfall_of balances vaults n) r.2 ih)
    ]
  where
    short : (z : ℤ) {b : Bool} → leb_ℤ z (pos 0) ≡ false → b ≡ true → (ltb_ℤ (pos 0) z && b) ≡ true
    short z positive rest = ground arith

abbrev calls_of : Text → List YieldPayment → List Sourced → SpendFromYieldCalls
calls_of account payments ss = record {
  withdrawals = map (withdrawal account) ss;
  transfers = map payment_call payments;
  calls = map (withdrawal account) ss ++ map payment_call payments;
  sourced = ss;
}

-- Where the calls are built, nothing is withdrawn in the token of a payment whose balance covers all
-- payments in it, and in any other token of a payment exactly what its balance falls short of them by.
-- Every withdrawal is of a positive amount, and the payments follow the withdrawals in their order.
pub build_spend_from_yield_calls-IsCovered :
    (account : Text) (payments : List YieldPayment) (balances : List TokenBalance)
    (vaults : List VaultConfig) (calls : SpendFromYieldCalls)
    → build_spend_from_yield_calls account payments balances vaults ≡ done calls
    → (calls.calls ≡ map (withdrawal account) calls.sourced ++ map payment_call payments)
      × (all (λ s. ltb_ℤ (pos 0) s.amount) calls.sourced ≡ true)
      × ((p : YieldPayment)
          → In p payments
          → IsCovered
              (total_of (to_lower_case p.token) payments)
              (liquid balances vaults (to_lower_case p.token))
              (sourced_of (to_lower_case p.token) calls.sourced))
unfolding build_spend_from_yield_calls
build_spend_from_yield_calls-IsCovered account payments balances vaults calls h =
    let (needed, collected, h₁) = and_then-done (collect_needed payments []) _ h in
    let (ss, sourced, h₂) = and_then-done (source_needed balances vaults needed) _ h₁ in
    let (distinct, totals) = collect_needed-totals payments [] needed collected tt in
    let same : calls ≡ calls_of account payments ss = cc h₂ in
    rw same (
      refl,
      source_needed-positive balances vaults needed ss sourced,
      λ p paid.
          let key = to_lower_case p.token in
          let listed =
            In→any (λ q. text_eq (to_lower_case q.token) key) p payments paid (text_eq_self key) in
          let total = totals key in
          rw (← (total.0 ∙ +ℤ_zero (total_of key payments))) (
            source_needed-IsCovered balances vaults key needed ss sourced distinct
              (total.1 ∙ rw listed refl)),
    )
