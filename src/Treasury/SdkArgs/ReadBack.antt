-- ===== src/Treasury/SdkArgs/ReadBack.antt =====
-- The actions of packages/weighted-treasury/src/squads/sdk-args.ts carry the whole plan: with a
-- runtime whose values can be read, every policy is read back from its action.
use bufi.Base.{ℕ, ◌+◌, ◌≡◌, refl, ap, sym, ◌∙◌, All, Option, none, some, List, [], ◌∷◌, map}
use bufi.Base.Int.{ℤ, pos, pos_part}
use bufi.Base.Texts.{Text}
use bufi.Treasury.Squads.{
  SquadsPeriod, SquadsSigner, SpendingLimit, SquadsPolicy, SquadsTreasuryPlan, or_else,
}
use bufi.Treasury.SdkArgs.{
  map_made, to_string, SolanaRuntime, SdkSigner, SdkPeriod, SdkSpendingLimit, PolicyCreate,
  to_sdk_signer, to_sdk_signers, to_sdk_period, to_sdk_expiration, to_sdk_policy_create_action,
  actions_from, to_sdk_policy_create_actions,
}
use bufi.Treasury.SdkArgs.Digits.{read_integer, read_integer-to_string}

-- What of a policy its action has a place for.
abbrev pub enforced : SquadsPolicy → List SquadsSigner × ℕ × ℕ × SpendingLimit
enforced policy = (policy.signers, policy.threshold, policy.time_lock, policy.payload)

abbrev pub seeds_from : ℕ → List SquadsPolicy → List ℕ
seeds_from seed [] = []
seeds_from seed (policy ∷ policies) = seed ∷ seeds_from (seed + 1) policies

-- Each of some values is made, and read back from what is made of it.
read_map_made :
    {A B : Type 0} (f : A → Option B) (read : B → A) (values : List A)
    → All (λ a. (b : B) × ((f a ≡ some b) × (read b ≡ a))) values
    → (bs : List B) × ((map_made f values ≡ some bs) × (map read bs ≡ values))
unfolding map_made
read_map_made f read [] made = ([], (refl, refl))
read_map_made f read (a ∷ rest) made =
    let (b, made_b) = made.0 in
    let (bs, made_bs) = read_map_made f read rest made.1 in
    (b ∷ bs, (rw (made_b.0, made_bs.0) refl, rw (made_b.1, made_bs.1) refl))

module _ {PK BN : Type 0} (read_key : PK → Text) (read_bn : BN → ℤ) where
  abbrev pub read_signer : SdkSigner PK → SquadsSigner
  read_signer s = record { key = some (read_key s.key); permissions = s.mask }

  abbrev pub read_period : SdkPeriod BN → SquadsPeriod
  read_period (SdkPeriod.plain period) = period
  read_period (SdkPeriod.custom seconds) = SquadsPeriod.custom (pos_part (read_bn seconds))

  abbrev pub read_expiration : Option BN → Option ℕ
  read_expiration none = none
  read_expiration (some time) = some (pos_part (read_bn time))

  abbrev pub read_limit : SdkSpendingLimit PK BN → SpendingLimit
  read_limit f = record {
    mint = read_key f.mint;
    source_account_index = f.source_account_index;
    destinations = map read_key f.destinations;
    start = pos_part (read_bn f.start);
    expiration = read_expiration f.expiration;
    period = read_period f.period;
    accumulate_unused = f.accumulate_unused;
    max_per_period = read_bn f.max_per_period;
    max_per_use = read_bn f.max_per_use;
    enforce_exact_quantity = f.enforce_exact_quantity;
  }

  abbrev pub read_action : PolicyCreate PK BN → List SquadsSigner × ℕ × ℕ × SpendingLimit
  read_action a = (map read_signer a.signers, a.threshold, a.time_lock, read_limit a.spending_limit)

module _ {PK BN : Type 0} (rt : SolanaRuntime PK BN) where
  -- `new PublicKey` takes the text.
  abbrev pub IsKey : Text → Type 0
  IsKey t = (k : PK) × (rt.public_key (some t) ≡ some k)

  -- Every key of a policy is there and is taken.
  abbrev pub HasKeys : SquadsPolicy → Type 0
  HasKeys p =
      All (λ (s : SquadsSigner). (t : Text) × ((s.key ≡ some t) × IsKey t)) p.signers
      × All IsKey p.payload.destinations
      × IsKey p.payload.mint

  -- A key that is taken prints as its text, and a `BN` takes the decimal text of an integer and stands
  -- for the integer that this text denotes.
  pub record CanBeRead (read_key : PK → Text) (read_bn : BN → ℤ) : Type 0 where
    pub keys : (t : Text) (k : PK) → rt.public_key (some t) ≡ some k → read_key k ≡ t
    pub numbers :
        (z : ℤ)
        → (b : BN) × ((rt.bn (to_string z) ≡ some b) × (read_bn b ≡ read_integer (to_string z)))

module _ {PK BN : Type 0} (read_key : PK → Text) (read_bn : BN → ℤ) (rt : SolanaRuntime PK BN)
    (readable : CanBeRead rt read_key read_bn) where
  number_made : (z : ℤ) → (b : BN) × ((rt.bn (to_string z) ≡ some b) × (read_bn b ≡ z))
  number_made z =
      let (b, made) = readable.numbers z in (b, (made.0, made.1 ∙ read_integer-to_string z))

  key_made :
      (t : Text) → IsKey rt t → (k : PK) × ((rt.public_key (some t) ≡ some k) × (read_key k ≡ t))
  key_made t (k, taken) = (k, (taken, readable.keys t k taken))

  keys_made :
      (ts : List Text)
      → All (IsKey rt) ts
      → All (λ t. (k : PK) × ((rt.public_key (some t) ≡ some k) × (read_key k ≡ t))) ts
  keys_made [] taken = tt
  keys_made (t ∷ ts) taken = (key_made t taken.0, keys_made ts taken.1)

  signer_made :
      (s : SquadsSigner)
      → (t : Text) × ((s.key ≡ some t) × IsKey rt t)
      → (k : SdkSigner PK) × ((to_sdk_signer rt s ≡ some k) × (read_signer read_key read_bn k ≡ s))
  signer_made s (t, (known, (k, taken))) = (
    record { key = k; mask = s.permissions },
    (
      rw (known, taken) refl,
      rw (readable.keys t k taken)
          (ap (λ key. record { key = key; permissions = s.permissions }) (sym known)),
    ),
  )

  signers_made :
      (signers : List SquadsSigner)
      → All (λ (s : SquadsSigner). (t : Text) × ((s.key ≡ some t) × IsKey rt t)) signers
      → All
          (λ s.
            (k : SdkSigner PK) × ((to_sdk_signer rt s ≡ some k)
              × (read_signer read_key read_bn k ≡ s)))
          signers
  signers_made [] known = tt
  signers_made (s ∷ rest) known = (signer_made s known.0, signers_made rest known.1)

  period_made :
      (period : SquadsPeriod)
      → (q : SdkPeriod BN) × ((to_sdk_period rt period ≡ some q)
          × (read_period read_key read_bn q ≡ period))
  unfolding to_sdk_period
  period_made SquadsPeriod.one_time = (SdkPeriod.plain SquadsPeriod.one_time, (refl, refl))
  period_made SquadsPeriod.daily = (SdkPeriod.plain SquadsPeriod.daily, (refl, refl))
  period_made SquadsPeriod.weekly = (SdkPeriod.plain SquadsPeriod.weekly, (refl, refl))
  period_made SquadsPeriod.monthly = (SdkPeriod.plain SquadsPeriod.monthly, (refl, refl))
  period_made (SquadsPeriod.custom seconds) =
      let (b, made) = number_made (pos seconds) in
      (SdkPeriod.custom b, (rw made.0 refl, rw made.1 refl))

  expiration_made :
      (time : Option ℕ)
      → (q : Option BN) × ((to_sdk_expiration rt time ≡ some q)
          × (read_expiration read_key read_bn q ≡ time))
  expiration_made none = (none, (refl, refl))
  expiration_made (some time) =
      let (b, made) = number_made (pos time) in (some b, (rw made.0 refl, rw made.1 refl))

  action_made :
      (policy : SquadsPolicy) (seed : ℕ)
      → HasKeys rt policy
      → (a : PolicyCreate PK BN) × ((to_sdk_policy_create_action rt policy seed ≡ some a)
          × (read_action read_key read_bn a ≡ enforced policy)
          × (a.seed ≡ seed))
  unfolding to_sdk_policy_create_action to_sdk_signers
  action_made policy seed (signing, receiving, minted) =
      let f = policy.payload in
      let (mint, m) = key_made f.mint minted in
      let (destinations, d) =
        read_map_made (λ t. rt.public_key (some t)) read_key f.destinations
          (keys_made f.destinations receiving) in
      let (start, s) = number_made (pos f.start) in
      let (expiration, e) = expiration_made f.expiration in
      let (period, p) = period_made f.period in
      let (max_per_period, mp) = number_made f.max_per_period in
      let (max_per_use, mu) = number_made f.max_per_use in
      let (signers, g) =
        read_map_made (to_sdk_signer rt) (read_signer read_key read_bn) policy.signers
          (signers_made policy.signers signing) in
      (
        record {
          seed = seed;
          spending_limit = record {
            mint = mint;
            source_account_index = f.source_account_index;
            destinations = destinations;
            start = start;
            expiration = expiration;
            period = period;
            accumulate_unused = f.accumulate_unused;
            max_per_period = max_per_period;
            max_per_use = max_per_use;
            enforce_exact_quantity = f.enforce_exact_quantity;
          };
          signers = signers;
          threshold = policy.threshold;
          time_lock = policy.time_lock;
        },
        (
          rw (m.0, d.0, s.0, e.0, p.0, mp.0, mu.0, g.0) refl,
          rw (m.1, d.1, s.1, e.1, p.1, mp.1, mu.1, g.1) refl,
          refl,
        ),
      )

  actions_made :
      (policies : List SquadsPolicy) (seed : ℕ)
      → All (HasKeys rt) policies
      → (actions : List (PolicyCreate PK BN)) × ((actions_from rt policies seed ≡ some actions)
          × (map (read_action read_key read_bn) actions ≡ map enforced policies)
          × (map (λ a. a.seed) actions ≡ seeds_from seed policies))
  unfolding actions_from
  actions_made [] seed known = ([], (refl, refl, refl))
  actions_made (policy ∷ policies) seed known =
      let (a, (made, same, numbered)) = action_made policy seed known.0 in
      let (rest, (made_rest, same_rest, numbered_rest)) =
        actions_made policies (seed + 1) known.1 in
      (
        a ∷ rest,
        (rw (made, made_rest) refl, rw (same, same_rest) refl, rw (numbered, numbered_rest) refl),
      )

  -- With a runtime whose keys print as the texts they were made of and whose numbers read decimal
  -- texts, a plan whose keys the runtime takes gives one action for every policy, which carries its
  -- signers, threshold, time lock and spending limit, in the plan's order, and the seeds of the actions
  -- count up from the first.
  pub to_sdk_policy_create_actions-read :
      (plan : SquadsTreasuryPlan) (first_seed : Option ℕ)
      → All (HasKeys rt) plan.policies
      → (actions : List (PolicyCreate PK BN)) × ((to_sdk_policy_create_actions rt plan first_seed
            ≡ some actions)
          × (map (read_action read_key read_bn) actions ≡ map enforced plan.policies)
          × (map (λ a. a.seed) actions ≡ seeds_from (or_else first_seed 1) plan.policies))
  unfolding to_sdk_policy_create_actions
  to_sdk_policy_create_actions-read plan none known = actions_made plan.policies 1 known
  to_sdk_policy_create_actions-read plan (some seed) known = actions_made plan.policies seed known
