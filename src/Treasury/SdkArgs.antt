-- ===== src/Treasury/SdkArgs.antt =====
-- packages/weighted-treasury/src/squads/sdk-args.ts: a plan as the arguments of the SDK. The two
-- constructors of the SDK's runtime are parameters.
pub mod Digits
pub mod ReadBack
use bufi.Base.{
  ℕ, zero, suc, ◌+◌, ◌/◌, ◌%◌, Bool, Option, none, some, List, [], ◌∷◌, map, ltb, if◌then◌else◌,
}
use bufi.Base.Int.{ℤ, pos, negsuc}
use bufi.Base.Texts.{Text, text}
use bufi.Treasury.Squads.{
  SquadsPeriod, SquadsSigner, SpendingLimit, SquadsPolicy, SquadsTreasuryPlan,
}

-- `BigInt.prototype.toString`. The digits fall by the factor ten, so `n` rounds suffice for `n`.
unfoldable pub decimal_from : ℕ → ℕ → Text → Text
decimal_from zero n behind = (n % 10 + 48) ∷ behind
decimal_from (suc fuel) n behind =
    let more = decimal_from fuel (n / 10) ((n % 10 + 48) ∷ behind) in
    if ltb n 10 then (n + 48) ∷ behind else more

unfoldable pub decimal : ℕ → Text
decimal n = decimal_from n n []

unfoldable pub to_string : ℤ → Text
to_string (pos n) = decimal n
to_string (negsuc n) = b'-' ∷ decimal (suc n)

-- The two constructors; none is one that throws. `new PublicKey` is given what a signer's key is, a
-- missing one included.
pub record SolanaRuntime (PK BN : Type 0) : Type 0 where
  pub public_key : Option Text → Option PK
  pub bn : Text → Option BN

-- What throws ends what follows it.
infixl 5 ◌>>=◌
abbrev pub ◌>>=◌ : {A B : Type 0} → Option A → (A → Option B) → Option B
none >>= next = none
some a >>= next = next a

-- `as.map(f)`
unfoldable pub map_made : {A B : Type 0} → (A → Option B) → List A → Option (List B)
map_made f [] = some []
map_made f (a ∷ rest) = do b ← f a; bs ← map_made f rest; some (b ∷ bs)

pub record SdkSigner (PK : Type 0) : Type 0 where
  pub key : PK
  pub mask : ℕ

pub data SdkPeriod (BN : Type 0) : Type 0 where
  plain : SquadsPeriod → SdkPeriod BN
  custom : BN → SdkPeriod BN

pub record SdkSpendingLimit (PK BN : Type 0) : Type 0 where
  pub mint : PK
  pub source_account_index : ℕ
  pub destinations : List PK
  pub start : BN
  pub expiration : Option BN
  pub period : SdkPeriod BN
  pub accumulate_unused : Bool
  pub max_per_period : BN
  pub max_per_use : BN
  pub enforce_exact_quantity : Bool

-- `usageState`, `startTimestamp` and `expirationArgs` are null in every action.
pub record PolicyCreate (PK BN : Type 0) : Type 0 where
  pub seed : ℕ
  pub spending_limit : SdkSpendingLimit PK BN
  pub signers : List (SdkSigner PK)
  pub threshold : ℕ
  pub time_lock : ℕ

module _ {PK BN : Type 0} (rt : SolanaRuntime PK BN) where
  abbrev pub to_sdk_signer : SquadsSigner → Option (SdkSigner PK)
  to_sdk_signer s = do key ← rt.public_key s.key; some (record { key = key; mask = s.permissions })

  unfoldable pub to_sdk_signers : List SquadsSigner → Option (List (SdkSigner PK))
  to_sdk_signers signers = map_made to_sdk_signer signers

  unfoldable pub to_sdk_period : SquadsPeriod → Option (SdkPeriod BN)
  to_sdk_period (SquadsPeriod.custom seconds) = do
    n ← rt.bn (to_string (pos seconds))
    some (SdkPeriod.custom n)
  to_sdk_period period = some (SdkPeriod.plain period)

  abbrev pub to_sdk_expiration : Option ℕ → Option (Option BN)
  to_sdk_expiration none = some none
  to_sdk_expiration (some time) = do n ← rt.bn (to_string (pos time)); some (some n)

  unfoldable pub to_sdk_policy_create_action : SquadsPolicy → ℕ → Option (PolicyCreate PK BN)
  to_sdk_policy_create_action policy seed = do
    let f = policy.payload
    mint ← rt.public_key (some f.mint)
    destinations ← map_made (λ d. rt.public_key (some d)) f.destinations
    start ← rt.bn (to_string (pos f.start))
    expiration ← to_sdk_expiration f.expiration
    period ← to_sdk_period f.period
    max_per_period ← rt.bn (to_string f.max_per_period)
    max_per_use ← rt.bn (to_string f.max_per_use)
    signers ← to_sdk_signers policy.signers
    some (record {
      seed = seed;
      spending_limit = record {
        mint = mint;
        source_account_index = f.source_account_index;
        destinations = destinations;
        start = start;
        expiration = expiration;
        period = period;
        accumulate_unused = f.accumulate_unused;
        max_per_period = max_per_period;
        max_per_use = max_per_use;
        enforce_exact_quantity = f.enforce_exact_quantity;
      };
      signers = signers;
      threshold = policy.threshold;
      time_lock = policy.time_lock;
    })

  -- `plan.policies.map((policy, i) => …)`, from the seed of the first one on.
  unfoldable pub actions_from : List SquadsPolicy → ℕ → Option (List (PolicyCreate PK BN))
  actions_from [] seed = some []
  actions_from (policy ∷ policies) seed = do
    action ← to_sdk_policy_create_action policy seed
    actions ← actions_from policies (seed + 1)
    some (action ∷ actions)

  unfoldable pub to_sdk_policy_create_actions :
      SquadsTreasuryPlan → Option ℕ → Option (List (PolicyCreate PK BN))
  to_sdk_policy_create_actions plan none = actions_from plan.policies 1
  to_sdk_policy_create_actions plan (some first_seed) = actions_from plan.policies first_seed
