-- ===== src/Treasury/Spec.antt =====
-- packages/weighted-treasury/src/spec.ts: the chain-neutral treasury specification, and the
-- outcome of the functions that refuse one. A refusal carries the values that its message shows.
use bufi.Base.{ℕ, ◌≡◌, refl, Bool, true, false, Option, List, ◌||◌, if◌then◌else◌}
use bufi.Base.Int.{ℤ, pos, ltb_ℤ}
use bufi.Base.Texts.{Text}

-- A number of the source. `fractional` is any value that `Number.isInteger` refuses, which the code
-- never computes with.
pub data Number : Type 0 where
  integer : ℤ → Number
  fractional : Number

-- `!Number.isInteger(n) || n < lo || n > hi`
abbrev pub is_outside : ℤ → ℤ → Number → Bool
is_outside lo hi (integer z) = ltb_ℤ z lo || ltb_ℤ hi z
is_outside lo hi fractional = true

-- A number that the validation has found to be a whole one, not below zero.
abbrev pub whole : Number → ℕ
whole (integer (pos n)) = n
whole _ = 0

abbrev pub max_weight : ℕ
max_weight = 1_000_000

abbrev pub max_evm_owners : ℕ
max_evm_owners = 1000

pub record TreasuryOwner : Type 0 where
  pub id : Text
  pub weight : Number
  pub evm : Option Text
  pub solana : Option Text

pub record AllowedRecipient : Type 0 where
  pub label : Option Text
  pub evm : Option Text
  pub solana : Option Text

pub data Period : Type 0 where
  one_time daily weekly monthly : Period
  custom : Number → Period

pub record Budget : Type 0 where
  pub max_per_period : ℤ
  pub period : Period
  pub max_per_use : Option ℤ

pub record TreasuryAsset : Type 0 where
  pub symbol : Text
  pub solana_mint : Option Text
  pub solana_decimals : Option Number
  pub budget : Option Budget

pub record WeightedTreasurySpec : Type 0 where
  pub version : Number
  pub owners : List TreasuryOwner
  pub threshold_weight : Number
  pub allowlist : List AllowedRecipient
  pub assets : List TreasuryAsset
  pub admin_timelock_seconds : Number

pub data Backend : Type 0 where
  evm squads spec : Backend

-- One constructor for each message, with what the message quotes.
pub data Reason : Type 0 where
  unsupported_version : Number → Reason
  no_owner : Reason
  duplicate_owner_id : Text → Reason
  weight_out_of_range : Text → Reason
  invalid_evm_address : Text → Reason
  invalid_solana_key : Text → Reason
  threshold_out_of_range : ℕ → Reason
  empty_allowlist : Reason
  no_asset : Reason
  budget_not_positive : Text → Reason
  use_not_in_budget : Text → Reason
  custom_period_not_positive : Text → Reason
  timelock_not_u32 : Reason
  too_many_owners : Reason
  owner_without_evm : Text → Reason
  evm_address_twice : Text → Reason
  recipient_without_evm : Option Text → ℕ → Reason
  budget_not_enforced : Text → Reason
  owner_without_solana : Text → Reason
  solana_key_twice : Text → Reason
  recipient_without_solana : Option Text → ℕ → Reason
  empty_destinations : Reason
  too_many_policies : ℕ → ℕ → ℕ → Reason
  asset_without_mint : Text → Reason
  native_decimals : Reason

pub record SpecNotExpressible : Type 0 where
  pub backend : Backend
  pub reason : Reason

-- What a call returns or throws; `range_error` is the `RangeError` of coalitions.ts.
pub data Outcome {ℓ} (A : Type ℓ) : Type ℓ where
  ok : A → Outcome A
  refused : SpecNotExpressible → Outcome A
  range_error : Outcome A

infixl 5 ◌>>=◌ ◌>>◌
abbrev pub ◌>>=◌ {i j} : {X : Type i} {Y : Type j} → Outcome X → (X → Outcome Y) → Outcome Y
range_error >>= next = range_error
refused why >>= next = refused why
ok x >>= next = next x

abbrev pub ◌>>◌ {i} : {X : Type i} → Outcome (Unit {0}) → Outcome X → Outcome X
check >> rest = check >>= λ _. rest

abbrev pub fail {i} : {X : Type i} → Backend → Reason → Outcome X
fail backend reason = refused (record { backend = backend; reason = reason })

-- `if (test) fail(reason)`
abbrev pub fail_if : Bool → Backend → Reason → Outcome (Unit {0})
fail_if test backend reason = if test then fail backend reason else ok tt

-- A step of a chain that ends well has ended well itself.
pub >>=-eq-ok {i j} :
    {X : Type i} {Y : Type j} {y : Y} (run : Outcome X) (next : X → Outcome Y)
    → (run >>= next) ≡ ok y
    → (x : X) × (run ≡ ok x) × (next x ≡ ok y)
>>=-eq-ok range_error next ended = cc
>>=-eq-ok (refused why) next ended = cc
>>=-eq-ok (ok x) next ended = (x, refl, ended)

pub >>-eq-ok {i} :
    {X : Type i} {x : X} (check : Outcome (Unit {0})) (rest : Outcome X)
    → (check >> rest) ≡ ok x
    → (check ≡ ok tt) × (rest ≡ ok x)
>>-eq-ok range_error rest ended = cc
>>-eq-ok (refused why) rest ended = cc
>>-eq-ok (ok tt) rest ended = (refl, ended)

pub fail_if-eq-ok :
    (test : Bool) (backend : Backend) (reason : Reason)
    → fail_if test backend reason ≡ ok tt
    → test ≡ false
fail_if-eq-ok true backend reason h = cc
fail_if-eq-ok false backend reason h = refl

pub ok-injective : {A : Type 0} (a b : A) → ok a ≡ ok b → b ≡ a
ok-injective a b h = cc
