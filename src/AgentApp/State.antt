-- ===== src/AgentApp/State.antt =====
-- apps/agent/src/state.ts: the state as it is held and as its JSON value, with the checks of the
-- schema and the deployments by chain. JSON.parse and JSON.stringify, and the shape of the value,
-- are left out: the model starts at a value of the schema's shape.
pub mod RoundTrip
pub mod Deployments
use bufi.Base.{
  ℕ, ◌≡◌, ◌==◌, Bool, true, false, ◌&&◌, ◌||◌, not, Option, none, some, List, [], ◌∷◌, ◌++◌, map,
  all, keep, leb, length, if◌then◌else◌,
}
use bufi.Base.Int.{ℤ, pos, negsuc}
use bufi.Base.Texts.{Text, text}
use bufi.Treasury.SdkArgs.{to_string}
use bufi.Treasury.SdkArgs.Digits.{read_integer}

pub data TreasuryChainKey : Type 0 where
  local arc_testnet avax_fuji arb_sepolia base_sepolia arc avax : TreasuryChainKey

-- A member that may be undefined is an option. `N` is the type of the bigints: themselves in the
-- state, texts in its JSON value. `validUntil` and the intervals are whole numbers.
pub record AllowEntry : Type 0 where
  pub target : Text
  pub selectors : Option (List Text)

pub record Erc20Budget (N : Type 0) : Type 0 where
  pub token : Text
  pub limit : N
  pub refresh_interval_seconds : ℤ

pub record GasBudget (N : Type 0) : Type 0 where
  pub limit : N
  pub refresh_interval_seconds : ℤ

pub record AgentGrant (N : Type 0) : Type 0 where
  pub allow : List AllowEntry
  pub erc20_budget : Option (List (Erc20Budget N))
  pub gas_budget : Option (GasBudget N)
  pub valid_until : ℤ

pub record StoredOwner (N : Type 0) : Type 0 where
  pub address : Text
  pub weight : N

pub record StoredAgent (N : Type 0) : Type 0 where
  pub address : Text
  pub session_key : Text
  pub grant : AgentGrant N

pub record StoredDeployment (N : Type 0) : Type 0 where
  pub chain : TreasuryChainKey
  pub treasury : Text
  pub conduit : Text
  pub owners : List (StoredOwner N)
  pub threshold_weight : N
  pub allowlist : List Text
  pub agent : Option (StoredAgent N)

pub record AgentState (N : Type 0) : Type 0 where
  pub session_private_key : Option Text
  pub deployments : List (StoredDeployment N)

abbrev pub map_option : {A B : Type 0} → (A → B) → Option A → Option B
map_option f none = none
map_option f (some a) = some (f a)

-- The bigints of a state, each by the same function: `toString` for the JSON value, `BigInt` back.
module _ {M N : Type 0} (f : M → N) where
  abbrev pub map_erc20_budget : Erc20Budget M → Erc20Budget N
  map_erc20_budget b = record {
    token = b.token;
    limit = f b.limit;
    refresh_interval_seconds = b.refresh_interval_seconds;
  }

  abbrev pub map_gas_budget : GasBudget M → GasBudget N
  map_gas_budget b = record {
    limit = f b.limit;
    refresh_interval_seconds = b.refresh_interval_seconds;
  }

  unfoldable pub map_grant : AgentGrant M → AgentGrant N
  map_grant g = record {
    allow = g.allow;
    erc20_budget = map_option (map map_erc20_budget) g.erc20_budget;
    gas_budget = map_option map_gas_budget g.gas_budget;
    valid_until = g.valid_until;
  }

  abbrev pub map_owner : StoredOwner M → StoredOwner N
  map_owner o = record { address = o.address; weight = f o.weight }

  abbrev pub map_agent : StoredAgent M → StoredAgent N
  map_agent a = record {
    address = a.address;
    session_key = a.session_key;
    grant = map_grant a.grant;
  }

  unfoldable pub map_deployment : StoredDeployment M → StoredDeployment N
  map_deployment d = record {
    chain = d.chain;
    treasury = d.treasury;
    conduit = d.conduit;
    owners = map map_owner d.owners;
    threshold_weight = f d.threshold_weight;
    allowlist = d.allowlist;
    agent = map_option map_agent d.agent;
  }

  unfoldable pub map_state : AgentState M → AgentState N
  map_state s = record {
    session_private_key = s.session_private_key;
    deployments = map map_deployment s.deployments;
  }

abbrev pub is_hex_digit : ℕ → Bool
is_hex_digit c =
    (leb b'0' c && leb c b'9') || (leb b'a' c && leb c b'f') || (leb b'A' c && leb c b'F')

-- `/^0x[0-9a-fA-F]*$/`
unfoldable pub is_hex : Text → Bool
is_hex (z ∷ x ∷ digits) = z == b'0' && x == b'x' && all is_hex_digit digits
is_hex _ = false

unfoldable pub is_address : Text → Bool
is_address value = is_hex value && length value == 42

unfoldable pub is_private_key : Text → Bool
is_private_key value = is_hex value && length value == 66

abbrev pub is_digit : ℕ → Bool
is_digit c = leb b'0' c && leb c b'9'

-- `/^\d+$/`
unfoldable pub is_bigint_string : Text → Bool
is_bigint_string [] = false
is_bigint_string (c ∷ cs) = is_digit c && all is_digit cs

abbrev pub every : {A : Type 0} → (A → Bool) → Option A → Bool
every p none = true
every p (some a) = p a

-- The schema, with the test of its bigints left open.
module _ {N : Type 0} (is_bigint : N → Bool) where
  abbrev pub is_allow_entry : AllowEntry → Bool
  is_allow_entry a = is_address a.target && every (all is_hex) a.selectors

  abbrev pub is_erc20_budget : Erc20Budget N → Bool
  is_erc20_budget b = is_address b.token && is_bigint b.limit

  unfoldable pub is_grant : AgentGrant N → Bool
  is_grant g =
      all is_allow_entry g.allow
      && every (all is_erc20_budget) g.erc20_budget
      && every (λ b. is_bigint b.limit) g.gas_budget

  abbrev pub is_agent : StoredAgent N → Bool
  is_agent a = is_address a.address && is_address a.session_key && is_grant a.grant

  abbrev pub is_owner : StoredOwner N → Bool
  is_owner o = is_address o.address && is_bigint o.weight

  unfoldable pub is_deployment : StoredDeployment N → Bool
  is_deployment d =
      is_address d.treasury
      && is_address d.conduit
      && all is_owner d.owners
      && is_bigint d.threshold_weight
      && all is_address d.allowlist
      && every is_agent d.agent

  unfoldable pub is_state : AgentState N → Bool
  is_state s = every is_private_key s.session_private_key && all is_deployment s.deployments

-- `parseState` behind `JSON.parse`; none where the schema throws.
unfoldable pub parse_state : AgentState Text → Option (AgentState ℤ)
parse_state raw = if is_state is_bigint_string raw then some (map_state read_integer raw) else none

-- `serializeState` before `JSON.stringify`.
unfoldable pub serialize_state : AgentState ℤ → AgentState Text
serialize_state state = map_state to_string state

abbrev pub chain_index : TreasuryChainKey → ℕ
chain_index TreasuryChainKey.local = 0
chain_index TreasuryChainKey.arc_testnet = 1
chain_index TreasuryChainKey.avax_fuji = 2
chain_index TreasuryChainKey.arb_sepolia = 3
chain_index TreasuryChainKey.base_sepolia = 4
chain_index TreasuryChainKey.arc = 5
chain_index TreasuryChainKey.avax = 6

abbrev pub is_on : TreasuryChainKey → StoredDeployment ℤ → Bool
is_on chain d = chain_index d.chain == chain_index chain

unfoldable pub upsert_deployment : AgentState ℤ → StoredDeployment ℤ → AgentState ℤ
upsert_deployment state deployment = record state {
  deployments = keep (λ d. not (is_on deployment.chain d)) state.deployments ++ deployment ∷ [];
}

unfoldable pub first_on : TreasuryChainKey → List (StoredDeployment ℤ) → Option (StoredDeployment ℤ)
first_on chain [] = none
first_on chain (d ∷ ds) = if is_on chain d then some d else first_on chain ds

unfoldable pub find_deployment : AgentState ℤ → TreasuryChainKey → Option (StoredDeployment ℤ)
find_deployment state chain = first_on chain state.deployments
