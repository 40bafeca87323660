-- ===== src/AgentApp/Examples.antt =====
-- The theorems on apps/agent/src/state.ts at a state with one deployment.
use bufi.Base.{◌≡◌, none, some, [], ◌∷◌, if◌then◌else◌}
use bufi.Base.Int.{ℤ, pos}
use bufi.Base.Texts.{Text, text}
use bufi.AgentApp.State.{
  TreasuryChainKey, StoredDeployment, AgentState, upsert_deployment, find_deployment, parse_state,
  serialize_state, is_state,
}
use bufi.AgentApp.State.RoundTrip.{is_unsigned, parse_state-serialize_state}
use bufi.AgentApp.State.Deployments.{find_deployment-upsert}

abbrev address : Text
address = text "0x00000000000000000000000000000000000000aB"

abbrev deployed : TreasuryChainKey → StoredDeployment ℤ
deployed chain = record {
  chain = chain;
  treasury = address;
  conduit = address;
  owners = record { address = address; weight = pos 60 } ∷ [];
  threshold_weight = pos 60;
  allowlist = [];
  agent = none;
}

abbrev state : AgentState ℤ
state = record { session_private_key = none; deployments = deployed TreasuryChainKey.local ∷ [] }

parse_state-serialize_state_example :
    parse_state (serialize_state state) ≡ (if is_state is_unsigned state then some state else none)
parse_state-serialize_state_example = parse_state-serialize_state state

find_deployment-upsert_example :
    find_deployment (upsert_deployment state (deployed TreasuryChainKey.arc)) TreasuryChainKey.local
    ≡ find_deployment state TreasuryChainKey.local
find_deployment-upsert_example =
    find_deployment-upsert state (deployed TreasuryChainKey.arc) TreasuryChainKey.local
