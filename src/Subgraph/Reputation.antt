-- ===== src/Subgraph/Reputation.antt =====
-- packages/subgraph-arc/src/identity/{agent,registry,feedback,feedback-metric-point}.ts and
-- reputation-registry.ts: the ratings of the reputation registry. `resolveFeedbackDocument` is a
-- parameter: the id of the document, whose own entities no handler here reads.
pub mod Rating
pub mod Revocation
pub mod Counts
pub mod Counted
pub mod Ids
pub mod Handled
pub mod Kept
pub mod History
pub mod Verified
use bufi.Base.{
  ℕ, ◌+◌, ◌^◌, ◌≡◌, Bool, true, false, ◌&&◌, not, Option, none, some, List, [], ◌∷◌, ◌++◌, all,
  ◌==◌, ltb, if◌then◌else◌,
}
use bufi.Base.Int.{ℤ, pos, negsuc, ◌+ℤ◌, ◌-ℤ◌}
use bufi.Base.Texts.{Text, text}
use bufi.Subgraph.Table.{Bytes}
use bufi.Subgraph.Schema.{
  Agent, Engagement, Feedback, FeedbackResponse, FeedbackMetricPoint, ReputationRegistry,
  BigDecimal, UriKind, Timestamp, Store,
}
use bufi.Subgraph.Access.{
  load_agent, save_agent, load_engagement, save_engagement, load_reputation_registry,
  save_reputation_registry, load_feedback, save_feedback, save_feedback_response,
  save_feedback_metric_point,
}
use bufi.Subgraph.Runtime.{Host, Event, block_time, get_or_create_account}

pub record NewFeedback : Type 0 where
  pub agent_id : ℕ
  pub client_address : Bytes
  pub feedback_index : ℕ
  pub value : ℤ
  pub value_decimals : ℕ
  pub indexed_tag1 : Bytes
  pub tag1 : Text
  pub tag2 : Text
  pub endpoint : Text
  pub feedback_uri : Text
  pub feedback_hash : Bytes

pub record FeedbackRevoked : Type 0 where
  pub agent_id : ℕ
  pub client_address : Bytes
  pub feedback_index : ℕ

pub record ResponseAppended : Type 0 where
  pub agent_id : ℕ
  pub client_address : Bytes
  pub feedback_index : ℕ
  pub responder : Bytes
  pub response_uri : Text
  pub response_hash : Bytes

unfoldable pub registry_entity_id : Host → ℕ → Bytes → Bytes
registry_entity_id host chain_id address =
    host.to_string chain_id ++ (text ":" ++ host.to_hex_string address)

unfoldable pub agent_entity_id : Host → ℕ → Bytes → ℕ → Bytes
agent_entity_id host chain_id registry agent_id =
    host.to_string chain_id
    ++ (text ":" ++ (host.to_hex_string registry ++ (text ":" ++ host.to_string agent_id)))

unfoldable pub feedback_entity_id : Host → ℕ → Bytes → ℕ → Bytes → ℕ → Bytes
feedback_entity_id host chain_id registry agent_id client feedback_index =
    host.to_string chain_id
    ++ (text ":"
        ++ (host.to_hex_string registry
            ++ (text ":"
                ++ (host.to_string agent_id
                    ++ (text ":"
                        ++ (host.to_hex_string client
                            ++ (text ":" ++ host.to_string feedback_index)))))))

unfoldable pub is_zero_hash : Bytes → Bool
is_zero_hash value = all (λ b. b == 0) value

-- A new registry is left for the caller to save, which first sets its `updatedAt`.
unfoldable pub get_or_create_reputation_registry :
    Host → Bytes → Timestamp → Store → ReputationRegistry
get_or_create_reputation_registry host address at s =
    let id = registry_entity_id host host.context_chain_id address in
    elim (load_reputation_registry id s) [
      | some registry ↦ registry
      | none ↦ record {
        id = id;
        network = host.network;
        chain_id = host.context_chain_id;
        identity_registry =
            registry_entity_id host host.context_chain_id host.context_identity_registry;
        feedback_count = 0;
        active_feedback_count = pos 0;
        response_count = 0;
        created_at = at;
        updated_at = at;
      }
    ]

-- The event's `valueDecimals` are of a byte.
abbrev pub normalize_value : Host → ℤ → ℕ → BigDecimal
normalize_value host value value_decimals =
    host.div_decimal value (host.to_big_decimal (10 ^ value_decimals))

abbrev pub create_feedback_metric_point :
    Timestamp → Bytes → Bytes → Text → Text → ℤ → BigDecimal → Store → Store
create_feedback_metric_point at registry agent tag1 tag2 count value s =
    save_feedback_metric_point
      (record {
        timestamp = at;
        registry = registry;
        agent = agent;
        tag1 = tag1;
        tag2 = tag2;
        feedback_count_delta = count;
        value_delta = value;
      })
      s
