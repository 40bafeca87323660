-- ===== src/Subgraph/Schema.antt =====
-- packages/subgraph-arc/schema.graphql: the entities that the handlers of the escrow and of the
-- reputation registry load and save, with their fields, and the store that keeps them. `BigInt`s that
-- the handlers only add to, and that start at unsigned event values, are natural numbers.
use bufi.Base.{ℕ, Bool, Option, List}
use bufi.Base.Int.{ℤ}
use bufi.Base.Texts.{Text}
use bufi.Subgraph.Table.{Bytes}

-- A stored `Timestamp`: the `i64` that the handlers give.
abbrev pub Timestamp : Type 0
Timestamp = ℤ

pub data JobStatus : Type 0 where
  opened funded submitted completed rejected expired : JobStatus

pub data JobEventKind : Type 0 where
  created provider_set budget_set job_funded job_submitted job_completed job_rejected job_expired
        payment_released evaluator_fee_paid refunded :
      JobEventKind

pub data AgentMetricKind : Type 0 where
  settled_as_provider settled_as_client refunded_as_client : AgentMetricKind

pub record AgenticCommerce : Type 0 where
  pub id : Bytes
  pub network : Text
  pub chain_id : ℕ
  pub implementation : Option Bytes
  pub payment_token : Bytes
  pub platform_fee_bp : ℕ
  pub platform_treasury : Option Bytes
  pub evaluator_fee_bp : ℕ
  pub job_count : ℕ
  pub settled_job_count : ℕ
  pub settled_volume : ℕ
  pub refunded_volume : ℕ
  pub created_at : Timestamp
  pub updated_at : Timestamp

pub record Job : Type 0 where
  pub id : Bytes
  pub agentic_commerce : Bytes
  pub job_id : ℕ
  pub status : JobStatus
  pub client : Bytes
  pub provider : Option Bytes
  pub evaluator : Bytes
  pub client_agent : Option Bytes
  pub provider_agent : Option Bytes
  pub engagement : Option Bytes
  pub expires_at : Timestamp
  pub submitted_at : Option Timestamp
  pub budget : ℕ
  pub payment_token : Bytes
  pub hook : Option Bytes
  pub description : Text
  pub provider_payment : ℕ
  pub evaluator_fee_paid : ℕ
  pub refunded_amount : ℕ
  pub settled : Bool
  pub settled_at : Option Timestamp
  pub deliverable : Option Bytes
  pub completion_reason : Option Bytes
  pub rejection_reason : Option Bytes
  pub created_at : Timestamp
  pub created_at_block : ℕ
  pub created_at_transaction : Bytes
  pub updated_at : Timestamp
  pub updated_at_block : ℕ
  pub updated_at_transaction : Bytes

pub record JobEvent : Type 0 where
  pub id : Bytes
  pub agentic_commerce : Bytes
  pub job : Bytes
  pub kind : JobEventKind
  pub actor : Option Bytes
  pub address : Option Bytes
  pub amount : Option ℕ
  pub data_bytes : Option Bytes
  pub block_number : ℕ
  pub timestamp : Timestamp
  pub transaction_hash : Bytes
  pub log_index : ℕ

-- Of a workspace's identity, the fields that these handlers read or write.
pub record Agent : Type 0 where
  pub id : Bytes
  pub feedback_count : ℕ
  pub active_feedback_count : ℤ
  pub response_count : ℕ
  pub verified_feedback_count : ℤ
  pub updated_at : Timestamp
  pub updated_at_block : ℕ
  pub updated_at_transaction : Bytes
  pub jobs_as_client : ℕ
  pub jobs_as_provider : ℕ
  pub settled_as_client : ℕ
  pub settled_as_provider : ℕ
  pub settled_volume_as_client : ℕ
  pub settled_volume_as_provider : ℕ
  pub refunded_volume_as_client : ℕ

pub record Engagement : Type 0 where
  pub id : Bytes
  pub client : Bytes
  pub provider : Bytes
  pub job_count : ℕ
  pub settled_job_count : ℕ
  pub settled_volume : ℕ
  pub refunded_volume : ℕ
  pub last_settled_job : Option Bytes
  pub last_settled_at : Option Timestamp
  pub feedback_count : ℤ
  pub verified_feedback_count : ℤ
  pub last_feedback_at : Option Timestamp
  pub first_seen_at : Timestamp
  pub updated_at : Timestamp

pub record WalletBinding : Type 0 where
  pub id : Bytes
  pub account : Bytes
  pub agent : Bytes
  pub bound_at : Timestamp
  pub bound_at_transaction : Bytes

pub record AgentMetricPoint : Type 0 where
  pub timestamp : Timestamp
  pub agent : Bytes
  pub kind : AgentMetricKind
  pub amount : ℕ

pub record Account : Type 0 where
  pub id : Bytes

pub record HookAllowlistEntry : Type 0 where
  pub id : Bytes
  pub agentic_commerce : Bytes
  pub hook : Bytes
  pub allowed : Bool
  pub updated_at : Timestamp
  pub updated_at_block : ℕ
  pub updated_at_transaction : Bytes

pub data UriKind : Type 0 where
  none_kind data_kind ipfs arweave https http other : UriKind

pub record ReputationRegistry : Type 0 where
  pub id : Bytes
  pub network : Text
  pub chain_id : ℕ
  pub identity_registry : Bytes
  pub feedback_count : ℕ
  pub active_feedback_count : ℤ
  pub response_count : ℕ
  pub created_at : Timestamp
  pub updated_at : Timestamp

-- The fields of the class of graph-ts.
pub record BigDecimal : Type 0 where
  pub digits : ℤ
  pub exp : ℤ

pub record Feedback : Type 0 where
  pub id : Bytes
  pub registry : Bytes
  pub agent : Bytes
  pub client : Bytes
  pub client_agent : Option Bytes
  pub verified : Bool
  pub evidence : Option Bytes
  pub feedback_index : ℕ
  pub value : ℤ
  pub value_decimals : ℕ
  pub normalized_value : BigDecimal
  pub tag1 : Text
  pub tag1_hash : Bytes
  pub tag2 : Text
  pub endpoint : Text
  pub feedback_uri : Text
  pub feedback_uri_kind : UriKind
  pub feedback_hash : Bytes
  pub has_feedback_hash : Bool
  pub document : Option Bytes
  pub is_revoked : Bool
  pub revoked_at : Option Timestamp
  pub revoked_at_block : Option ℕ
  pub revoked_at_transaction : Option Bytes
  pub response_count : ℕ
  pub created_at : Timestamp
  pub created_at_block : ℕ
  pub created_at_transaction : Bytes
  pub created_at_log_index : ℕ

pub record FeedbackResponse : Type 0 where
  pub id : Bytes
  pub feedback : Bytes
  pub responder : Bytes
  pub response_uri : Text
  pub response_uri_kind : UriKind
  pub response_hash : Bytes
  pub has_response_hash : Bool
  pub block_number : ℕ
  pub timestamp : Timestamp
  pub transaction_hash : Bytes
  pub log_index : ℕ

pub record FeedbackMetricPoint : Type 0 where
  pub timestamp : Timestamp
  pub registry : Bytes
  pub agent : Bytes
  pub tag1 : Text
  pub tag2 : Text
  pub feedback_count_delta : ℤ
  pub value_delta : BigDecimal

pub record Store : Type 0 where
  pub agentic_commerces : List AgenticCommerce
  pub jobs : List Job
  pub job_events : List JobEvent
  pub agents : List Agent
  pub engagements : List Engagement
  pub accounts : List Account
  pub wallet_bindings : List WalletBinding
  pub agent_metric_points : List AgentMetricPoint
  pub hook_allowlist_entries : List HookAllowlistEntry
  pub reputation_registries : List ReputationRegistry
  pub feedbacks : List Feedback
  pub feedback_responses : List FeedbackResponse
  pub feedback_metric_points : List FeedbackMetricPoint
