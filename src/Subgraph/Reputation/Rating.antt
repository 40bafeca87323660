-- ===== src/Subgraph/Reputation/Rating.antt =====
-- `handleNewFeedback` of packages/subgraph-arc/src/identity/reputation-registry.ts.
use bufi.Base.{◌+◌, Bool, true, false, not, Option, none, some, ltb, if◌then◌else◌}
use bufi.Base.Int.{ℤ, pos, ◌+ℤ◌}
use bufi.Base.Texts.{Text}
use bufi.Subgraph.Table.{Bytes}
use bufi.Subgraph.Schema.{
  Agent, Engagement, Feedback, ReputationRegistry, UriKind, Timestamp, Store,
}
use bufi.Subgraph.Access.{
  load_agent, save_agent, save_engagement, save_reputation_registry, save_feedback,
}
use bufi.Subgraph.Runtime.{Host, Event, block_time, get_or_create_account}
use bufi.Subgraph.Uri.{classify_uri}
use bufi.Subgraph.Commerce.Engagements.{get_or_create_engagement, resolve_agent_by_wallet}
use bufi.Subgraph.Reputation.{
  NewFeedback, agent_entity_id, feedback_entity_id, get_or_create_reputation_registry, is_zero_hash,
  normalize_value, create_feedback_metric_point,
}

-- `engagement`, `verified` and `evidence`, given the rater's workspace.
abbrev pub rated_engagement : Host → Option Agent → Agent → Timestamp → Store → Option Engagement
rated_engagement host none agent at s = none
rated_engagement host (some rater) agent at s =
    some (get_or_create_engagement host rater agent at s)

abbrev pub is_verified : Option Engagement → Bool
is_verified none = false
is_verified (some e) = ltb 0 e.settled_job_count

abbrev pub evidence_of : Option Engagement → Option Bytes
evidence_of none = none
evidence_of (some e) = if ltb 0 e.settled_job_count then e.last_settled_job else none

abbrev pub id_of : Option Agent → Option Bytes
id_of none = none
id_of (some a) = some a.id

abbrev pub plus_if : Bool → ℤ → ℤ
plus_if true z = z +ℤ pos 1
plus_if false z = z

unfoldable pub save_rated : Option Engagement → Bool → Timestamp → Store → Store
save_rated none verified at s = s
save_rated (some e) verified at s =
    save_engagement
      (record e {
        feedback_count = e.feedback_count +ℤ pos 1;
        verified_feedback_count = plus_if verified e.verified_feedback_count;
        last_feedback_at = some at;
        updated_at = at;
      })
      s

module _ (host : Host) (resolve_feedback_document : Bytes → Text → UriKind → Option Bytes) where
  abbrev pub new_feedback :
      ReputationRegistry
      → Agent
      → Bytes
      → Option Agent
      → Option Engagement
      → Event NewFeedback
      → Feedback
  new_feedback registry agent client client_agent engagement event =
      let p = event.params in
      let id =
        feedback_entity_id host registry.chain_id event.address p.agent_id p.client_address
          p.feedback_index in
      let kind = classify_uri p.feedback_uri in
      record {
        id = id;
        registry = registry.id;
        agent = agent.id;
        client = client;
        client_agent = id_of client_agent;
        verified = is_verified engagement;
        evidence = evidence_of engagement;
        feedback_index = p.feedback_index;
        value = p.value;
        value_decimals = p.value_decimals;
        normalized_value = normalize_value host p.value p.value_decimals;
        tag1 = p.tag1;
        tag1_hash = p.indexed_tag1;
        tag2 = p.tag2;
        endpoint = p.endpoint;
        feedback_uri = p.feedback_uri;
        feedback_uri_kind = kind;
        feedback_hash = p.feedback_hash;
        has_feedback_hash = not (is_zero_hash p.feedback_hash);
        document = resolve_feedback_document id p.feedback_uri kind;
        is_revoked = false;
        revoked_at = none;
        revoked_at_block = none;
        revoked_at_transaction = none;
        response_count = 0;
        created_at = block_time host event;
        created_at_block = event.block_number;
        created_at_transaction = event.transaction_hash;
        created_at_log_index = event.log_index;
      }

  -- What is saved once the feedback is made.
  unfoldable pub save_feedback_and_counts :
      ReputationRegistry → Agent → Feedback → Option Engagement → Event NewFeedback → Store → Store
  save_feedback_and_counts registry agent feedback engagement event s =
      let at = block_time host event in
      let rated = record agent {
        feedback_count = agent.feedback_count + 1;
        active_feedback_count = agent.active_feedback_count +ℤ pos 1;
        verified_feedback_count = plus_if feedback.verified agent.verified_feedback_count;
        updated_at = at;
        updated_at_block = event.block_number;
        updated_at_transaction = event.transaction_hash;
      } in
      let counted = record registry {
        feedback_count = registry.feedback_count + 1;
        active_feedback_count = registry.active_feedback_count +ℤ pos 1;
        updated_at = at;
      } in
      create_feedback_metric_point at registry.id agent.id feedback.tag1 feedback.tag2 (pos 1)
        feedback.normalized_value
        (save_reputation_registry counted (
          save_rated engagement feedback.verified at (save_agent rated (save_feedback feedback s))))

  unfoldable pub rate_agent : ReputationRegistry → Option Agent → Event NewFeedback → Store → Store
  rate_agent registry none event s = s
  rate_agent registry (some agent) event s =
      let client = get_or_create_account event.params.client_address s in
      let client_agent = resolve_agent_by_wallet event.params.client_address client.1 in
      let engagement = rated_engagement host client_agent agent (block_time host event) client.1 in
      let feedback = new_feedback registry agent client.0.id client_agent engagement event in
      save_feedback_and_counts registry agent feedback engagement event client.1

  unfoldable pub handle_new_feedback : Event NewFeedback → Store → Store
  handle_new_feedback event s =
      let registry =
        get_or_create_reputation_registry host event.address (block_time host event) s in
      rate_agent registry
        (load_agent
          (agent_entity_id host registry.chain_id host.context_identity_registry
            event.params.agent_id)
          s)
        event s
