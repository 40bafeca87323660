-- ===== src/Subgraph/Reputation/Revocation.antt =====
-- `handleFeedbackRevoked` and `handleResponseAppended` of
-- packages/subgraph-arc/src/identity/reputation-registry.ts.
use bufi.Base.{ℕ, ◌+◌, Bool, true, false, not, Option, none, some}
use bufi.Base.Int.{ℤ, pos, negsuc, ◌-ℤ◌}
use bufi.Subgraph.Table.{Bytes}
use bufi.Subgraph.Schema.{
  Agent, Engagement, Feedback, FeedbackResponse, ReputationRegistry, Timestamp, Store,
}
use bufi.Subgraph.Access.{
  load_agent, save_agent, load_engagement, save_engagement, load_reputation_registry,
  save_reputation_registry, load_feedback, save_feedback, save_feedback_response,
}
use bufi.Subgraph.Runtime.{Host, Event, block_time, get_or_create_account}
use bufi.Subgraph.Uri.{classify_uri}
use bufi.Subgraph.Commerce.Engagements.{engagement_id}
use bufi.Subgraph.Reputation.{
  FeedbackRevoked, ResponseAppended, registry_entity_id, agent_entity_id, feedback_entity_id,
  is_zero_hash, create_feedback_metric_point,
}

abbrev pub minus_if : Bool → ℤ → ℤ
minus_if true z = z -ℤ pos 1
minus_if false z = z

abbrev pub loaded_engagement : Host → Option Agent → Agent → Store → Option Engagement
loaded_engagement host none agent s = none
loaded_engagement host (some rater) agent s = load_engagement (engagement_id host rater agent) s

abbrev pub loaded_rater : Option Bytes → Store → Option Agent
loaded_rater none s = none
loaded_rater (some id) s = load_agent id s

unfoldable pub save_unrated : Option Engagement → Bool → Timestamp → Store → Store
save_unrated none verified at s = s
save_unrated (some e) verified at s =
    save_engagement
      (record e {
        feedback_count = e.feedback_count -ℤ pos 1;
        verified_feedback_count = minus_if verified e.verified_feedback_count;
        updated_at = at;
      })
      s

-- A load of an entity that is not known ends the handler.
abbrev pub when_known : {E : Type 0} → Option E → (E → Store) → Store → Store
when_known none next s = s
when_known (some e) next s = next e

module _ (host : Host) where
  unfoldable pub revoke :
      ReputationRegistry → Agent → Feedback → Event FeedbackRevoked → Store → Store
  revoke registry agent feedback event s =
      let at = block_time host event in
      let revoked = record feedback {
        is_revoked = true;
        revoked_at = some at;
        revoked_at_block = some event.block_number;
        revoked_at_transaction = some event.transaction_hash;
      } in
      let unrated = record agent {
        active_feedback_count = agent.active_feedback_count -ℤ pos 1;
        verified_feedback_count = minus_if feedback.verified agent.verified_feedback_count;
        updated_at = at;
        updated_at_block = event.block_number;
        updated_at_transaction = event.transaction_hash;
      } in
      let uncounted = record registry {
        active_feedback_count = registry.active_feedback_count -ℤ pos 1;
        updated_at = at;
      } in
      let marked = save_feedback revoked s in
      let rater = loaded_rater feedback.client_agent marked in
      create_feedback_metric_point at registry.id agent.id feedback.tag1 feedback.tag2 (negsuc 0)
        (host.neg feedback.normalized_value)
        (save_reputation_registry uncounted (
          save_agent unrated
            (save_unrated (loaded_engagement host rater agent marked) feedback.verified at marked)))

  unfoldable pub append_response :
      ReputationRegistry → Agent → Feedback → Event ResponseAppended → Store → Store
  append_response registry agent feedback event s =
      let at = block_time host event in
      let responder = get_or_create_account event.params.responder s in
      let response : FeedbackResponse = record {
        id = host.concat_i32 event.transaction_hash event.log_index;
        feedback = feedback.id;
        responder = responder.0.id;
        response_uri = event.params.response_uri;
        response_uri_kind = classify_uri event.params.response_uri;
        response_hash = event.params.response_hash;
        has_response_hash = not (is_zero_hash event.params.response_hash);
        block_number = event.block_number;
        timestamp = at;
        transaction_hash = event.transaction_hash;
        log_index = event.log_index;
      } in
      save_reputation_registry
        (record registry { response_count = registry.response_count + 1; updated_at = at })
        (save_agent
          (record agent {
            response_count = agent.response_count + 1;
            updated_at = at;
            updated_at_block = event.block_number;
            updated_at_transaction = event.transaction_hash;
          })
          (save_feedback (record feedback { response_count = feedback.response_count + 1 })
            (save_feedback_response response responder.1)))

  -- The loads that both handlers start with.
  unfoldable pub on_known :
      Bytes → ℕ → Bytes → ℕ → (ReputationRegistry → Agent → Feedback → Store) → Store → Store
  on_known address agent_id client feedback_index next s =
      when_known
        (load_reputation_registry (registry_entity_id host host.context_chain_id address) s)
        (λ registry.
          when_known
            (load_agent
              (agent_entity_id host registry.chain_id host.context_identity_registry agent_id) s)
            (λ agent.
              when_known
                (load_feedback
                  (feedback_entity_id host registry.chain_id address agent_id client feedback_index)
                  s)
                (λ feedback. next registry agent feedback) s)
            s)
        s

  unfoldable pub handle_feedback_revoked : Event FeedbackRevoked → Store → Store
  handle_feedback_revoked event s =
      on_known event.address event.params.agent_id event.params.client_address
        event.params.feedback_index
        (λ registry agent feedback. revoke registry agent feedback event s) s

  unfoldable pub handle_response_appended : Event ResponseAppended → Store → Store
  handle_response_appended event s =
      on_known event.address event.params.agent_id event.params.client_address
        event.params.feedback_index
        (λ registry agent feedback. append_response registry agent feedback event s) s
