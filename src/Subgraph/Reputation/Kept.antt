-- ===== src/Subgraph/Reputation/Kept.antt =====
-- The ids of ratings and registries stay as packages/subgraph-arc/src/identity makes them under the
-- three handlers of reputation-registry.ts.
use bufi.Base.{ℕ, ◌+◌, ◌≡◌, refl, sym, ◌∙◌, ap, true, Option, none, some}
use bufi.Base.Int.{pos, ◌+ℤ◌}
use bufi.Base.Texts.{Text}
use bufi.Subgraph.Table.{Bytes, load-key}
use bufi.Subgraph.Schema.{Agent, Feedback, ReputationRegistry, UriKind, Store}
use bufi.Subgraph.Access.{
  load_agent, load_reputation_registry, load_feedback, save_agent, save_feedback,
}
use bufi.Subgraph.Runtime.{Host, Event, block_time, get_or_create_account}
use bufi.Subgraph.Commerce.Engagements.{resolve_agent_by_wallet}
use bufi.Subgraph.Reputation.{
  NewFeedback, FeedbackRevoked, ResponseAppended, registry_entity_id, agent_entity_id,
  feedback_entity_id, get_or_create_reputation_registry,
}
use bufi.Subgraph.Reputation.Rating.{
  plus_if, is_verified, rated_engagement, new_feedback, save_feedback_and_counts, rate_agent,
  handle_new_feedback,
}
use bufi.Subgraph.Reputation.Revocation.{
  on_known, revoke, append_response, handle_feedback_revoked, handle_response_appended,
  loaded_rater, loaded_engagement,
}
use bufi.Subgraph.Reputation.Counted.{
  save_rated-IsSame, save_unrated-IsSame, get_or_create_account-IsSame,
}
use bufi.Subgraph.Reputation.Ids.{
  IsPrinting, IsOfEvent, HasIds, HasIdsIn-save, same_event, get_or_create_reputation_registry-ids,
}
use bufi.Subgraph.Reputation.Handled.{IsOwnFeedback, when_known-holds}

module _ (host : Host) where
  pub HasIds-own :
      (address : Bytes) (n : ℕ) (c : Bytes) (i : ℕ) (s : Store)
      → IsPrinting host
      → HasIds host s
      → IsOwnFeedback host address n c i s
  HasIds-own address n c i s printing ids r f found_r found_f =
      let on_chain = ids.0 _ r found_r in
      let key = load-key (λ r. r.id) _ r s.reputation_registries found_r in
      let (address', n', c', i', facts) = ids.1 _ f found_f in
      let (same_id, of_registry, of_agent) = facts in
      let (here, this) = same_event host address' address n' n c' c i' i printing (
        sym same_id
        ∙ load-key (λ f. f.id) _ f s.feedbacks found_f
        ∙ ap (λ chain. feedback_entity_id host chain address n c i) on_chain) in
      (
        of_registry ∙ ap (registry_entity_id host host.context_chain_id) here ∙ sym key,
        of_agent
            ∙ ap (agent_entity_id host host.context_chain_id host.context_identity_registry) this
            ∙ ap (λ chain. agent_entity_id host chain host.context_identity_registry n)
                (sym on_chain),
      )

  module _ (resolve_feedback_document : Bytes → Text → UriKind → Option Bytes) where
    rate_agent-HasIds :
        (registry : ReputationRegistry) (found : Option Agent) (event : Event NewFeedback)
        (s : Store)
        → load_agent
            (agent_entity_id host registry.chain_id host.context_identity_registry
              event.params.agent_id)
            s
          ≡ found
        → registry.chain_id ≡ host.context_chain_id
        → registry.id ≡ registry_entity_id host host.context_chain_id event.address
        → HasIds host s
        → HasIds host (rate_agent host resolve_feedback_document registry found event s)
    unfolding rate_agent save_feedback_and_counts
    rate_agent-HasIds registry none event s known on_chain key ids = ids
    rate_agent-HasIds registry (some agent) event s known on_chain key ids =
        let p = event.params in
        let client = get_or_create_account p.client_address s in
        let (feedbacks, agents, registries) = get_or_create_account-IsSame p.client_address s in
        let rater = resolve_agent_by_wallet p.client_address client.1 in
        let at = block_time host event in
        let engagement = rated_engagement host rater agent at client.1 in
        let f =
          new_feedback host resolve_feedback_document registry agent client.0.id rater engagement
            event in
        let rated = record agent {
          feedback_count = agent.feedback_count + 1;
          active_feedback_count = agent.active_feedback_count +ℤ pos 1;
          verified_feedback_count = plus_if (is_verified engagement) agent.verified_feedback_count;
          updated_at = at;
          updated_at_block = event.block_number;
          updated_at_transaction = event.transaction_hash;
        } in
        let saved =
          save_rated-IsSame engagement (is_verified engagement) at
            (save_agent rated (save_feedback f client.1)) in
        rw (saved.0, saved.2, feedbacks, registries)
          (HasIdsIn-save host _ f s.reputation_registries s.feedbacks on_chain
            (
              event.address,
              p.agent_id,
              p.client_address,
              p.feedback_index,
              (
                ap
                    (λ chain.
                      feedback_entity_id host chain event.address p.agent_id p.client_address
                        p.feedback_index)
                    on_chain,
                key,
                load-key (λ a. a.id) _ agent s.agents known
                    ∙ ap
                        (λ chain.
                          agent_entity_id host chain host.context_identity_registry p.agent_id)
                        on_chain,
              ),
            )
            ids)

    pub handle_new_feedback-HasIds :
        (event : Event NewFeedback) (s : Store)
        → HasIds host s
        → HasIds host (handle_new_feedback host resolve_feedback_document event s)
    unfolding handle_new_feedback
    handle_new_feedback-HasIds event s ids =
        let (on_chain, key) =
          get_or_create_reputation_registry-ids host event.address (block_time host event) s ids in
        rate_agent-HasIds
          (get_or_create_reputation_registry host event.address (block_time host event) s) _ event s
          refl on_chain key ids

  on_known-HasIds :
      (address : Bytes) (n : ℕ) (c : Bytes) (i : ℕ)
      (next : ReputationRegistry → Agent → Feedback → Store) (s : Store)
      → HasIds host s
      → ((r : ReputationRegistry) (a : Agent) (f : Feedback)
          → r.chain_id ≡ host.context_chain_id
          → IsOfEvent host f
          → HasIds host (next r a f))
      → HasIds host (on_known host address n c i next s)
  unfolding on_known
  on_known-HasIds address n c i next s ids known =
      let rid = registry_entity_id host host.context_chain_id address in
      when_known-holds (HasIds host) (load_reputation_registry rid s) _ s ids (λ r found_r.
        let aid = agent_entity_id host r.chain_id host.context_identity_registry n in
        when_known-holds (HasIds host) (load_agent aid s) _ s ids (λ a found_a.
          let fid = feedback_entity_id host r.chain_id address n c i in
          when_known-holds (HasIds host) (load_feedback fid s) _ s ids
            (λ f found_f. known r a f (ids.0 rid r found_r) (ids.1 fid f found_f))))

  pub handle_feedback_revoked-HasIds :
      (event : Event FeedbackRevoked) (s : Store)
      → HasIds host s
      → HasIds host (handle_feedback_revoked host event s)
  unfolding handle_feedback_revoked revoke
  handle_feedback_revoked-HasIds event s ids =
      on_known-HasIds event.address event.params.agent_id event.params.client_address
        event.params.feedback_index _ s ids
        (λ r a f on_chain of_event.
          let at = block_time host event in
          let revoked = record f {
            is_revoked = true;
            revoked_at = some at;
            revoked_at_block = some event.block_number;
            revoked_at_transaction = some event.transaction_hash;
          } in
          let marked = save_feedback revoked s in
          let saved =
            save_unrated-IsSame
              (loaded_engagement host (loaded_rater f.client_agent marked) a marked) f.verified at
              marked in
          rw (saved.0, saved.2)
            (HasIdsIn-save host _ revoked s.reputation_registries s.feedbacks on_chain of_event
              ids))

  pub handle_response_appended-HasIds :
      (event : Event ResponseAppended) (s : Store)
      → HasIds host s
      → HasIds host (handle_response_appended host event s)
  unfolding handle_response_appended append_response
  handle_response_appended-HasIds event s ids =
      on_known-HasIds event.address event.params.agent_id event.params.client_address
        event.params.feedback_index _ s ids
        (λ r a f on_chain of_event.
          let saved = get_or_create_account-IsSame event.params.responder s in
          let answered = record f { response_count = f.response_count + 1 } in
          rw (saved.0, saved.2)
            (HasIdsIn-save host _ answered s.reputation_registries s.feedbacks on_chain of_event
              ids))
