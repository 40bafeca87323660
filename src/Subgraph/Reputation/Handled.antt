-- ===== src/Subgraph/Reputation/Handled.antt =====
-- The three handlers of packages/subgraph-arc/src/identity/reputation-registry.ts keep the counts.
use bufi.Base.{
  ℕ, ◌+◌, ◌≡◌, refl, sym, ◌∙◌, ap, Bool, true, false, Option, none, some, arith, if◌then◌else◌,
  Option-cases, inl, inr,
}
use bufi.Base.Int.{ℤ, pos, ◌+ℤ◌, ◌-ℤ◌, +ℤ_zero, -ℤ_+ℤ, pos_+ℤ}
use bufi.Base.Texts.{Text}
use bufi.Subgraph.Table.{Bytes, load-key, load-own}
use bufi.Subgraph.Schema.{
  Agent, Engagement, Feedback, ReputationRegistry, UriKind, Timestamp, Store,
}
use bufi.Subgraph.Access.{
  load_agent, load_reputation_registry, load_feedback, save_agent, save_feedback,
}
use bufi.Subgraph.Runtime.{Host, Event, block_time, get_or_create_account}
use bufi.Subgraph.Commerce.Engagements.{resolve_agent_by_wallet}
use bufi.Subgraph.Reputation.{
  NewFeedback, FeedbackRevoked, ResponseAppended, registry_entity_id, agent_entity_id,
  feedback_entity_id, get_or_create_reputation_registry,
}
use bufi.Subgraph.Reputation.Rating.{
  plus_if, is_verified, rated_engagement, new_feedback, save_feedback_and_counts, rate_agent,
  handle_new_feedback,
}
use bufi.Subgraph.Reputation.Revocation.{
  minus_if, when_known, on_known, revoke, append_response, handle_feedback_revoked,
  handle_response_appended, loaded_rater, loaded_engagement,
}
use bufi.Subgraph.Reputation.Counts.{read_of}
use bufi.Subgraph.Reputation.Counted.{
  IsCounted, IsCountedIn-save, save_rated-IsSame, save_unrated-IsSame, get_or_create_account-IsSame,
}

-- What the registry's counts are read as before the handler: those kept, or zeros.
abbrev IsLatest : Option ReputationRegistry → ReputationRegistry → Type 0
IsLatest kept r =
    (read_of (λ r. pos r.feedback_count) kept ≡ pos r.feedback_count)
    × (read_of (λ r. r.active_feedback_count) kept ≡ r.active_feedback_count)
    × (read_of (λ r. pos r.response_count) kept ≡ pos r.response_count)

registry-IsLatest :
    (host : Host) (address : Bytes) (at : Timestamp) (s : Store)
    → IsLatest
        (load_reputation_registry (get_or_create_reputation_registry host address at s).id s)
        (get_or_create_reputation_registry host address at s)
unfolding get_or_create_reputation_registry
registry-IsLatest host address at s =
    let id = registry_entity_id host host.context_chain_id address in
    elim (Option-cases (load_reputation_registry id s)) [
      | inl e ↦ rw (e, get_or_create_reputation_registry, e) (refl, refl, refl)
      | inr e ↦
          rw
            (
              e.1,
              get_or_create_reputation_registry,
              load-key (λ r. r.id) id e.0 s.reputation_registries e.1,
              e.1,
            )
            (refl, refl, refl)
    ]

-- A count that is not touched, or goes up or down with the measure of the rating.
kept_zero : (z : ℤ) → z +ℤ pos 0 ≡ z +ℤ pos 0
kept_zero z = refl

one_more : (n : ℕ) → pos (n + 1) +ℤ pos 0 ≡ pos n +ℤ pos 1
one_more n = +ℤ_zero (pos (n + 1)) ∙ sym (pos_+ℤ n 1)

more : (z : ℤ) → (z +ℤ pos 1) +ℤ pos 0 ≡ z +ℤ pos 1
more z = +ℤ_zero (z +ℤ pos 1)

more_if : (b : Bool) (z : ℤ) → plus_if b z +ℤ pos 0 ≡ z +ℤ pos (if b then 1 else 0)
more_if true z = more z
more_if false z = refl

less : (z : ℤ) → (z -ℤ pos 1) +ℤ pos 1 ≡ z +ℤ pos 0
less z = -ℤ_+ℤ z (pos 1) ∙ sym (+ℤ_zero z)

less_if : (b : Bool) (z : ℤ) → minus_if b z +ℤ pos (if b then 1 else 0) ≡ z +ℤ pos 0
less_if true z = less z
less_if false z = refl

module _ (host : Host) (resolve_feedback_document : Bytes → Text → UriKind → Option Bytes) where
  save_feedback_and_counts-IsCounted :
      (registry : ReputationRegistry) (agent : Agent) (client : Bytes) (rater : Option Agent)
      (engagement : Option Engagement) (event : Event NewFeedback) (s : Store)
      → load_agent agent.id s ≡ some agent
      → IsLatest (load_reputation_registry registry.id s) registry
      → load_feedback
          (new_feedback host resolve_feedback_document registry agent client rater engagement
            event).id
          s
        ≡ none
      → IsCounted s
      → IsCounted (
          save_feedback_and_counts host resolve_feedback_document registry agent
            (new_feedback host resolve_feedback_document registry agent client rater engagement
              event)
            engagement
            event
            s)
  unfolding save_feedback_and_counts
  save_feedback_and_counts-IsCounted registry agent client rater engagement event s known latest
        fresh counted =
      let f =
        new_feedback host resolve_feedback_document registry agent client rater engagement event in
      let at = block_time host event in
      let rated = record agent {
        feedback_count = agent.feedback_count + 1;
        active_feedback_count = agent.active_feedback_count +ℤ pos 1;
        verified_feedback_count = plus_if (is_verified engagement) agent.verified_feedback_count;
        updated_at = at;
        updated_at_block = event.block_number;
        updated_at_transaction = event.transaction_hash;
      } in
      let (feedbacks, agents, registries) =
        save_rated-IsSame engagement (is_verified engagement) at
          (save_agent rated (save_feedback f s)) in
      rw (feedbacks, agents, registries)
        (IsCountedIn-save rated _ f s.agents s.reputation_registries s.feedbacks refl refl
          (rw fresh tt) (rw fresh tt)
          (rw (fresh, known)
            (record {
              ratings = one_more agent.feedback_count;
              active_ratings = more agent.active_feedback_count;
              verified_ratings = more_if (is_verified engagement) agent.verified_feedback_count;
              responses = refl;
            }))
          (rw fresh (record {
            registered = one_more registry.feedback_count ∙ ap (λ z. z +ℤ pos 1) (sym latest.0);
            registered_active =
                more registry.active_feedback_count ∙ ap (λ z. z +ℤ pos 1) (sym latest.1);
            registered_responses = ap (λ z. z +ℤ pos 0) (sym latest.2);
          }))
          counted)

  -- The registry gives every rating of a client for a workspace an index of its own.
  abbrev pub IsNewFeedback : Event NewFeedback → Store → Type 0
  IsNewFeedback event s =
      load_feedback
        (feedback_entity_id host
          (get_or_create_reputation_registry host event.address (block_time host event) s).chain_id
          event.address event.params.agent_id event.params.client_address
          event.params.feedback_index)
        s
      ≡ none

  rate_agent-IsCounted :
      (registry : ReputationRegistry) (id : Bytes) (found : Option Agent)
      (event : Event NewFeedback) (s : Store)
      → load_agent id s ≡ found
      → IsLatest (load_reputation_registry registry.id s) registry
      → load_feedback
          (feedback_entity_id host registry.chain_id event.address event.params.agent_id
            event.params.client_address event.params.feedback_index)
          s
        ≡ none
      → IsCounted s
      → IsCounted (rate_agent host resolve_feedback_document registry found event s)
  unfolding rate_agent
  rate_agent-IsCounted registry id none event s known latest fresh counted = counted
  rate_agent-IsCounted registry id (some agent) event s known latest fresh counted =
      let client = get_or_create_account event.params.client_address s in
      let (feedbacks, agents, registries) =
        get_or_create_account-IsSame event.params.client_address s in
      let rater = resolve_agent_by_wallet event.params.client_address client.1 in
      save_feedback_and_counts-IsCounted registry agent client.0.id rater
        (rated_engagement host rater agent (block_time host event) client.1) event client.1
        (rw agents (load-own (λ a. a.id) id agent s.agents known)) (rw registries latest)
        (rw feedbacks fresh) (rw (feedbacks, agents, registries) counted)

  pub handle_new_feedback-IsCounted :
      (event : Event NewFeedback) (s : Store)
      → IsNewFeedback event s
      → IsCounted s
      → IsCounted (handle_new_feedback host resolve_feedback_document event s)
  unfolding handle_new_feedback
  handle_new_feedback-IsCounted event s fresh counted =
      rate_agent-IsCounted
        (get_or_create_reputation_registry host event.address (block_time host event) s) _ _ event s
        refl (registry-IsLatest host event.address (block_time host event) s) fresh counted

pub when_known-holds :
    {E : Type 0} (P : Store → Type 0) (found : Option E) (next : E → Store) (s : Store)
    → P s
    → ((e : E) → found ≡ some e → P (next e))
    → P (when_known found next s)
when_known-holds P none next s here there = here
when_known-holds P (some e) next s here there = there e refl

module _ (host : Host) where
  -- The rating of an event's index is of the event's workspace and registry.
  abbrev pub IsOwnFeedback : Bytes → ℕ → Bytes → ℕ → Store → Type 0
  IsOwnFeedback address agent_id client feedback_index s =
      (r : ReputationRegistry) (f : Feedback)
      → load_reputation_registry (registry_entity_id host host.context_chain_id address) s ≡ some r
      → load_feedback (feedback_entity_id host r.chain_id address agent_id client feedback_index) s
        ≡ some f
      → (f.registry ≡ r.id)
        × (f.agent ≡ agent_entity_id host r.chain_id host.context_identity_registry agent_id)

  on_known-IsCounted :
      (address : Bytes) (agent_id : ℕ) (client : Bytes) (feedback_index : ℕ)
      (next : ReputationRegistry → Agent → Feedback → Store) (s : Store)
      → IsOwnFeedback address agent_id client feedback_index s
      → IsCounted s
      → ((r : ReputationRegistry) (a : Agent) (f : Feedback)
          → load_reputation_registry r.id s ≡ some r
          → load_agent a.id s ≡ some a
          → load_feedback f.id s ≡ some f
          → f.registry ≡ r.id
          → f.agent ≡ a.id
          → load_reputation_registry (registry_entity_id host host.context_chain_id address) s
            ≡ some r
          → load_feedback
              (feedback_entity_id host r.chain_id address agent_id client feedback_index)
              s
            ≡ some f
          → IsCounted (next r a f))
      → IsCounted (on_known host address agent_id client feedback_index next s)
  unfolding on_known
  on_known-IsCounted address agent_id client feedback_index next s own counted known =
      when_known-holds IsCounted _ _ s counted (λ r found_r.
        when_known-holds IsCounted _ _ s counted (λ a found_a.
          when_known-holds IsCounted _ _ s counted (λ f found_f.
            let (of_registry, of_agent) = own r f found_r found_f in
            let a_key = load-key (λ a. a.id) _ a s.agents found_a in
            known r a f (load-own (λ r. r.id) _ r s.reputation_registries found_r)
              (load-own (λ a. a.id) _ a s.agents found_a)
              (load-own (λ f. f.id) _ f s.feedbacks found_f) of_registry (of_agent ∙ sym a_key)
              found_r found_f)))

  revoke-IsCounted :
      (registry : ReputationRegistry) (agent : Agent) (f : Feedback) (event : Event FeedbackRevoked)
      (s : Store)
      → load_reputation_registry registry.id s ≡ some registry
      → load_agent agent.id s ≡ some agent
      → load_feedback f.id s ≡ some f
      → f.registry ≡ registry.id
      → f.agent ≡ agent.id
      → f.is_revoked ≡ false
      → IsCounted s
      → IsCounted (revoke host registry agent f event s)
  unfolding revoke
  revoke-IsCounted registry agent f event s found_r found_a found_f of_registry of_agent in_force
        counted =
      let at = block_time host event in
      let revoked = record f {
        is_revoked = true;
        revoked_at = some at;
        revoked_at_block = some event.block_number;
        revoked_at_transaction = some event.transaction_hash;
      } in
      let unrated = record agent {
        active_feedback_count = agent.active_feedback_count -ℤ pos 1;
        verified_feedback_count = minus_if f.verified agent.verified_feedback_count;
        updated_at = at;
        updated_at_block = event.block_number;
        updated_at_transaction = event.transaction_hash;
      } in
      let marked = save_feedback revoked s in
      let (feedbacks, agents, registries) =
        save_unrated-IsSame
          (loaded_engagement host (loaded_rater f.client_agent marked) agent marked) f.verified at
          marked in
      rw (feedbacks, agents, registries)
        (IsCountedIn-save unrated _ revoked s.agents s.reputation_registries s.feedbacks
          (sym of_agent) (sym of_registry) (rw found_f refl) (rw found_f refl)
          (rw (found_f, of_agent, found_a, in_force)
            (record {
              ratings = refl;
              active_ratings = less agent.active_feedback_count;
              verified_ratings = less_if f.verified agent.verified_feedback_count;
              responses = refl;
            }))
          (rw (found_f, of_registry, found_r, in_force)
            (record {
              registered = refl;
              registered_active = less registry.active_feedback_count;
              registered_responses = refl;
            }))
          counted)

  append_response-IsCounted :
      (registry : ReputationRegistry) (agent : Agent) (f : Feedback)
      (event : Event ResponseAppended) (s : Store)
      → load_reputation_registry registry.id s ≡ some registry
      → load_agent agent.id s ≡ some agent
      → load_feedback f.id s ≡ some f
      → f.registry ≡ registry.id
      → f.agent ≡ agent.id
      → IsCounted s
      → IsCounted (append_response host registry agent f event s)
  unfolding append_response
  append_response-IsCounted registry agent f event s found_r found_a found_f of_registry of_agent
        counted =
      let at = block_time host event in
      let answered = record f { response_count = f.response_count + 1 } in
      let replied = record agent {
        response_count = agent.response_count + 1;
        updated_at = at;
        updated_at_block = event.block_number;
        updated_at_transaction = event.transaction_hash;
      } in
      let (feedbacks, agents, registries) = get_or_create_account-IsSame event.params.responder s in
      rw (feedbacks, agents, registries)
        (IsCountedIn-save replied _ answered s.agents s.reputation_registries s.feedbacks
          (sym of_agent) (sym of_registry) (rw found_f refl) (rw found_f refl)
          (rw (found_f, of_agent, found_a)
            (record {
              ratings = refl;
              active_ratings = refl;
              verified_ratings = refl;
              responses = answer agent.response_count f.response_count;
            }))
          (rw (found_f, of_registry, found_r)
            (record {
              registered = refl;
              registered_active = refl;
              registered_responses = answer registry.response_count f.response_count;
            }))
          counted)
    where
      answer : (m n : ℕ) → pos (m + 1) +ℤ pos n ≡ pos m +ℤ pos (n + 1)
      answer m n =
          let sum : (m + 1) + n ≡ m + (n + 1) = omega arith in
          pos_+ℤ (m + 1) n ∙ ap pos sum ∙ sym (pos_+ℤ m (n + 1))

  -- A rating is revoked once.
  abbrev pub IsInForce : Event FeedbackRevoked → Store → Type 0
  IsInForce event s =
      (r : ReputationRegistry) (f : Feedback)
      → load_reputation_registry (registry_entity_id host host.context_chain_id event.address) s
        ≡ some r
      → load_feedback
          (feedback_entity_id host r.chain_id event.address event.params.agent_id
            event.params.client_address event.params.feedback_index)
          s
        ≡ some f
      → f.is_revoked ≡ false

  pub handle_feedback_revoked-IsCounted :
      (event : Event FeedbackRevoked) (s : Store)
      → IsOwnFeedback event.address event.params.agent_id event.params.client_address
          event.params.feedback_index s
      → IsInForce event s
      → IsCounted s
      → IsCounted (handle_feedback_revoked host event s)
  unfolding handle_feedback_revoked
  handle_feedback_revoked-IsCounted event s own in_force counted =
      on_known-IsCounted event.address event.params.agent_id event.params.client_address
        event.params.feedback_index _ s own counted
        (λ r a f found_r found_a found_f of_registry of_agent found_by found.
          revoke-IsCounted r a f event s found_r found_a found_f of_registry of_agent
            (in_force r f found_by found) counted)

  pub handle_response_appended-IsCounted :
      (event : Event ResponseAppended) (s : Store)
      → IsOwnFeedback event.address event.params.agent_id event.params.client_address
          event.params.feedback_index s
      → IsCounted s
      → IsCounted (handle_response_appended host event s)
  unfolding handle_response_appended
  handle_response_appended-IsCounted event s own counted =
      on_known-IsCounted event.address event.params.agent_id event.params.client_address
        event.params.feedback_index _ s own counted
        (λ r a f found_r found_a found_f of_registry of_agent found_by found.
          append_response-IsCounted r a f event s found_r found_a found_f of_registry of_agent
            counted)
