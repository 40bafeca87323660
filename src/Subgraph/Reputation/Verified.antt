-- ===== src/Subgraph/Reputation/Verified.antt =====
-- Which ratings `handleNewFeedback` of packages/subgraph-arc/src/identity/reputation-registry.ts keeps
-- as verified.
use bufi.Base.{
  ◌+◌, ◌≡◌, ◌≤◌, refl, true, false, Option, none, some, arith, ltb, ◌⊎◌, Option-cases, Bool-cases,
  inl, inr,
}
use bufi.Base.Int.{pos, ◌+ℤ◌}
use bufi.Base.Texts.{Text}
use bufi.Subgraph.Table.{Bytes, load-save}
use bufi.Subgraph.Schema.{
  Agent, Engagement, Feedback, ReputationRegistry, UriKind, Timestamp, Store,
}
use bufi.Subgraph.Access.{
  load_agent, load_feedback, load_account, load_engagement, save_agent, save_feedback,
}
use bufi.Subgraph.Runtime.{Host, Event, block_time, get_or_create_account}
use bufi.Subgraph.Commerce.Engagements.{
  resolve_agent_by_wallet, engagement_id, get_or_create_engagement,
}
use bufi.Subgraph.Reputation.{
  NewFeedback, agent_entity_id, feedback_entity_id, get_or_create_reputation_registry,
}
use bufi.Subgraph.Reputation.Rating.{
  plus_if, is_verified, rated_engagement, new_feedback, save_feedback_and_counts, rate_agent,
  handle_new_feedback,
}
use bufi.Subgraph.Reputation.Counted.{save_rated-IsSame}

-- A rating is verified by work that was settled before it, and shows the last such job.
abbrev pub IsRatedBy : Host → Option Agent → Agent → Store → Feedback → Type 0
IsRatedBy host rater agent s f =
    ((r : Agent) × (e : Engagement) × ((rater ≡ some r)
        × (load_engagement (engagement_id host r agent) s ≡ some e)
        × (1 ≤ e.settled_job_count)
        × (f.verified ≡ true)
        × (f.evidence ≡ e.last_settled_job)))
    ⊎ ((f.verified ≡ false)
        × (f.evidence ≡ none)
        × ((r : Agent) (e : Engagement)
            → rater ≡ some r
            → load_engagement (engagement_id host r agent) s ≡ some e
            → e.settled_job_count ≡ 0))

get_or_create_account-links :
    (a : Bytes) (s : Store)
    → ((get_or_create_account a s).1.engagements ≡ s.engagements)
      × ((get_or_create_account a s).1.wallet_bindings ≡ s.wallet_bindings)
      × ((get_or_create_account a s).1.agents ≡ s.agents)
unfolding get_or_create_account
get_or_create_account-links a s = elim (Option-cases (load_account a s)) [
  | inl e ↦ rw (e, get_or_create_account) (refl, refl, refl)
  | inr e ↦ rw (e.1, get_or_create_account) (refl, refl, refl)
]

module _ (host : Host) (resolve_feedback_document : Bytes → Text → UriKind → Option Bytes) where
  new_feedback-IsRatedBy :
      (registry : ReputationRegistry) (agent : Agent) (client : Bytes) (rater : Option Agent)
      (at : Timestamp) (event : Event NewFeedback) (s : Store)
      → IsRatedBy host rater agent s (
          new_feedback host resolve_feedback_document registry agent client rater
            (rated_engagement host rater agent at s)
            event)
  unfolding get_or_create_engagement
  new_feedback-IsRatedBy registry agent client none at event s =
      inr (refl, refl, λ r e found loaded. cc)
  new_feedback-IsRatedBy registry agent client (some rater) at event s =
      elim (Option-cases (load_engagement (engagement_id host rater agent) s)) [
        | inl e ↦ inr (
          rw (get_or_create_engagement, e) refl,
          rw (get_or_create_engagement, e) refl,
          λ r e' found loaded.
              let same : rater ≡ r = cc found in
              let here : load_engagement (engagement_id host rater agent) s ≡ some e' =
                rw same loaded in
              cc (e, here),
        )
        | inr e ↦ elim (Bool-cases (ltb 0 e.0.settled_job_count)) [
          | inl settled ↦ inl (
            rater,
            e.0,
            (
              refl,
              e.1,
              ground arith,
              rw (get_or_create_engagement, e.1) settled,
              rw (get_or_create_engagement, e.1, settled) refl,
            ),
          )
          | inr unsettled ↦ inr (
            rw (get_or_create_engagement, e.1) unsettled,
            rw (get_or_create_engagement, e.1, unsettled) refl,
            λ r e' found loaded.
                let same : rater ≡ r = cc found in
                let here : load_engagement (engagement_id host rater agent) s ≡ some e' =
                  rw same loaded in
                let this : e.0 ≡ e' = cc (e.1, here) in rw (← this) (ground arith),
          )
        ]
      ]

  IsRatedBy-links :
      (rater : Option Agent) (agent : Agent) (s t : Store) (f : Feedback)
      → t.engagements ≡ s.engagements
      → IsRatedBy host rater agent t f
      → IsRatedBy host rater agent s f
  IsRatedBy-links rater agent s t f same rated = rw (← same) rated

  -- A rating of a workspace that is known is kept, under the workspace behind the rater's wallet. It
  -- is verified exactly when this workspace is the client of an engagement with the rated one in which
  -- a job was settled before, and then it shows the last job settled there.
  pub handle_new_feedback-IsRatedBy :
      (event : Event NewFeedback) (s : Store) (registry : ReputationRegistry) (agent : Agent)
      → get_or_create_reputation_registry host event.address (block_time host event) s ≡ registry
      → load_agent
          (agent_entity_id host registry.chain_id host.context_identity_registry
            event.params.agent_id)
          s
        ≡ some agent
      → (f : Feedback) × ((load_feedback
              (feedback_entity_id host registry.chain_id event.address event.params.agent_id
                event.params.client_address event.params.feedback_index)
              (handle_new_feedback host resolve_feedback_document event s)
            ≡ some f)
          × (f.agent ≡ agent.id)
          × IsRatedBy host (resolve_agent_by_wallet event.params.client_address s) agent s f)
  unfolding handle_new_feedback rate_agent save_feedback_and_counts resolve_agent_by_wallet
  handle_new_feedback-IsRatedBy event s registry agent opened known =
      let p = event.params in
      let client = get_or_create_account p.client_address s in
      let (engagements, bindings, agents) = get_or_create_account-links p.client_address s in
      let at = block_time host event in
      let rater = resolve_agent_by_wallet p.client_address client.1 in
      let engagement = rated_engagement host rater agent at client.1 in
      let f =
        new_feedback host resolve_feedback_document registry agent client.0.id rater engagement
          event in
      let rated = record agent {
        feedback_count = agent.feedback_count + 1;
        active_feedback_count = agent.active_feedback_count +ℤ pos 1;
        verified_feedback_count = plus_if (is_verified engagement) agent.verified_feedback_count;
        updated_at = at;
        updated_at_block = event.block_number;
        updated_at_transaction = event.transaction_hash;
      } in
      let saved =
        save_rated-IsSame engagement (is_verified engagement) at
          (save_agent rated (save_feedback f client.1)) in
      let same_rater : resolve_agent_by_wallet p.client_address s ≡ rater =
        rw (bindings, agents) refl in
      (
        f,
        (
          rw (opened, known, saved.0) (load-save (λ f. f.id) f client.1.feedbacks),
          refl,
          rw same_rater (
              IsRatedBy-links rater agent s client.1 f engagements
                (new_feedback-IsRatedBy registry agent client.0.id rater at event client.1)),
        ),
      )
