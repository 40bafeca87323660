-- ===== src/Subgraph/Reputation/History.antt =====
-- Histories of the reputation registry's events in packages/subgraph-arc/src/identity, with the
-- handlers of the other sources between them, from the empty store, and the counts after it.
use bufi.Base.{◌≡◌, refl, ◌∙◌, Option, List}
use bufi.Base.Int.{pos}
use bufi.Base.Texts.{Text}
use bufi.Subgraph.Table.{Bytes, load, total}
use bufi.Subgraph.Schema.{Agent, UriKind, Store}
use bufi.Subgraph.Access.{load_agent, load_reputation_registry}
use bufi.Subgraph.Runtime.{Host, Event}
use bufi.Subgraph.Commerce.History.{empty_store}
use bufi.Subgraph.Reputation.{NewFeedback, FeedbackRevoked, ResponseAppended}
use bufi.Subgraph.Reputation.Rating.{handle_new_feedback}
use bufi.Subgraph.Reputation.Revocation.{handle_feedback_revoked, handle_response_appended}
use bufi.Subgraph.Reputation.Counts.{tally, read_of}
use bufi.Subgraph.Reputation.Counted.{
  one, active, active_verified, agent_of, registry_of, IsCounted,
}
use bufi.Subgraph.Reputation.Ids.{IsPrinting, HasIds}
use bufi.Subgraph.Reputation.Handled.{
  IsNewFeedback, IsInForce, handle_new_feedback-IsCounted, handle_feedback_revoked-IsCounted,
  handle_response_appended-IsCounted,
}
use bufi.Subgraph.Reputation.Kept.{
  HasIds-own, handle_new_feedback-HasIds, handle_feedback_revoked-HasIds,
  handle_response_appended-HasIds,
}

-- An event of the reputation registry's data source, by its handler.
pub data RatingCall : Type 0 where
  on_new_feedback : Event NewFeedback → RatingCall
  on_feedback_revoked : Event FeedbackRevoked → RatingCall
  on_response_appended : Event ResponseAppended → RatingCall

-- A workspace's counts of ratings, as the tables of two stores have them.
abbrev pub HasSameCounts : List Agent → List Agent → Type 0
HasSameCounts as' bs =
    (id : Bytes)
    → (read_of (λ a. pos a.feedback_count) (load (λ a. a.id) id bs)
        ≡ read_of (λ a. pos a.feedback_count) (load (λ a. a.id) id as'))
      × (read_of (λ a. a.active_feedback_count) (load (λ a. a.id) id bs)
          ≡ read_of (λ a. a.active_feedback_count) (load (λ a. a.id) id as'))
      × (read_of (λ a. a.verified_feedback_count) (load (λ a. a.id) id bs)
          ≡ read_of (λ a. a.verified_feedback_count) (load (λ a. a.id) id as'))
      × (read_of (λ a. pos a.response_count) (load (λ a. a.id) id bs)
          ≡ read_of (λ a. pos a.response_count) (load (λ a. a.id) id as'))

-- What the other handlers leave alone.
abbrev pub IsUnrated : Store → Store → Type 0
IsUnrated s t =
    (t.feedbacks ≡ s.feedbacks)
    × (t.reputation_registries ≡ s.reputation_registries)
    × HasSameCounts s.agents t.agents

module _ (host : Host) (resolve_feedback_document : Bytes → Text → UriKind → Option Bytes) where
  unfoldable pub dispatch_rating : RatingCall → Store → Store
  dispatch_rating (on_new_feedback event) s =
      handle_new_feedback host resolve_feedback_document event s
  dispatch_rating (on_feedback_revoked event) s = handle_feedback_revoked host event s
  dispatch_rating (on_response_appended event) s = handle_response_appended host event s

  -- The registry gives every rating an index of its own, and revokes it once.
  abbrev pub IsAllowedRating : RatingCall → Store → Type 0
  IsAllowedRating (on_new_feedback event) s = IsNewFeedback host resolve_feedback_document event s
  IsAllowedRating (on_feedback_revoked event) s = IsInForce host event s
  IsAllowedRating (on_response_appended event) s = Unit

  pub data ReachableRatings : Store → Type 0 where
    rating_start : ReachableRatings empty_store
    rating_handled :
        {s : Store} (call : RatingCall)
        → ReachableRatings s
        → IsAllowedRating call s
        → ReachableRatings (dispatch_rating call s)
    rating_elsewhere : {s t : Store} → ReachableRatings s → IsUnrated s t → ReachableRatings t

  start-IsCounted : IsCounted empty_store
  unfolding tally total load
  start-IsCounted = record {
    ratings = λ id. refl;
    active_ratings = λ id. refl;
    verified_ratings = λ id. refl;
    responses = λ id. refl;
    registered = λ id. refl;
    registered_active = λ id. refl;
    registered_responses = λ id. refl;
  }

  start-HasIds : HasIds host empty_store
  unfolding load
  start-HasIds = (λ id r h. cc, λ id f h. cc)

  IsUnrated-IsCounted : (s t : Store) → IsUnrated s t → IsCounted s → IsCounted t
  IsUnrated-IsCounted s t (feedbacks, registries, counts) counted =
      rw (feedbacks, registries)
        (record {
          ratings = λ id. (counts id).0 ∙ counted.ratings id;
          active_ratings = λ id. (counts id).1 ∙ counted.active_ratings id;
          verified_ratings = λ id. (counts id).2 ∙ counted.verified_ratings id;
          responses = λ id. (counts id).3 ∙ counted.responses id;
          registered = counted.registered;
          registered_active = counted.registered_active;
          registered_responses = counted.registered_responses;
        })

  IsUnrated-HasIds : (s t : Store) → IsUnrated s t → HasIds host s → HasIds host t
  IsUnrated-HasIds s t (feedbacks, registries, counts) ids = rw (feedbacks, registries) ids

  dispatch_rating-HasIds :
      (call : RatingCall) (s : Store) → HasIds host s → HasIds host (dispatch_rating call s)
  unfolding dispatch_rating
  dispatch_rating-HasIds (on_new_feedback event) s ids =
      handle_new_feedback-HasIds host resolve_feedback_document event s ids
  dispatch_rating-HasIds (on_feedback_revoked event) s ids =
      handle_feedback_revoked-HasIds host event s ids
  dispatch_rating-HasIds (on_response_appended event) s ids =
      handle_response_appended-HasIds host event s ids

  dispatch_rating-IsCounted :
      (call : RatingCall) (s : Store)
      → IsPrinting host
      → HasIds host s
      → IsAllowedRating call s
      → IsCounted s
      → IsCounted (dispatch_rating call s)
  unfolding dispatch_rating
  dispatch_rating-IsCounted (on_new_feedback event) s printing ids allowed counted =
      handle_new_feedback-IsCounted host resolve_feedback_document event s allowed counted
  dispatch_rating-IsCounted (on_feedback_revoked event) s printing ids allowed counted =
      handle_feedback_revoked-IsCounted host event s
        (HasIds-own host event.address event.params.agent_id event.params.client_address
          event.params.feedback_index s printing ids)
        allowed counted
  dispatch_rating-IsCounted (on_response_appended event) s printing ids allowed counted =
      handle_response_appended-IsCounted host event s
        (HasIds-own host event.address event.params.agent_id event.params.client_address
          event.params.feedback_index s printing ids)
        counted

  ReachableRatings-IsCounted :
      (s : Store) → IsPrinting host → ReachableRatings s → IsCounted s × HasIds host s
  ReachableRatings-IsCounted s printing rating_start = (start-IsCounted, start-HasIds)
  ReachableRatings-IsCounted s printing (rating_handled {s = before} call reach allowed) =
      let (counted, ids) = ReachableRatings-IsCounted before printing reach in
      (
        dispatch_rating-IsCounted call before printing ids allowed counted,
        dispatch_rating-HasIds call before ids,
      )
  ReachableRatings-IsCounted s printing (rating_elsewhere {s = before} reach same) =
      let (counted, ids) = ReachableRatings-IsCounted before printing reach in
      (IsUnrated-IsCounted before s same counted, IsUnrated-HasIds before s same ids)

  -- After any history of the reputation registry's events, each rating under an index of its own and
  -- revoked once at most, with other data sources' handlers that leave ratings and their counts alone
  -- in between, a workspace's feedbackCount is the number of its ratings, its activeFeedbackCount that
  -- of those not revoked, its verifiedFeedbackCount that of the verified ones among them, and its
  -- responseCount the sum of their responses; a registry's feedbackCount, activeFeedbackCount and
  -- responseCount are these numbers for its ratings; what is not kept has none. Decimal and
  -- hexadecimal texts are taken to have no colon and to differ where the values do.
  pub ReachableRatings-counted :
      (s : Store) (id : Bytes)
      → IsPrinting host
      → ReachableRatings s
      → ((read_of (λ a. pos a.feedback_count) (load_agent id s)
            ≡ pos (tally agent_of one id s.feedbacks))
          × (read_of (λ a. a.active_feedback_count) (load_agent id s)
              ≡ pos (tally agent_of active id s.feedbacks))
          × (read_of (λ a. a.verified_feedback_count) (load_agent id s)
              ≡ pos (tally agent_of active_verified id s.feedbacks))
          × (read_of (λ a. pos a.response_count) (load_agent id s)
              ≡ pos (tally agent_of (λ f. f.response_count) id s.feedbacks)))
        × ((read_of (λ r. pos r.feedback_count) (load_reputation_registry id s)
              ≡ pos (tally registry_of one id s.feedbacks))
            × (read_of (λ r. r.active_feedback_count) (load_reputation_registry id s)
                ≡ pos (tally registry_of active id s.feedbacks))
            × (read_of (λ r. pos r.response_count) (load_reputation_registry id s)
                ≡ pos (tally registry_of (λ f. f.response_count) id s.feedbacks)))
  ReachableRatings-counted s id printing reach =
      let counted = (ReachableRatings-IsCounted s printing reach).0 in
      (
        (
          counted.ratings id,
          counted.active_ratings id,
          counted.verified_ratings id,
          counted.responses id,
        ),
        (counted.registered id, counted.registered_active id, counted.registered_responses id),
      )
