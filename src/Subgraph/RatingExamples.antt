-- ===== src/Subgraph/RatingExamples.antt =====
-- The theorems on packages/subgraph-arc/src/identity at one rating, which is given, answered and
-- revoked, of a workspace that has settled a job for the rater.
use bufi.Base.{
  ℕ, ◌+◌, ◌≡◌, refl, Bool, true, false, not, Option, none, some, List, [], ◌∷◌, ◌++◌, map, all,
  arith, Bool-cases, inl, inr,
}
use bufi.Base.Int.{pos}
use bufi.Base.Texts.{Text, text, text_eq}
use bufi.Subgraph.Table.{Bytes, load}
use bufi.Subgraph.Schema.{
  ReputationRegistry, Agent, Engagement, WalletBinding, Feedback, UriKind, Store,
}
use bufi.Subgraph.Access.{load_agent, load_reputation_registry, load_feedback}
use bufi.Subgraph.Runtime.{Host, Event, block_time}
use bufi.Subgraph.Commerce.Engagements.{resolve_agent_by_wallet}
use bufi.Subgraph.Commerce.History.{empty_store}
use bufi.Subgraph.Reputation.{
  NewFeedback, FeedbackRevoked, ResponseAppended, agent_entity_id, feedback_entity_id,
  get_or_create_reputation_registry,
}
use bufi.Subgraph.Reputation.Rating.{handle_new_feedback}
use bufi.Subgraph.Reputation.Counts.{tally, read_of}
use bufi.Subgraph.Reputation.Counted.{one, active, active_verified, agent_of, registry_of}
use bufi.Subgraph.Reputation.Ids.{IsPrinting, has_colon}
use bufi.Subgraph.Reputation.History.{
  RatingCall, dispatch_rating, ReachableRatings, ReachableRatings-counted, IsUnrated,
}
use bufi.Subgraph.Reputation.Handled.{IsNewFeedback, IsInForce}
use bufi.Subgraph.Reputation.Verified.{IsRatedBy, handle_new_feedback-IsRatedBy}

-- Decimal and hexadecimal texts do not matter here, only that they differ where the values do and
-- have no colon.
abbrev shifted : ℕ → ℕ
shifted n = n + 100

abbrev arc : Host
arc = record {
  network = text "arc";
  context_chain_id = 7;
  context_payment_token = 9 ∷ [];
  context_identity_registry = 8 ∷ [];
  to_i64 = λ z. z;
  to_string = λ n. shifted n ∷ [];
  to_hex_string = λ a. map shifted a;
  concat_i32 = λ h i. i ∷ h;
  keccak256 = λ b. b;
  to_big_decimal = λ n. record { digits = pos n; exp = pos 0 };
  div_decimal = λ z d. record { digits = z; exp = pos 0 };
  neg = λ d. d;
  bind = λ address block. record {
    try_get_job = λ n. none;
    try_platform_treasury = none;
    try_platform_fee_bp = none;
    try_evaluator_fee_bp = none;
  };
}

abbrev no_document : Bytes → Text → UriKind → Option Bytes
no_document id uri kind = none

shifted_no_colon : (a : Bytes) → has_colon (map shifted a) ≡ false
shifted_no_colon [] = refl
shifted_no_colon (b ∷ bs) = ground (arith, shifted_no_colon bs)

shifted_apart : (a b : Bytes) → map shifted a ≡ map shifted b → a ≡ b
shifted_apart [] [] h = refl
shifted_apart [] (y ∷ ys) h = cc
shifted_apart (x ∷ xs) [] h = cc
shifted_apart (x ∷ xs) (y ∷ ys) h =
    let head : x + 100 ≡ y + 100 = cc h in
    let same : x ≡ y = omega arith in rw (same, shifted_apart xs ys (cc h)) refl

arc-IsPrinting : IsPrinting arc
arc-IsPrinting = record {
  decimal_no_colon = λ n. ground arith;
  decimal_apart = λ m n h. let same : m + 100 ≡ n + 100 = cc h in omega arith;
  hexadecimal_no_colon = shifted_no_colon;
  hexadecimal_apart = shifted_apart;
}

abbrev at : {P : Type 0} → P → Event P
at params = record {
  address = 1 ∷ [];
  log_index = 0;
  block_number = 5;
  block_timestamp = 1000;
  transaction_hash = 2 ∷ [];
  params = params;
}

abbrev workspace : Bytes → Agent
workspace id = record {
  id = id;
  feedback_count = 0;
  active_feedback_count = pos 0;
  response_count = 0;
  verified_feedback_count = pos 0;
  updated_at = pos 0;
  updated_at_block = 0;
  updated_at_transaction = [];
  jobs_as_client = 0;
  jobs_as_provider = 0;
  settled_as_client = 0;
  settled_as_provider = 0;
  settled_volume_as_client = 0;
  settled_volume_as_provider = 0;
  refunded_volume_as_client = 0;
}

abbrev rated_id : Bytes
rated_id = shifted 7 ∷ text ":" ++ (shifted 8 ∷ text ":" ++ (shifted 3 ∷ []))

abbrev settled_once : Engagement
settled_once = record {
  id = 21 ∷ rated_id;
  client = 21 ∷ [];
  provider = rated_id;
  job_count = 1;
  settled_job_count = 1;
  settled_volume = 10;
  refunded_volume = 0;
  last_settled_job = some (77 ∷ []);
  last_settled_at = some (pos 900);
  feedback_count = pos 0;
  verified_feedback_count = pos 0;
  last_feedback_at = none;
  first_seen_at = pos 800;
  updated_at = pos 900;
}

abbrev binding : WalletBinding
binding = record {
  id = 11 ∷ [];
  account = 11 ∷ [];
  agent = 21 ∷ [];
  bound_at = pos 700;
  bound_at_transaction = [];
}

abbrev two_workspaces : Store
two_workspaces = record empty_store {
  agents = workspace rated_id ∷ workspace (21 ∷ []) ∷ [];
  engagements = settled_once ∷ [];
  wallet_bindings = binding ∷ [];
}

abbrev rating : Event NewFeedback
rating = at (record {
  agent_id = 3;
  client_address = 11 ∷ [];
  feedback_index = 1;
  value = pos 95;
  value_decimals = 0;
  indexed_tag1 = [];
  tag1 = text "quality";
  tag2 = [];
  endpoint = [];
  feedback_uri = [];
  feedback_hash = 0 ∷ [];
})

abbrev answer : Event ResponseAppended
answer = at (record {
  agent_id = 3;
  client_address = 11 ∷ [];
  feedback_index = 1;
  responder = 12 ∷ [];
  response_uri = [];
  response_hash = 0 ∷ [];
})

abbrev revocation : Event FeedbackRevoked
revocation = at (record { agent_id = 3; client_address = 11 ∷ []; feedback_index = 1 })

two_workspaces-IsUnrated : IsUnrated empty_store two_workspaces
unfolding load
two_workspaces-IsUnrated = (
  refl,
  refl,
  λ id. elim (Bool-cases (text_eq rated_id id)) [
    | inl e ↦ rw e (refl, refl, refl, refl)
    | inr e ↦ elim (Bool-cases (text_eq (21 ∷ []) id)) [
      | inl e' ↦ rw (e, e') (refl, refl, refl, refl)
      | inr e' ↦ rw (e, e') (refl, refl, refl, refl)
    ]
  ],
)

load-all :
    (p : Feedback → Bool) (id : Bytes) (fs : List Feedback) (f : Feedback)
    → all p fs ≡ true
    → load (λ f. f.id) id fs ≡ some f
    → p f ≡ true
unfolding load
load-all p id [] f h found = cc
load-all p id (g ∷ fs) f h found = elim (Bool-cases (text_eq g.id id)) [
  | inl e ↦
      let here : some g ≡ some f = rw e at found in
      let same : g ≡ f = cc here in rw (← same) (ground arith)
  | inr e ↦ load-all p id fs f (ground arith) (rw e at found)
]

abbrev rated : Store
rated = dispatch_rating arc no_document (RatingCall.on_new_feedback rating) two_workspaces

abbrev answered : Store
answered = dispatch_rating arc no_document (RatingCall.on_response_appended answer) rated

abbrev revoked : Store
revoked = dispatch_rating arc no_document (RatingCall.on_feedback_revoked revocation) answered

first_rating : IsNewFeedback arc no_document rating two_workspaces
unfolding load
first_rating = refl

answered-in_force : all (λ f. not f.is_revoked) answered.feedbacks ≡ true
unfolding dispatch_rating bufi.Subgraph.Reputation.Revocation.handle_response_appended
    bufi.Subgraph.Reputation.Revocation.on_known load handle_new_feedback
    bufi.Subgraph.Reputation.Rating.rate_agent agent_entity_id get_or_create_reputation_registry
    bufi.Subgraph.Reputation.Rating.save_feedback_and_counts bufi.Subgraph.Table.save
    bufi.Subgraph.Reputation.Rating.save_rated resolve_agent_by_wallet
    bufi.Subgraph.Runtime.get_or_create_account bufi.Subgraph.Reputation.registry_entity_id
    feedback_entity_id bufi.Subgraph.Reputation.Revocation.append_response
answered-in_force = refl

rated-kept : tally agent_of active_verified rated_id rated.feedbacks ≡ 1
unfolding tally bufi.Subgraph.Table.total dispatch_rating handle_new_feedback
    bufi.Subgraph.Reputation.Rating.rate_agent load agent_entity_id
    get_or_create_reputation_registry bufi.Subgraph.Reputation.Rating.save_feedback_and_counts
    bufi.Subgraph.Reputation.Rating.save_rated resolve_agent_by_wallet
    bufi.Subgraph.Runtime.get_or_create_account bufi.Subgraph.Table.save
    bufi.Subgraph.Commerce.Engagements.get_or_create_engagement
    bufi.Subgraph.Commerce.Engagements.engagement_id
rated-kept = refl

revoked-kept : tally agent_of active_verified rated_id revoked.feedbacks ≡ 0
unfolding dispatch_rating bufi.Subgraph.Reputation.Revocation.handle_response_appended
    bufi.Subgraph.Reputation.Revocation.on_known load handle_new_feedback
    bufi.Subgraph.Reputation.Rating.rate_agent agent_entity_id get_or_create_reputation_registry
    bufi.Subgraph.Reputation.Rating.save_feedback_and_counts bufi.Subgraph.Table.save
    bufi.Subgraph.Reputation.Rating.save_rated resolve_agent_by_wallet
    bufi.Subgraph.Runtime.get_or_create_account bufi.Subgraph.Reputation.registry_entity_id
    feedback_entity_id bufi.Subgraph.Reputation.Revocation.append_response tally
    bufi.Subgraph.Table.total bufi.Subgraph.Reputation.Revocation.handle_feedback_revoked
    bufi.Subgraph.Reputation.Revocation.revoke bufi.Subgraph.Reputation.Revocation.save_unrated
    bufi.Subgraph.Commerce.Engagements.get_or_create_engagement
    bufi.Subgraph.Commerce.Engagements.engagement_id
revoked-kept = refl

two_workspaces-Reachable : ReachableRatings arc no_document two_workspaces
two_workspaces-Reachable =
    ReachableRatings.rating_elsewhere ReachableRatings.rating_start two_workspaces-IsUnrated

rated-Reachable : ReachableRatings arc no_document rated
rated-Reachable =
    ReachableRatings.rating_handled {s = two_workspaces} (RatingCall.on_new_feedback rating)
      two_workspaces-Reachable first_rating

answered-Reachable : ReachableRatings arc no_document answered
answered-Reachable =
    ReachableRatings.rating_handled {s = rated} (RatingCall.on_response_appended answer)
      rated-Reachable tt

not_revoked : (f : Feedback) → not f.is_revoked ≡ true → f.is_revoked ≡ false
not_revoked f h = ground arith

answered-IsInForce : IsInForce arc revocation answered
answered-IsInForce r f registered found = not_revoked f (
    load-all (λ f. not f.is_revoked) (feedback_entity_id arc r.chain_id (1 ∷ []) 3 (11 ∷ []) 1)
      answered.feedbacks f answered-in_force found)

revoked-Reachable : ReachableRatings arc no_document revoked
revoked-Reachable =
    ReachableRatings.rating_handled {s = answered} (RatingCall.on_feedback_revoked revocation)
      answered-Reachable answered-IsInForce

ReachableRatings-counted_example :
    ((read_of (λ a. pos a.feedback_count) (load_agent rated_id revoked)
        ≡ pos (tally agent_of one rated_id revoked.feedbacks))
      × (read_of (λ a. a.active_feedback_count) (load_agent rated_id revoked)
          ≡ pos (tally agent_of active rated_id revoked.feedbacks))
      × (read_of (λ a. a.verified_feedback_count) (load_agent rated_id revoked)
          ≡ pos (tally agent_of active_verified rated_id revoked.feedbacks))
      × (read_of (λ a. pos a.response_count) (load_agent rated_id revoked)
          ≡ pos (tally agent_of (λ f. f.response_count) rated_id revoked.feedbacks)))
    × ((read_of (λ r. pos r.feedback_count) (load_reputation_registry rated_id revoked)
          ≡ pos (tally registry_of one rated_id revoked.feedbacks))
        × (read_of (λ r. r.active_feedback_count) (load_reputation_registry rated_id revoked)
            ≡ pos (tally registry_of active rated_id revoked.feedbacks))
        × (read_of (λ r. pos r.response_count) (load_reputation_registry rated_id revoked)
            ≡ pos (tally registry_of (λ f. f.response_count) rated_id revoked.feedbacks)))
ReachableRatings-counted_example =
    ReachableRatings-counted arc no_document revoked rated_id arc-IsPrinting revoked-Reachable

abbrev opened : ReputationRegistry
opened = record {
  id = shifted 7 ∷ text ":" ++ (shifted 1 ∷ []);
  network = text "arc";
  chain_id = 7;
  identity_registry = shifted 7 ∷ text ":" ++ (shifted 8 ∷ []);
  feedback_count = 0;
  active_feedback_count = pos 0;
  response_count = 0;
  created_at = pos 1000;
  updated_at = pos 1000;
}

opened-registry :
    get_or_create_reputation_registry arc (1 ∷ []) (block_time arc rating) two_workspaces ≡ opened
unfolding get_or_create_reputation_registry load bufi.Subgraph.Reputation.registry_entity_id
    block_time
opened-registry = refl

rated_known :
    load_agent (agent_entity_id arc 7 arc.context_identity_registry 3) two_workspaces
    ≡ some (workspace rated_id)
unfolding load agent_entity_id
rated_known = refl

handle_new_feedback-IsRatedBy_example :
    (f : Feedback) × ((load_feedback
          (feedback_entity_id arc 7 (1 ∷ []) 3 (11 ∷ []) 1)
          (handle_new_feedback arc no_document rating two_workspaces)
        ≡ some f)
      × (f.agent ≡ rated_id)
      × IsRatedBy arc
          (resolve_agent_by_wallet (11 ∷ []) two_workspaces)
          (workspace rated_id)
          two_workspaces
          f)
handle_new_feedback-IsRatedBy_example =
    handle_new_feedback-IsRatedBy arc no_document rating two_workspaces opened (workspace rated_id)
      opened-registry rated_known
