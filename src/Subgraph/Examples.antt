-- ===== src/Subgraph/Examples.antt =====
-- The theorems on packages/subgraph-arc/src at one job, of one escrow, that is made, completed and
-- paid.
use bufi.Base.{ℕ, ◌≡◌, ◌≤◌, refl, ◌&&◌, not, ◌==◌, if◌then◌else◌, true, false, none, some, [], ◌∷◌}
use bufi.Base.Int.{pos}
use bufi.Base.Texts.{text, text_eq}
use bufi.Subgraph.Table.{Bytes, load, save}
use bufi.Subgraph.Schema.{Job, Agent, Store}
use bufi.Subgraph.Access.{load_job, load_agent, load_wallet_binding}
use bufi.Subgraph.Runtime.{Host, Event, get_or_create_account}
use bufi.Subgraph.Timestamps.{to_timestamp_seconds-clamped, clamped}
use bufi.Subgraph.Runtime.{to_timestamp_seconds, block_time}
use bufi.Subgraph.Commerce.{
  get_or_create_agentic_commerce, read_treasury, new_agentic_commerce, agentic_commerce_entity_id,
}
use bufi.Subgraph.Commerce.Params.{JobCompleted}
use bufi.Subgraph.Commerce.Events.{job_entity_id, event_job, touch_job, create_job_event}
use bufi.Subgraph.Commerce.Settlement.{
  mark_settled_if_paid, is_not_due, is_completed, settle_commerce, settle_provider, settle_client,
  settle_engagement,
}
use bufi.Subgraph.Commerce.Engagements.{
  bind_wallet, unbind_wallet, resolve_agent_by_wallet, open_engagement, link_workspaces,
  party_agent, provider_party,
}
use bufi.Subgraph.Commerce.Ledger.{booked, tally, one, settled_one, settled_payment}
use bufi.Subgraph.Commerce.Jobs.{
  handle_job_created, handle_job_completed, new_job, optional_account,
}
use bufi.Subgraph.Commerce.Payments.{handle_payment_released}
use bufi.Subgraph.Commerce.History.{
  Call, dispatch, empty_store, Reachable, Reachable-booked, IsAllowed,
}
use bufi.Subgraph.Commerce.Settled.{Reachable-settled}
use bufi.Subgraph.Commerce.Links.{
  bind_wallet-resolve, unbind_wallet-resolve, open_engagement-counts,
  mark_settled_if_paid-idempotent, is_bound_to,
}

-- Decimal and hexadecimal texts do not matter here, only that they differ where the values do.
abbrev arc : Host
arc = record {
  network = text "arc";
  context_chain_id = 7;
  context_payment_token = 9 ∷ [];
  context_identity_registry = 8 ∷ [];
  to_i64 = λ z. z;
  to_string = λ n. n ∷ [];
  to_hex_string = λ a. a;
  concat_i32 = λ h i. i ∷ h;
  keccak256 = λ b. b;
  to_big_decimal = λ n. record { digits = pos n; exp = pos 0 };
  div_decimal = λ z d. record { digits = z; exp = pos 0 };
  neg = λ d. d;
  bind = λ address block. record {
    try_get_job = λ n. none;
    try_platform_treasury = none;
    try_platform_fee_bp = some 100;
    try_evaluator_fee_bp = none;
  };
}

abbrev at : {P : Type 0} → ℕ → P → Event P
at n params = record {
  address = 1 ∷ [];
  log_index = n;
  block_number = 5;
  block_timestamp = 1000;
  transaction_hash = 2 ∷ [];
  params = params;
}

abbrev first_call : Call
first_call = Call.on_created (
    at 0 (record {
      job_id = 1;
      client = 11 ∷ [];
      provider = 12 ∷ [];
      evaluator = 13 ∷ [];
      expired_at = 18446744073709551615;
      hook = 14 ∷ [];
    }))

abbrev second_call : Call
second_call = Call.on_completed (at 1 (record { job_id = 1; evaluator = 13 ∷ []; reason = 3 ∷ [] }))

abbrev third_call : Call
third_call =
    Call.on_payment_released (at 2 (record { job_id = 1; provider = 12 ∷ []; amount = 40 }))

abbrev history : Store
history = dispatch arc third_call (dispatch arc second_call (dispatch arc first_call empty_store))

first_call-IsAllowed : IsAllowed arc first_call empty_store
unfolding load
first_call-IsAllowed = refl

history-Reachable : Reachable arc history
history-Reachable =
    Reachable.handled third_call
      (Reachable.handled second_call
        (Reachable.handled first_call Reachable.start first_call-IsAllowed) tt)
      tt

Reachable-booked_example :
    (booked (λ c. c.job_count) (7 ∷ 58 ∷ 1 ∷ []) history.agentic_commerces
      ≡ tally one (7 ∷ 58 ∷ 1 ∷ []) history.jobs)
    × (booked (λ c. c.settled_job_count) (7 ∷ 58 ∷ 1 ∷ []) history.agentic_commerces
        ≡ tally settled_one (7 ∷ 58 ∷ 1 ∷ []) history.jobs)
    × (booked (λ c. c.refunded_volume) (7 ∷ 58 ∷ 1 ∷ []) history.agentic_commerces
        ≡ tally (λ j. j.refunded_amount) (7 ∷ 58 ∷ 1 ∷ []) history.jobs)
    × (booked (λ c. c.settled_volume) (7 ∷ 58 ∷ 1 ∷ []) history.agentic_commerces
        ≤ tally settled_payment (7 ∷ 58 ∷ 1 ∷ []) history.jobs)
Reachable-booked_example = Reachable-booked arc history (7 ∷ 58 ∷ 1 ∷ []) history-Reachable

-- The 40 that the job was paid is what its escrow has settled.
settled_volume_test :
    booked (λ c. c.settled_volume) (7 ∷ 58 ∷ 1 ∷ []) history.agentic_commerces ≡ 40
unfolding booked load save dispatch handle_payment_released event_job handle_job_completed
    handle_job_created link_workspaces new_job party_agent provider_party resolve_agent_by_wallet
    optional_account get_or_create_account get_or_create_agentic_commerce read_treasury
    job_entity_id new_agentic_commerce create_job_event touch_job is_not_due mark_settled_if_paid
    settle_commerce settle_provider settle_client settle_engagement agentic_commerce_entity_id
    block_time to_timestamp_seconds
settled_volume_test = refl

abbrev job_key : Bytes
job_key = 7 ∷ 58 ∷ 1 ∷ 58 ∷ 1 ∷ []

found : (job : Job) × (load_job job_key history ≡ some job) × (job.settled ≡ true)
unfolding booked load save dispatch handle_payment_released event_job handle_job_completed
    handle_job_created link_workspaces new_job party_agent provider_party resolve_agent_by_wallet
    optional_account get_or_create_account get_or_create_agentic_commerce read_treasury
    job_entity_id new_agentic_commerce create_job_event touch_job is_not_due mark_settled_if_paid
    settle_commerce settle_provider settle_client settle_engagement agentic_commerce_entity_id
    block_time to_timestamp_seconds
found = (_, refl, refl)

Reachable-settled_example :
    ((found.0.settled && found.0.provider_payment == 0) ≡ false)
    × ((is_completed found.0.status && not (found.0.provider_payment == 0) && not found.0.settled)
        ≡ false)
Reachable-settled_example = Reachable-settled arc history job_key found.0 history-Reachable found.1

to_timestamp_seconds-clamped_example :
    to_timestamp_seconds arc (pos 18446744073709551615) ≡ clamped (pos 18446744073709551615)
to_timestamp_seconds-clamped_example =
    to_timestamp_seconds-clamped arc (pos 18446744073709551615) (λ n small. refl)

abbrev workspace : ℕ → Agent
workspace n = record {
  id = n ∷ [];
  feedback_count = 0;
  active_feedback_count = pos 0;
  response_count = 0;
  verified_feedback_count = pos 0;
  updated_at = pos 0;
  updated_at_block = 0;
  updated_at_transaction = [];
  jobs_as_client = 0;
  jobs_as_provider = 0;
  settled_as_client = 0;
  settled_as_provider = 0;
  settled_volume_as_client = 0;
  settled_volume_as_provider = 0;
  refunded_volume_as_client = 0;
}

abbrev completion : Event JobCompleted
completion = at 1 (record { job_id = 1; evaluator = 13 ∷ []; reason = 3 ∷ [] })

bind_wallet-resolve_example :
    resolve_agent_by_wallet (11 ∷ []) (bind_wallet arc (workspace 21) (11 ∷ []) completion history)
    ≡ (if text_eq (11 ∷ []) (11 ∷ [])
        then load_agent (21 ∷ []) history
        else resolve_agent_by_wallet (11 ∷ []) history)
bind_wallet-resolve_example =
    bind_wallet-resolve arc (workspace 21) (11 ∷ []) (11 ∷ []) completion history

unbind_wallet-resolve_example :
    resolve_agent_by_wallet (11 ∷ []) (unbind_wallet (workspace 21) (some (11 ∷ [])) history) ≡ (
      if text_eq (11 ∷ []) (11 ∷ [])
        && is_bound_to (workspace 21) (load_wallet_binding (11 ∷ []) history)
      then none
      else resolve_agent_by_wallet (11 ∷ []) history)
unbind_wallet-resolve_example = unbind_wallet-resolve (workspace 21) (11 ∷ []) (11 ∷ []) history

open_engagement-counts_example :
    (load_agent
        (22 ∷ [])
        (open_engagement arc found.0 (workspace 21) (workspace 22) completion history).1
      ≡ some (record (workspace 22) { jobs_as_provider = 1 }))
    × (load_agent
          (21 ∷ [])
          (open_engagement arc found.0 (workspace 21) (workspace 22) completion history).1
        ≡ some (record (workspace 21) { jobs_as_client = 1 }))
open_engagement-counts_example =
    open_engagement-counts arc found.0 (workspace 21) (workspace 22) completion history

mark_settled_if_paid-idempotent_example :
    mark_settled_if_paid arc
      (mark_settled_if_paid arc found.0 completion history).0
      completion
      (mark_settled_if_paid arc found.0 completion history).1
    ≡ mark_settled_if_paid arc found.0 completion history
mark_settled_if_paid-idempotent_example =
    mark_settled_if_paid-idempotent arc found.0 completion history
