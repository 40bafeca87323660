-- ===== src/Subgraph/Commerce/History.antt =====
-- Histories of the index: any sequence of the escrow's events, with the handlers of the other
-- sources between them, from the empty store, and the escrows' counts after it.
use bufi.Base.{◌≤◌, ◌≡◌, refl, [], arith}
use bufi.Subgraph.Table.{Bytes, total, load}
use bufi.Subgraph.Schema.{Store}
use bufi.Subgraph.Runtime.{Host, Event}
use bufi.Subgraph.Commerce.Params.{
  JobCreated, ProviderSet, BudgetSet, JobFunded, JobSubmitted, JobCompleted, JobRejected,
  JobExpired, PaymentReleased, EvaluatorFeePaid, Refunded, HookWhitelistUpdated, Upgraded,
}
use bufi.Subgraph.Commerce.Jobs.{
  handle_job_created, handle_provider_set, handle_budget_set, handle_job_funded,
  handle_job_submitted, handle_job_completed, handle_job_rejected, handle_job_expired,
}
use bufi.Subgraph.Commerce.Payments.{
  handle_payment_released, handle_evaluator_fee_paid, handle_refunded,
}
use bufi.Subgraph.Commerce.Admin.{handle_hook_whitelist_updated, handle_upgraded}
use bufi.Subgraph.Commerce.Frame.{IsFramed}
use bufi.Subgraph.Commerce.Moves.{Move, kept}
use bufi.Subgraph.Commerce.Ledger.{IsBalanced, booked, one, settled_one, settled_payment, tally}
use bufi.Subgraph.Commerce.Handled.{
  handle_budget_set-Move, handle_job_funded-Move, handle_job_submitted-Move,
  handle_job_rejected-Move, handle_job_expired-Move, handle_evaluator_fee_paid-Move,
}
use bufi.Subgraph.Commerce.Balance.{Move-IsBalanced}
use bufi.Subgraph.Commerce.Paid.{
  handle_job_completed-Move, handle_payment_released-Move, handle_refunded-Move,
}
use bufi.Subgraph.Commerce.Opened.{
  IsNewJob, handle_job_created-Move, handle_provider_set-Move, handle_hook_whitelist_updated-Move,
  handle_upgraded-Move,
}

-- An event of the escrow's data source, by its handler.
pub data Call : Type 0 where
  on_created : Event JobCreated → Call
  on_provider_set : Event ProviderSet → Call
  on_budget_set : Event BudgetSet → Call
  on_funded : Event JobFunded → Call
  on_submitted : Event JobSubmitted → Call
  on_completed : Event JobCompleted → Call
  on_rejected : Event JobRejected → Call
  on_expired : Event JobExpired → Call
  on_payment_released : Event PaymentReleased → Call
  on_evaluator_fee_paid : Event EvaluatorFeePaid → Call
  on_refunded : Event Refunded → Call
  on_hook_whitelist_updated : Event HookWhitelistUpdated → Call
  on_upgraded : Event Upgraded → Call

unfoldable pub dispatch : Host → Call → Store → Store
dispatch host (on_created event) s = handle_job_created host event s
dispatch host (on_provider_set event) s = handle_provider_set host event s
dispatch host (on_budget_set event) s = handle_budget_set host event s
dispatch host (on_funded event) s = handle_job_funded host event s
dispatch host (on_submitted event) s = handle_job_submitted host event s
dispatch host (on_completed event) s = handle_job_completed host event s
dispatch host (on_rejected event) s = handle_job_rejected host event s
dispatch host (on_expired event) s = handle_job_expired host event s
dispatch host (on_payment_released event) s = handle_payment_released host event s
dispatch host (on_evaluator_fee_paid event) s = handle_evaluator_fee_paid host event s
dispatch host (on_refunded event) s = handle_refunded host event s
dispatch host (on_hook_whitelist_updated event) s = handle_hook_whitelist_updated host event s
dispatch host (on_upgraded event) s = handle_upgraded host event s

-- The escrow gives every job a number of its own.
abbrev pub IsAllowed : Host → Call → Store → Type 0
IsAllowed host (on_created event) s = IsNewJob host event s
IsAllowed host _ s = Unit

abbrev pub empty_store : Store
empty_store = record {
  agentic_commerces = [];
  jobs = [];
  job_events = [];
  agents = [];
  engagements = [];
  accounts = [];
  wallet_bindings = [];
  agent_metric_points = [];
  hook_allowlist_entries = [];
  reputation_registries = [];
  feedbacks = [];
  feedback_responses = [];
  feedback_metric_points = [];
}

-- `elsewhere` is a handler of another data source, which leaves the jobs and the escrows alone.
pub data Reachable (host : Host) : Store → Type 0 where
  start : Reachable host empty_store
  handled :
      {s : Store} (call : Call)
      → Reachable host s
      → IsAllowed host call s
      → Reachable host (dispatch host call s)
  elsewhere : {s t : Store} → Reachable host s → IsFramed s t → Reachable host t

pub dispatch-Move :
    (host : Host) (call : Call) (s : Store) → IsAllowed host call s → Move s (dispatch host call s)
unfolding dispatch
dispatch-Move host (on_created event) s new = handle_job_created-Move host event s new
dispatch-Move host (on_provider_set event) s allowed = handle_provider_set-Move host event s
dispatch-Move host (on_budget_set event) s allowed = handle_budget_set-Move host event s
dispatch-Move host (on_funded event) s allowed = handle_job_funded-Move host event s
dispatch-Move host (on_submitted event) s allowed = handle_job_submitted-Move host event s
dispatch-Move host (on_completed event) s allowed = handle_job_completed-Move host event s
dispatch-Move host (on_rejected event) s allowed = handle_job_rejected-Move host event s
dispatch-Move host (on_expired event) s allowed = handle_job_expired-Move host event s
dispatch-Move host (on_payment_released event) s allowed = handle_payment_released-Move host event s
dispatch-Move host (on_evaluator_fee_paid event) s allowed =
    handle_evaluator_fee_paid-Move host event s
dispatch-Move host (on_refunded event) s allowed = handle_refunded-Move host event s
dispatch-Move host (on_hook_whitelist_updated event) s allowed =
    handle_hook_whitelist_updated-Move host event s
dispatch-Move host (on_upgraded event) s allowed = handle_upgraded-Move host event s

start-IsBalanced : IsBalanced empty_store
unfolding booked tally total load
start-IsBalanced = record {
  job_counts = λ id. refl;
  settled_counts = λ id. refl;
  refunds = λ id. refl;
  volumes = λ id. omega arith;
}

Reachable-IsBalanced : (host : Host) (s : Store) → Reachable host s → IsBalanced s
Reachable-IsBalanced host s start = start-IsBalanced
Reachable-IsBalanced host s (handled {s = before} call reach allowed) =
    Move-IsBalanced before s (dispatch-Move host call before allowed)
      (Reachable-IsBalanced host before reach)
Reachable-IsBalanced host s (elsewhere {s = before} reach framed) =
    Move-IsBalanced before s (kept framed) (Reachable-IsBalanced host before reach)

-- After any history, under any id, an escrow's `jobCount` is the number of the jobs that name it,
-- its `settledJobCount` the number of the settled ones, its `refundedVolume` the sum of their
-- refunds, and its `settledVolume` at most the sum of the payments of the settled ones; an escrow
-- that is not kept has no jobs.
pub Reachable-booked :
    (host : Host) (s : Store) (id : Bytes)
    → Reachable host s
    → (booked (λ c. c.job_count) id s.agentic_commerces ≡ tally one id s.jobs)
      × (booked (λ c. c.settled_job_count) id s.agentic_commerces ≡ tally settled_one id s.jobs)
      × (booked (λ c. c.refunded_volume) id s.agentic_commerces
          ≡ tally (λ j. j.refunded_amount) id s.jobs)
      × (booked (λ c. c.settled_volume) id s.agentic_commerces ≤ tally settled_payment id s.jobs)
Reachable-booked host s id reach =
    let balance = Reachable-IsBalanced host s reach in
    (balance.job_counts id, balance.settled_counts id, balance.refunds id, balance.volumes id)
