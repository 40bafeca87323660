-- ===== src/Subgraph/Commerce/Settlement.antt =====
-- packages/subgraph-arc/src/commerce/settlement.ts and bufi/metrics.ts: the one place where a job
-- becomes a settlement, and the record of a refund.
use bufi.Base.{
  ℕ, ◌+◌, ◌≡◌, refl, Bool, true, false, Option, none, some, ◌||◌, not, if◌then◌else◌, ◌==◌,
}
use bufi.Subgraph.Table.{Bytes}
use bufi.Subgraph.Schema.{
  AgentMetricKind, settled_as_provider, settled_as_client, refunded_as_client, JobStatus, Job,
  Agent, Timestamp, Store,
}
use bufi.Subgraph.Access.{
  load_agentic_commerce, save_agentic_commerce, load_agent, save_agent, load_engagement,
  save_engagement, save_agent_metric_point,
}
use bufi.Subgraph.Runtime.{Host, Event, block_time}

unfoldable pub record_agent_metric : Agent → AgentMetricKind → ℕ → Timestamp → Store → Store
record_agent_metric agent kind amount at s =
    save_agent_metric_point
      (record { timestamp = at; agent = agent.id; kind = kind; amount = amount }) s

abbrev pub is_completed : JobStatus → Bool
is_completed JobStatus.completed = true
is_completed _ = false

-- The three guards of `markSettledIfPaid`, in one test.
unfoldable pub is_not_due : Job → Bool
is_not_due job = job.settled || not (is_completed job.status) || job.provider_payment == 0

unfoldable pub settle_commerce : Job → ℕ → Timestamp → Store → Store
settle_commerce job amount at s = elim (load_agentic_commerce job.agentic_commerce s) [
  | none ↦ s
  | some c ↦
      save_agentic_commerce
        (record c {
          settled_job_count = c.settled_job_count + 1;
          settled_volume = c.settled_volume + amount;
          updated_at = at;
        })
        s
]

unfoldable pub settle_provider : Option Bytes → ℕ → Timestamp → Store → Store
settle_provider none amount at s = s
settle_provider (some id) amount at s = elim (load_agent id s) [
  | none ↦ s
  | some a ↦
      let provider = record a {
        settled_as_provider = a.settled_as_provider + 1;
        settled_volume_as_provider = a.settled_volume_as_provider + amount;
      } in
      record_agent_metric provider settled_as_provider amount at (save_agent provider s)
]

unfoldable pub settle_client : Option Bytes → ℕ → Timestamp → Store → Store
settle_client none amount at s = s
settle_client (some id) amount at s = elim (load_agent id s) [
  | none ↦ s
  | some a ↦
      let client = record a {
        settled_as_client = a.settled_as_client + 1;
        settled_volume_as_client = a.settled_volume_as_client + amount;
      } in
      record_agent_metric client settled_as_client amount at (save_agent client s)
]

unfoldable pub settle_engagement : Option Bytes → Bytes → ℕ → Timestamp → Store → Store
settle_engagement none job_id amount at s = s
settle_engagement (some id) job_id amount at s = elim (load_engagement id s) [
  | none ↦ s
  | some e ↦
      save_engagement
        (record e {
          settled_job_count = e.settled_job_count + 1;
          settled_volume = e.settled_volume + amount;
          last_settled_job = some job_id;
          last_settled_at = some at;
          updated_at = at;
        })
        s
]

-- The job as the caller goes on to save it, and the store with its aggregates.
unfoldable pub mark_settled_if_paid : {P : Type 0} → Host → Job → Event P → Store → Job × Store
mark_settled_if_paid host job event s =
    let at = block_time host event in
    let amount = job.provider_payment in
    let settled_job = record job { settled = true; settled_at = some at } in
    if is_not_due job then (job, s) else (
      settled_job,
      settle_engagement job.engagement job.id amount at (
          settle_client job.client_agent amount at
            (settle_provider job.provider_agent amount at (settle_commerce job amount at s))),
    )

-- The two outcomes of the guards.
pub mark_settled_if_paid-not_due :
    {P : Type 0} (host : Host) (job : Job) (event : Event P) (s : Store)
    → is_not_due job ≡ true
    → mark_settled_if_paid host job event s ≡ (job, s)
unfolding mark_settled_if_paid
mark_settled_if_paid-not_due host job event s h = rw h refl

pub mark_settled_if_paid-due :
    {P : Type 0} (host : Host) (job : Job) (event : Event P) (s : Store)
    → is_not_due job ≡ false
    → mark_settled_if_paid host job event s ≡ (
      record job { settled = true; settled_at = some (block_time host event) },
      settle_engagement job.engagement job.id job.provider_payment (block_time host event) (
          settle_client job.client_agent job.provider_payment (block_time host event) (
            settle_provider job.provider_agent job.provider_payment
              (block_time host event)
              (settle_commerce job job.provider_payment (block_time host event) s))),
    )
unfolding mark_settled_if_paid
mark_settled_if_paid-due host job event s h = rw h refl

unfoldable pub refund_commerce : Job → ℕ → Timestamp → Store → Store
refund_commerce job amount at s = elim (load_agentic_commerce job.agentic_commerce s) [
  | none ↦ s
  | some c ↦
      save_agentic_commerce
        (record c { refunded_volume = c.refunded_volume + amount; updated_at = at }) s
]

unfoldable pub refund_client : Option Bytes → ℕ → Timestamp → Store → Store
refund_client none amount at s = s
refund_client (some id) amount at s = elim (load_agent id s) [
  | none ↦ s
  | some a ↦
      let client = record a { refunded_volume_as_client = a.refunded_volume_as_client + amount } in
      record_agent_metric client refunded_as_client amount at (save_agent client s)
]

unfoldable pub refund_engagement : Option Bytes → ℕ → Timestamp → Store → Store
refund_engagement none amount at s = s
refund_engagement (some id) amount at s = elim (load_engagement id s) [
  | none ↦ s
  | some e ↦
      save_engagement (record e { refunded_volume = e.refunded_volume + amount; updated_at = at }) s
]

unfoldable pub record_refund : {P : Type 0} → Host → Job → ℕ → Event P → Store → Store
record_refund host job amount event s =
    let at = block_time host event in
    refund_engagement job.engagement amount at
      (refund_client job.client_agent amount at (refund_commerce job amount at s))
