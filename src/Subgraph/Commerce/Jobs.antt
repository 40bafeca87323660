-- ===== src/Subgraph/Commerce/Jobs.antt =====
-- packages/subgraph-arc/src/commerce/job.ts: the handlers of a job's life.
use bufi.Base.{◌+◌, ◌==◌, false, Option, none, some, [], if◌then◌else◌}
use bufi.Base.Int.{pos}
use bufi.Base.Texts.{text_eq}
use bufi.Subgraph.Table.{Bytes, zero_address}
use bufi.Subgraph.Schema.{JobStatus, JobEventKind, Job, AgenticCommerce, Store}
use bufi.Subgraph.Access.{save_job, save_job_event, save_agentic_commerce}
use bufi.Subgraph.Runtime.{
  Host, Event, JobView, block_time, to_timestamp_seconds, get_or_create_account,
}
use bufi.Subgraph.Commerce.Params.{
  JobCreated, ProviderSet, BudgetSet, JobFunded, JobSubmitted, JobCompleted, JobRejected,
  JobExpired,
}
use bufi.Subgraph.Commerce.{get_or_create_agentic_commerce}
use bufi.Subgraph.Commerce.Events.{job_entity_id, event_job, touch_job, create_job_event}
use bufi.Subgraph.Commerce.Settlement.{mark_settled_if_paid}
use bufi.Subgraph.Commerce.Engagements.{link_workspaces}

-- The job of a `JobCreated`, before its optional parties and its description.
unfoldable pub new_job : Host → Event JobCreated → AgenticCommerce → Bytes → Bytes → Job
new_job host event agentic_commerce client evaluator =
    let now = block_time host event in
    record {
      id = job_entity_id host agentic_commerce.chain_id event.address event.params.job_id;
      agentic_commerce = agentic_commerce.id;
      job_id = event.params.job_id;
      status = JobStatus.opened;
      client = client;
      provider = none;
      evaluator = evaluator;
      client_agent = none;
      provider_agent = none;
      engagement = none;
      expires_at = to_timestamp_seconds host (pos event.params.expired_at);
      submitted_at = none;
      budget = 0;
      payment_token = host.context_payment_token;
      hook = none;
      description = [];
      provider_payment = 0;
      evaluator_fee_paid = 0;
      refunded_amount = 0;
      settled = false;
      settled_at = none;
      deliverable = none;
      completion_reason = none;
      rejection_reason = none;
      created_at = now;
      created_at_block = event.block_number;
      created_at_transaction = event.transaction_hash;
      updated_at = now;
      updated_at_block = event.block_number;
      updated_at_transaction = event.transaction_hash;
    }

-- `getOrCreateAccount(provider).id`, unless the address is zero.
unfoldable pub optional_account : Bytes → Store → Option Bytes × Store
optional_account address s =
    let found = get_or_create_account address s in
    if text_eq address zero_address then (none, s) else (some found.0.id, found.1)

abbrev pub describe : Option JobView → Job → Job
describe none job = job
describe (some view) job = record job {
  description = view.description;
  budget = if job.budget == 0 then view.budget else job.budget;
}

unfoldable pub handle_job_created : Host → Event JobCreated → Store → Store
handle_job_created host event s0 =
    let commerce = get_or_create_agentic_commerce host event s0 in
    let client = get_or_create_account event.params.client commerce.1 in
    let evaluator = get_or_create_account event.params.evaluator client.1 in
    let provider = optional_account event.params.provider evaluator.1 in
    let opening = record (new_job host event commerce.0 client.0.id evaluator.0.id) {
      provider = provider.0;
      hook = if text_eq event.params.hook zero_address then none else some event.params.hook;
    } in
    let contract = host.bind event.address event.block_number in
    let described = describe (contract.try_get_job event.params.job_id) opening in
    let job = link_workspaces host described event provider.1 in
    let c = commerce.0 in
    let counted = record c { job_count = c.job_count + 1; updated_at = block_time host event } in
    let entry = record (create_job_event host event job.0 JobEventKind.created) {
      actor = some client.0.id;
      address = some event.params.provider;
    } in
    save_job_event entry (save_agentic_commerce counted (save_job job.0 job.1))

unfoldable pub handle_provider_set : Host → Event ProviderSet → Store → Store
handle_provider_set host event s = elim (event_job host event event.params.job_id s) [
  | none ↦ s
  | some found ↦
      let provider = get_or_create_account event.params.provider s in
      let renamed = record found { provider = some provider.0.id; provider_agent = none } in
      let linked = link_workspaces host renamed event provider.1 in
      let job = touch_job host linked.0 event in
      let entry = record (create_job_event host event job JobEventKind.provider_set) {
        actor = some provider.0.id;
        address = some event.params.provider;
      } in
      save_job_event entry (save_job job linked.1)
]

unfoldable pub handle_budget_set : Host → Event BudgetSet → Store → Store
handle_budget_set host event s = elim (event_job host event event.params.job_id s) [
  | none ↦ s
  | some found ↦
      let job = touch_job host (record found { budget = event.params.amount }) event in
      let entry = record (create_job_event host event job JobEventKind.budget_set) {
        amount = some event.params.amount;
      } in
      save_job_event entry (save_job job s)
]

unfoldable pub handle_job_funded : Host → Event JobFunded → Store → Store
handle_job_funded host event s = elim (event_job host event event.params.job_id s) [
  | none ↦ s
  | some found ↦
      let job = touch_job host (record found { status = JobStatus.funded }) event in
      let client = get_or_create_account event.params.client (save_job job s) in
      let entry = record (create_job_event host event job JobEventKind.job_funded) {
        actor = some client.0.id;
        amount = some event.params.amount;
      } in
      save_job_event entry client.1
]

unfoldable pub handle_job_submitted : Host → Event JobSubmitted → Store → Store
handle_job_submitted host event s = elim (event_job host event event.params.job_id s) [
  | none ↦ s
  | some found ↦
      let submitted = record found {
        status = JobStatus.submitted;
        submitted_at = some (block_time host event);
        deliverable = some event.params.deliverable;
      } in
      let job = touch_job host submitted event in
      let provider = get_or_create_account event.params.provider (save_job job s) in
      let entry = record (create_job_event host event job JobEventKind.job_submitted) {
        actor = some provider.0.id;
        data_bytes = some event.params.deliverable;
      } in
      save_job_event entry provider.1
]

unfoldable pub handle_job_completed : Host → Event JobCompleted → Store → Store
handle_job_completed host event s = elim (event_job host event event.params.job_id s) [
  | none ↦ s
  | some found ↦
      let completed = record found {
        status = JobStatus.completed;
        completion_reason = some event.params.reason;
      } in
      let marked = mark_settled_if_paid host (touch_job host completed event) event s in
      let job = marked.0 in
      let evaluator = get_or_create_account event.params.evaluator (save_job job marked.1) in
      let entry = record (create_job_event host event job JobEventKind.job_completed) {
        actor = some evaluator.0.id;
        data_bytes = some event.params.reason;
      } in
      save_job_event entry evaluator.1
]

unfoldable pub handle_job_rejected : Host → Event JobRejected → Store → Store
handle_job_rejected host event s = elim (event_job host event event.params.job_id s) [
  | none ↦ s
  | some found ↦
      let rejected = record found {
        status = JobStatus.rejected;
        rejection_reason = some event.params.reason;
      } in
      let job = touch_job host rejected event in
      let rejector = get_or_create_account event.params.rejector (save_job job s) in
      let entry = record (create_job_event host event job JobEventKind.job_rejected) {
        actor = some rejector.0.id;
        data_bytes = some event.params.reason;
      } in
      save_job_event entry rejector.1
]

unfoldable pub handle_job_expired : Host → Event JobExpired → Store → Store
handle_job_expired host event s = elim (event_job host event event.params.job_id s) [
  | none ↦ s
  | some found ↦
      let job = touch_job host (record found { status = JobStatus.expired }) event in
      save_job_event (create_job_event host event job JobEventKind.job_expired) (save_job job s)
]
