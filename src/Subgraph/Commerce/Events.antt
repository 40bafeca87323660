-- ===== src/Subgraph/Commerce/Events.antt =====
-- packages/subgraph-arc/src/commerce/job.ts: the ids, the touch and the record that every handler
-- of a job's event shares.
use bufi.Base.{ℕ, ◌++◌, Option, none}
use bufi.Base.Texts.{text}
use bufi.Subgraph.Table.{Bytes}
use bufi.Subgraph.Schema.{Job, JobEvent, JobEventKind, Store}
use bufi.Subgraph.Access.{load_job}
use bufi.Subgraph.Runtime.{Host, Event, block_time}

unfoldable pub job_entity_id : Host → ℕ → Bytes → ℕ → Bytes
job_entity_id host chain_id contract job_id =
    host.to_string chain_id
    ++ text ":"
    ++ host.to_hex_string contract
    ++ text ":"
    ++ host.to_string job_id

-- `eventJob`, and `getJob` of payments.ts; the warning on an unknown job is not kept.
unfoldable pub event_job : {P : Type 0} → Host → Event P → ℕ → Store → Option Job
event_job host event job_id s =
    load_job (job_entity_id host host.context_chain_id event.address job_id) s

unfoldable pub touch_job : {P : Type 0} → Host → Job → Event P → Job
touch_job host job event = record job {
  updated_at = block_time host event;
  updated_at_block = event.block_number;
  updated_at_transaction = event.transaction_hash;
}

unfoldable pub create_job_event : {P : Type 0} → Host → Event P → Job → JobEventKind → JobEvent
create_job_event host event job kind = record {
  id = host.concat_i32 event.transaction_hash event.log_index;
  agentic_commerce = job.agentic_commerce;
  job = job.id;
  kind = kind;
  actor = none;
  address = none;
  amount = none;
  data_bytes = none;
  block_number = event.block_number;
  timestamp = block_time host event;
  transaction_hash = event.transaction_hash;
  log_index = event.log_index;
}
