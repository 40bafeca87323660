-- ===== src/Subgraph/Commerce.antt =====
-- packages/subgraph-arc/src/commerce/agentic-commerce.ts: the escrow's entity, made at first sight.
pub mod Params
pub mod Events
pub mod Settlement
pub mod Engagements
pub mod Jobs
pub mod Payments
pub mod Admin
pub mod Frame
pub mod Moves
pub mod Ledger
pub mod Growth
pub mod Balance
pub mod Handled
pub mod Paid
pub mod Opened
pub mod History
pub mod Settled
pub mod Links
use bufi.Base.{ℕ, ◌++◌, Option, none, some, if◌then◌else◌}
use bufi.Base.Texts.{text, text_eq}
use bufi.Subgraph.Table.{Bytes, zero_address}
use bufi.Subgraph.Schema.{AgenticCommerce, Store}
use bufi.Subgraph.Access.{load_agentic_commerce, save_agentic_commerce}
use bufi.Subgraph.Runtime.{Host, Event, Contract, block_time, get_or_create_account}

unfoldable pub agentic_commerce_entity_id : Host → ℕ → Bytes → Bytes
agentic_commerce_entity_id host chain_id address =
    host.to_string chain_id ++ text ":" ++ host.to_hex_string address

-- An optional call's value in place of a default.
abbrev value_or : Option ℕ → ℕ → ℕ
value_or none default = default
value_or (some value) default = value

-- The treasury, unless its call reverted or gave the zero address, under its account.
unfoldable pub read_treasury : Contract → Store → Option Bytes × Store
read_treasury contract s = elim contract.try_platform_treasury [
  | none ↦ (none, s)
  | some address ↦
      let found = get_or_create_account address s in
      if text_eq address zero_address then (none, s) else (some found.0.id, found.1)
]

-- The entity at first sight, with the fee configuration that its views give.
unfoldable pub new_agentic_commerce : {P : Type 0} → Host → Event P → Option Bytes → AgenticCommerce
new_agentic_commerce host event platform_treasury =
    let chain_id = host.context_chain_id in
    let contract = host.bind event.address event.block_number in
    record {
      id = agentic_commerce_entity_id host chain_id event.address;
      network = host.network;
      chain_id = chain_id;
      implementation = none;
      payment_token = host.context_payment_token;
      platform_fee_bp = value_or contract.try_platform_fee_bp 0;
      platform_treasury = platform_treasury;
      evaluator_fee_bp = value_or contract.try_evaluator_fee_bp 0;
      job_count = 0;
      settled_job_count = 0;
      settled_volume = 0;
      refunded_volume = 0;
      created_at = block_time host event;
      updated_at = block_time host event;
    }

unfoldable pub get_or_create_agentic_commerce :
    {P : Type 0} → Host → Event P → Store → AgenticCommerce × Store
get_or_create_agentic_commerce host event s =
    let id = agentic_commerce_entity_id host host.context_chain_id event.address in
    let treasury = read_treasury (host.bind event.address event.block_number) s in
    let new = new_agentic_commerce host event treasury.0 in
    elim (load_agentic_commerce id s) [
      | none ↦ (new, save_agentic_commerce new treasury.1)
      | some agentic_commerce ↦ (agentic_commerce, s)
    ]
