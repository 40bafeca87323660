-- ===== src/Subgraph/Commerce/Admin.antt =====
-- packages/subgraph-arc/src/commerce/admin.ts: the escrow's own events.
use bufi.Base.{◌++◌, none, some}
use bufi.Subgraph.Schema.{HookAllowlistEntry, Store}
use bufi.Subgraph.Access.{
  load_hook_allowlist_entry, save_hook_allowlist_entry, save_agentic_commerce,
}
use bufi.Subgraph.Runtime.{Host, Event, block_time}
use bufi.Subgraph.Commerce.Params.{HookWhitelistUpdated, Upgraded}
use bufi.Subgraph.Commerce.{get_or_create_agentic_commerce}

unfoldable pub handle_hook_whitelist_updated : Host → Event HookWhitelistUpdated → Store → Store
handle_hook_whitelist_updated host event s =
    let commerce = get_or_create_agentic_commerce host event s in
    let c = commerce.0 in
    let id = c.id ++ event.params.hook in
    let now = block_time host event in
    let fresh : HookAllowlistEntry = record {
      id = id;
      agentic_commerce = c.id;
      hook = event.params.hook;
      allowed = event.params.status;
      updated_at = now;
      updated_at_block = event.block_number;
      updated_at_transaction = event.transaction_hash;
    } in
    let entry : HookAllowlistEntry = elim (load_hook_allowlist_entry id commerce.1) [
      | none ↦ fresh
      | some old ↦ record old {
        allowed = event.params.status;
        updated_at = now;
        updated_at_block = event.block_number;
        updated_at_transaction = event.transaction_hash;
      }
    ] in
    save_agentic_commerce (record c { updated_at = now })
      (save_hook_allowlist_entry entry commerce.1)

unfoldable pub handle_upgraded : Host → Event Upgraded → Store → Store
handle_upgraded host event s =
    let commerce = get_or_create_agentic_commerce host event s in
    let c = commerce.0 in
    save_agentic_commerce
      (record c {
        implementation = some event.params.implementation;
        updated_at = block_time host event;
      })
      commerce.1
