-- ===== src/Subgraph/Commerce/Engagements.antt =====
-- packages/subgraph-arc/src/bufi/{engagement,wallet-binding}.ts and `linkWorkspaces` of
-- commerce/job.ts: the workspaces behind a job's parties, and the edge between them.
use bufi.Base.{◌+◌, ◌++◌, Option, none, some, List, if◌then◌else◌}
use bufi.Base.Int.{pos}
use bufi.Base.Texts.{text_eq}
use bufi.Subgraph.Table.{Bytes, load, remove}
use bufi.Subgraph.Schema.{Agent, Engagement, WalletBinding, Job, Timestamp, Store}
use bufi.Subgraph.Access.{
  load_agent, save_agent, load_engagement, save_engagement, load_wallet_binding,
  save_wallet_binding,
}
use bufi.Subgraph.Runtime.{Host, Event, block_time, get_or_create_account}

unfoldable pub engagement_id : Host → Agent → Agent → Bytes
engagement_id host client provider = host.keccak256 (client.id ++ provider.id)

-- Unlike an account, a new engagement is left for the caller to save.
unfoldable pub get_or_create_engagement : Host → Agent → Agent → Timestamp → Store → Engagement
get_or_create_engagement host client provider at s =
    let id = engagement_id host client provider in
    elim (load_engagement id s) [
      | some engagement ↦ engagement
      | none ↦ record {
        id = id;
        client = client.id;
        provider = provider.id;
        job_count = 0;
        settled_job_count = 0;
        settled_volume = 0;
        refunded_volume = 0;
        last_settled_job = none;
        last_settled_at = none;
        feedback_count = pos 0;
        verified_feedback_count = pos 0;
        last_feedback_at = none;
        first_seen_at = at;
        updated_at = at;
      }
    ]

unfoldable pub bind_wallet : {P : Type 0} → Host → Agent → Bytes → Event P → Store → Store
bind_wallet host agent wallet event s =
    let account = get_or_create_account wallet s in
    let binding : WalletBinding = record {
      id = wallet;
      account = account.0.id;
      agent = agent.id;
      bound_at = block_time host event;
      bound_at_transaction = event.transaction_hash;
    } in
    save_wallet_binding binding account.1

unfoldable pub unbind_wallet : Agent → Option Bytes → Store → Store
unbind_wallet agent none s = s
unbind_wallet agent (some wallet) s = elim (load_wallet_binding wallet s) [
  | none ↦ s
  | some binding ↦
      if text_eq binding.agent agent.id
      then record s { wallet_bindings = remove (λ e. e.id) wallet s.wallet_bindings }
      else s
]

abbrev pub bound_agent : Option WalletBinding → List Agent → Option Agent
bound_agent none agents = none
bound_agent (some binding) agents = load (λ a. a.id) binding.agent agents

unfoldable pub resolve_agent_by_wallet : Bytes → Store → Option Agent
resolve_agent_by_wallet address s = bound_agent (load_wallet_binding address s) s.agents

-- The workspace of a party: the one the job names, or else the one its wallet is bound to.
unfoldable pub party_agent : Option Bytes → Bytes → Store → Option Agent
party_agent none address s = resolve_agent_by_wallet address s
party_agent (some id) address s = load_agent id s

unfoldable pub provider_party : Job → Store → Option Agent
provider_party job s = elim job.provider [
  | none ↦ none
  | some address ↦ party_agent job.provider_agent address s
]

-- `job.clientAgent` after the link: kept when it was set, else the id of what was found.
abbrev pub linked : Option Bytes → Option Agent → Option Bytes
linked (some id) found = some id
linked none none = none
linked none (some a) = some a.id

-- Both agents are copies loaded before; each is saved with its own count raised.
unfoldable pub open_engagement :
    {P : Type 0} → Host → Job → Agent → Agent → Event P → Store → Job × Store
open_engagement host job client provider event s =
    let at = block_time host event in
    let e = get_or_create_engagement host client provider at s in
    let engagement = record e { job_count = e.job_count + 1; updated_at = at } in
    (
      record job { engagement = some engagement.id },
      save_agent (record provider { jobs_as_provider = provider.jobs_as_provider + 1 })
          (save_agent (record client { jobs_as_client = client.jobs_as_client + 1 })
            (save_engagement engagement s)),
    )

abbrev pub open_between :
    {P : Type 0} → Host → Job → Option Agent → Option Agent → Event P → Store → Job × Store
open_between host job none provider event s = (job, s)
open_between host job (some c) none event s = (job, s)
open_between host job (some c) (some p) event s = open_engagement host job c p event s

unfoldable pub link_workspaces : {P : Type 0} → Host → Job → Event P → Store → Job × Store
link_workspaces host job event s =
    let client = party_agent job.client_agent job.client s in
    let provider = provider_party job s in
    let known = record job {
      client_agent = linked job.client_agent client;
      provider_agent = linked job.provider_agent provider;
    } in
    elim known.engagement [
      | some id ↦ (known, s)
      | none ↦ open_between host known client provider event s
    ]
