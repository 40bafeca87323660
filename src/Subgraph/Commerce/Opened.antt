-- ===== src/Subgraph/Commerce/Opened.antt =====
-- The moves of the handlers that open an escrow's entity, a job or an engagement.
use bufi.Base.{
  ℕ, ◌+◌, ◌≡◌, refl, ap, sym, ◌∙◌, Bool, Option, none, some, arith, Option-cases, Bool-cases, inl,
  inr, if◌then◌else◌,
}
use bufi.Base.Texts.{text_eq}
use bufi.Subgraph.Table.{Bytes, load, load-key, load-save, save, zero_address}
use bufi.Subgraph.Schema.{Agent, AgenticCommerce, Job, JobStatus, Store}
use bufi.Subgraph.Access.{load_job, load_agentic_commerce}
use bufi.Subgraph.Runtime.{Host, Event, Contract, JobView, get_or_create_account, block_time}
use bufi.Subgraph.Commerce.{
  get_or_create_agentic_commerce, read_treasury, new_agentic_commerce, agentic_commerce_entity_id,
}
use bufi.Subgraph.Commerce.Params.{JobCreated, ProviderSet, HookWhitelistUpdated, Upgraded}
use bufi.Subgraph.Commerce.Events.{job_entity_id, event_job, touch_job}
use bufi.Subgraph.Commerce.Engagements.{
  link_workspaces, open_engagement, open_between, party_agent, provider_party, linked,
}
use bufi.Subgraph.Commerce.Jobs.{
  handle_job_created, handle_provider_set, new_job, optional_account, describe,
}
use bufi.Subgraph.Commerce.Admin.{handle_hook_whitelist_updated, handle_upgraded}
use bufi.Subgraph.Commerce.Frame.{
  IsFramed, IsFramed-trans, save_job-IsFramed, get_or_create_account-IsFramed,
  optional_account-IsFramed,
}
use bufi.Subgraph.Commerce.Moves.{
  Move, kept, both, revised, sighted, retouched, entered, IsSettledRight,
}
use bufi.Subgraph.Commerce.Handled.{event_job-own}

-- What a link leaves alone in a job.
abbrev facts : Job → Bytes × Bytes × JobStatus × ℕ × ℕ × Bool
facts job = (
  job.id, job.agentic_commerce, job.status, job.provider_payment, job.refunded_amount, job.settled,
)

open_between-facts :
    {P : Type 0} (host : Host) (job : Job) (client provider : Option Agent) (event : Event P)
    (s : Store)
    → (facts (open_between host job client provider event s).0 ≡ facts job)
      × IsFramed s (open_between host job client provider event s).1
unfolding open_engagement
open_between-facts host job none provider event s = (refl, (refl, refl))
open_between-facts host job (some c) none event s = (refl, (refl, refl))
open_between-facts host job (some c) (some p) event s = (refl, (refl, refl))

link_workspaces-facts :
    {P : Type 0} (host : Host) (job : Job) (event : Event P) (s : Store)
    → (facts (link_workspaces host job event s).0 ≡ facts job)
      × IsFramed s (link_workspaces host job event s).1
unfolding link_workspaces
link_workspaces-facts host job event s = elim (Option-cases job.engagement) [
  | inl e ↦
      rw (e, link_workspaces)
        (open_between-facts host
          (record job {
            client_agent = linked job.client_agent (party_agent job.client_agent job.client s);
            provider_agent = linked job.provider_agent (provider_party job s);
          })
          (party_agent job.client_agent job.client s) (provider_party job s) event s)
  | inr (id, e) ↦ rw (e, link_workspaces) (refl, (refl, refl))
]

same-IsSettledRight :
    (old new : Job)
    → new.status ≡ old.status
    → new.provider_payment ≡ old.provider_payment
    → new.settled ≡ old.settled
    → IsSettledRight old
    → IsSettledRight new
same-IsSettledRight old new status payment settled right = (
  λ e zero_payment. right.0 (sym settled ∙ e) (sym payment ∙ zero_payment),
  λ e positive.
      settled ∙ right.1 (sym status ∙ e) (λ zero_payment. positive (payment ∙ zero_payment)),
)

pub handle_provider_set-Move :
    (host : Host) (event : Event ProviderSet) (s : Store)
    → Move s (handle_provider_set host event s)
unfolding touch_job handle_provider_set
handle_provider_set-Move host event s =
    elim (Option-cases (event_job host event event.params.job_id s)) [
      | inl e ↦ rw (e, handle_provider_set) (kept (refl, refl))
      | inr (job, e) ↦
          let provider = get_or_create_account event.params.provider s in
          let renamed : Job = record job { provider = some provider.0.id; provider_agent = none } in
          let linked = link_workspaces host renamed event provider.1 in
          let new = touch_job host linked.0 event in
          let known = link_workspaces-facts host renamed event provider.1 in
          let same = known.0 in
          rw (e, handle_provider_set)
            (revised job new
              (ap (λ i. load_job i s) (ap (λ f. f.0) same)
                ∙ event_job-own host event event.params.job_id s job e)
              (ap (λ f. f.1) same) (ap (λ f. f.5) same) (ap (λ f. f.4) same)
              (omega (arith, ap (λ f. f.3) same))
              (same-IsSettledRight job new (ap (λ f. f.2) same) (ap (λ f. f.3) same)
                (ap (λ f. f.5) same))
              (save_job-IsFramed new s linked.1 (
                IsFramed-trans s provider.1 linked.1
                  (get_or_create_account-IsFramed event.params.provider s) known.1)))
    ]

read_treasury-IsFramed : (contract : Contract) (s : Store) → IsFramed s (read_treasury contract s).1
unfolding read_treasury
read_treasury-IsFramed contract s = elim (Option-cases contract.try_platform_treasury) [
  | inl e ↦ rw (e, read_treasury) (refl, refl)
  | inr (address, e) ↦ elim (Bool-cases (text_eq address zero_address)) [
    | inl z ↦ rw (e, read_treasury, z) (refl, refl)
    | inr z ↦ rw (e, read_treasury, z) (get_or_create_account-IsFramed address s)
  ]
]

-- The escrow's entity is kept once it has been got, and nothing but it is new.
pub get_or_create_agentic_commerce-Move :
    {P : Type 0} (host : Host) (event : Event P) (s : Store)
    → Move s (get_or_create_agentic_commerce host event s).1
      × (load_agentic_commerce
            (get_or_create_agentic_commerce host event s).0.id
            (get_or_create_agentic_commerce host event s).1
          ≡ some (get_or_create_agentic_commerce host event s).0)
      × ((get_or_create_agentic_commerce host event s).1.jobs ≡ s.jobs)
unfolding get_or_create_agentic_commerce new_agentic_commerce
get_or_create_agentic_commerce-Move host event s =
    let id = agentic_commerce_entity_id host host.context_chain_id event.address in
    let contract = host.bind event.address event.block_number in
    let read = read_treasury contract s in
    let new = new_agentic_commerce host event read.0 in
    let framed = read_treasury-IsFramed contract s in
    elim (Option-cases (load_agentic_commerce id s)) [
      | inl e ↦
          rw (e, get_or_create_agentic_commerce)
            (
              sighted new e refl (framed.0, ap (save (λ c. c.id) new) framed.1),
              load-save (λ c. c.id) new read.1.agentic_commerces,
              framed.0,
            )
      | inr (c, e) ↦
          rw (e, get_or_create_agentic_commerce)
            (
              kept (refl, refl),
              ap (λ i. load_agentic_commerce i s) (load-key (λ c. c.id) id c s.agentic_commerces e)
                  ∙ e,
              refl,
            )
    ]

describe-facts : (view : Option JobView) (job : Job) → facts (describe view job) ≡ facts job
describe-facts none job = refl
describe-facts (some view) job = refl

-- A job that the escrow has not numbered before.
abbrev pub IsNewJob : Host → Event JobCreated → Store → Type 0
IsNewJob host event s =
    let c = (get_or_create_agentic_commerce host event s).0 in
    load_job (job_entity_id host c.chain_id event.address event.params.job_id) s ≡ none

pub handle_job_created-Move :
    (host : Host) (event : Event JobCreated) (s : Store)
    → IsNewJob host event s
    → Move s (handle_job_created host event s)
unfolding handle_job_created new_job
handle_job_created-Move host event s fresh =
    let commerce = get_or_create_agentic_commerce host event s in
    let got = get_or_create_agentic_commerce-Move host event s in
    let client = get_or_create_account event.params.client commerce.1 in
    let evaluator = get_or_create_account event.params.evaluator client.1 in
    let provider = optional_account event.params.provider evaluator.1 in
    let opening : Job = record (new_job host event commerce.0 client.0.id evaluator.0.id) {
      provider = provider.0;
      hook = if text_eq event.params.hook zero_address then none else some event.params.hook;
    } in
    let view = (host.bind event.address event.block_number).try_get_job event.params.job_id in
    let described = describe view opening in
    let job = link_workspaces host described event provider.1 in
    let linked = link_workspaces-facts host described event provider.1 in
    let same = linked.0 ∙ describe-facts view opening in
    let c = commerce.0 in
    let counted : AgenticCommerce = record c {
      job_count = c.job_count + 1;
      updated_at = block_time host event;
    } in
    let framed : IsFramed commerce.1 job.1 =
      IsFramed-trans commerce.1 evaluator.1 job.1
        (IsFramed-trans commerce.1 client.1 evaluator.1
          (get_or_create_account-IsFramed event.params.client commerce.1)
          (get_or_create_account-IsFramed event.params.evaluator client.1))
        (IsFramed-trans evaluator.1 provider.1 job.1
          (optional_account-IsFramed event.params.provider evaluator.1) linked.1) in
    both got.0 (
      entered job.0 c counted
        (ap (λ t. load (λ j. j.id) job.0.id t) got.2
          ∙ ap (λ i. load_job i s) (ap (λ f. f.0) same)
          ∙ fresh)
        got.1 (ap (λ f. f.1) same) (ap (λ f. f.5) same) (ap (λ f. f.4) same) (ap (λ f. f.2) same)
        refl (ap (save (λ j. j.id) job.0) framed.0, ap (save (λ c. c.id) counted) framed.1))

pub handle_hook_whitelist_updated-Move :
    (host : Host) (event : Event HookWhitelistUpdated) (s : Store)
    → Move s (handle_hook_whitelist_updated host event s)
unfolding handle_hook_whitelist_updated
handle_hook_whitelist_updated-Move host event s =
    let got = get_or_create_agentic_commerce-Move host event s in
    let c = (get_or_create_agentic_commerce host event s).0 in
    both got.0
      (retouched c (record c { updated_at = block_time host event }) got.1 refl (refl, refl))

pub handle_upgraded-Move :
    (host : Host) (event : Event Upgraded) (s : Store) → Move s (handle_upgraded host event s)
unfolding handle_upgraded
handle_upgraded-Move host event s =
    let got = get_or_create_agentic_commerce-Move host event s in
    let c = (get_or_create_agentic_commerce host event s).0 in
    let upgraded : AgenticCommerce = record c {
      implementation = some event.params.implementation;
      updated_at = block_time host event;
    } in
    both got.0 (retouched c upgraded got.1 refl (refl, refl))
