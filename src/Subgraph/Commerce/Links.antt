-- ===== src/Subgraph/Commerce/Links.antt =====
-- What packages/subgraph-arc/src/bufi and the links of commerce/job.ts promise: wallets and their
-- workspaces, the counts of a new engagement, a settlement marked again.
use bufi.Base.{
  ◌+◌, ◌≡◌, refl, sym, ap, ◌∙◌, Bool, false, Option, none, some, arith, ◌&&◌, if◌then◌else◌,
  Option-cases, Bool-cases, inl, inr,
}
use bufi.Base.Texts.{text_eq, text_eq→eq}
use bufi.Subgraph.Table.{Bytes, load, load-save, load-save_other, load-remove}
use bufi.Subgraph.Schema.{Agent, WalletBinding, Job, Store}
use bufi.Subgraph.Access.{load_agent, load_wallet_binding, load_account}
use bufi.Subgraph.Runtime.{Host, Event, block_time, get_or_create_account}
use bufi.Subgraph.Commerce.Settlement.{
  mark_settled_if_paid, is_not_due, mark_settled_if_paid-due, mark_settled_if_paid-not_due,
}
use bufi.Subgraph.Commerce.Engagements.{
  open_engagement, bound_agent, bind_wallet, unbind_wallet, resolve_agent_by_wallet,
}

get_or_create_account-links :
    (a : Bytes) (s : Store)
    → ((get_or_create_account a s).1.wallet_bindings ≡ s.wallet_bindings)
      × ((get_or_create_account a s).1.agents ≡ s.agents)
unfolding get_or_create_account
get_or_create_account-links a s = elim (Option-cases (load_account a s)) [
  | inl e ↦ rw (e, get_or_create_account) (refl, refl)
  | inr e ↦ rw (e.1, get_or_create_account) (refl, refl)
]

-- The workspace behind an address after a wallet is bound: the agent that was bound, for that
-- wallet, and what it was before for every other.
pub bind_wallet-resolve :
    {P : Type 0} (host : Host) (agent : Agent) (wallet address : Bytes) (event : Event P)
    (s : Store)
    → resolve_agent_by_wallet address (bind_wallet host agent wallet event s) ≡ (
        if text_eq wallet address then load_agent agent.id s else resolve_agent_by_wallet address s)
unfolding bind_wallet resolve_agent_by_wallet
bind_wallet-resolve host agent wallet address event s =
    let same = get_or_create_account-links wallet s in
    let account = get_or_create_account wallet s in
    let binding : WalletBinding = record {
      id = wallet;
      account = account.0.id;
      agent = agent.id;
      bound_at = block_time host event;
      bound_at_transaction = event.transaction_hash;
    } in
    elim (Bool-cases (text_eq wallet address)) [
      | inl e ↦ rw e (
          ap (λ a. resolve_agent_by_wallet a (bind_wallet host agent wallet event s))
            (sym (text_eq→eq wallet address e))
          ∙ ap (λ b. bound_agent b account.1.agents)
              (load-save (λ b. b.id) binding account.1.wallet_bindings)
          ∙ ap (load (λ a. a.id) agent.id) same.1)
      | inr e ↦ rw e (
          ap (λ b. bound_agent b account.1.agents)
            (load-save_other (λ b. b.id) address binding account.1.wallet_bindings e)
          ∙ ap (λ t. bound_agent (load (λ b. b.id) address t) account.1.agents) same.0
          ∙ ap (bound_agent (load_wallet_binding address s)) same.1)
    ]

abbrev pub is_bound_to : Agent → Option WalletBinding → Bool
is_bound_to agent none = false
is_bound_to agent (some binding) = text_eq binding.agent agent.id

-- After a wallet is unbound from an agent, no workspace is behind it if it was that agent's, and
-- nothing changes otherwise.
pub unbind_wallet-resolve :
    (agent : Agent) (wallet address : Bytes) (s : Store)
    → resolve_agent_by_wallet address (unbind_wallet agent (some wallet) s) ≡ (
        if text_eq wallet address && is_bound_to agent (load_wallet_binding wallet s)
        then none
        else resolve_agent_by_wallet address s)
unfolding unbind_wallet resolve_agent_by_wallet
unbind_wallet-resolve agent wallet address s = elim (Option-cases (load_wallet_binding wallet s)) [
  | inl e ↦ rw (e, unbind_wallet) (ground arith)
  | inr (binding, e) ↦ elim (Bool-cases (text_eq binding.agent agent.id)) [
    | inl own ↦
        rw (e, unbind_wallet, own, load-remove (λ b. b.id) wallet address s.wallet_bindings)
          (ground arith)
    | inr foreign ↦ rw (e, unbind_wallet, foreign) (ground arith)
  ]
]

-- The two workspaces after an engagement opens: each has its count raised, except that the client's
-- is lost where the two are one.
pub open_engagement-counts :
    {P : Type 0} (host : Host) (job : Job) (client provider : Agent) (event : Event P) (s : Store)
    → (load_agent provider.id (open_engagement host job client provider event s).1
        ≡ some (record provider { jobs_as_provider = provider.jobs_as_provider + 1 }))
      × (load_agent client.id (open_engagement host job client provider event s).1
          ≡ some (
              if text_eq provider.id client.id
              then record provider { jobs_as_provider = provider.jobs_as_provider + 1 }
              else record client { jobs_as_client = client.jobs_as_client + 1 }))
unfolding open_engagement
open_engagement-counts host job client provider event s =
    let raised : Agent = record provider { jobs_as_provider = provider.jobs_as_provider + 1 } in
    let first : Agent = record client { jobs_as_client = client.jobs_as_client + 1 } in
    (
      load-save (λ a. a.id) raised _,
      elim (Bool-cases (text_eq provider.id client.id)) [
        | inl e ↦ rw e (
            ap (λ i. load_agent i (open_engagement host job client provider event s).1)
              (sym (text_eq→eq provider.id client.id e))
            ∙ load-save (λ a. a.id) raised _)
        | inr e ↦
            rw e (load-save_other (λ a. a.id) client.id raised _ e ∙ load-save (λ a. a.id) first _)
      ],
    )

-- Marking again does nothing: the job and the store stay as the first marking left them.
pub mark_settled_if_paid-idempotent :
    {P : Type 0} (host : Host) (job : Job) (event : Event P) (s : Store)
    → mark_settled_if_paid host
        (mark_settled_if_paid host job event s).0
        event
        (mark_settled_if_paid host job event s).1
      ≡ mark_settled_if_paid host job event s
unfolding is_not_due
mark_settled_if_paid-idempotent host job event s = elim (Bool-cases (is_not_due job)) [
  | inl e ↦
      rw (mark_settled_if_paid-not_due host job event s e)
        (mark_settled_if_paid-not_due host job event s e)
  | inr e ↦
      rw (mark_settled_if_paid-due host job event s e)
        (mark_settled_if_paid-not_due host _ event _ refl)
]
