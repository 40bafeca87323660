-- ===== src/Subgraph/Access.antt =====
-- The generated schema classes: `load` and `save` of each entity, as functions of the store. A
-- loaded entity is a copy, which no later change of the store reaches.
use bufi.Base.{Option, ◌∷◌}
use bufi.Subgraph.Table.{Bytes, load, save}
use bufi.Subgraph.Schema.{
  AgenticCommerce, Job, JobEvent, Agent, Engagement, Account, WalletBinding, AgentMetricPoint,
  HookAllowlistEntry, ReputationRegistry, Feedback, FeedbackResponse, FeedbackMetricPoint, Store,
}

abbrev pub load_agentic_commerce : Bytes → Store → Option AgenticCommerce
load_agentic_commerce id s = load (λ e. e.id) id s.agentic_commerces

abbrev pub save_agentic_commerce : AgenticCommerce → Store → Store
save_agentic_commerce e s = record s { agentic_commerces = save (λ e. e.id) e s.agentic_commerces }

abbrev pub load_job : Bytes → Store → Option Job
load_job id s = load (λ e. e.id) id s.jobs

abbrev pub save_job : Job → Store → Store
save_job e s = record s { jobs = save (λ e. e.id) e s.jobs }

abbrev pub save_job_event : JobEvent → Store → Store
save_job_event e s = record s { job_events = save (λ e. e.id) e s.job_events }

abbrev pub load_agent : Bytes → Store → Option Agent
load_agent id s = load (λ e. e.id) id s.agents

abbrev pub save_agent : Agent → Store → Store
save_agent e s = record s { agents = save (λ e. e.id) e s.agents }

abbrev pub load_engagement : Bytes → Store → Option Engagement
load_engagement id s = load (λ e. e.id) id s.engagements

abbrev pub save_engagement : Engagement → Store → Store
save_engagement e s = record s { engagements = save (λ e. e.id) e s.engagements }

abbrev pub load_account : Bytes → Store → Option Account
load_account id s = load (λ e. e.id) id s.accounts

abbrev pub save_account : Account → Store → Store
save_account e s = record s { accounts = save (λ e. e.id) e s.accounts }

abbrev pub load_wallet_binding : Bytes → Store → Option WalletBinding
load_wallet_binding id s = load (λ e. e.id) id s.wallet_bindings

abbrev pub save_wallet_binding : WalletBinding → Store → Store
save_wallet_binding e s = record s { wallet_bindings = save (λ e. e.id) e s.wallet_bindings }

abbrev pub load_hook_allowlist_entry : Bytes → Store → Option HookAllowlistEntry
load_hook_allowlist_entry id s = load (λ e. e.id) id s.hook_allowlist_entries

abbrev pub save_hook_allowlist_entry : HookAllowlistEntry → Store → Store
save_hook_allowlist_entry e s = record s {
  hook_allowlist_entries = save (λ e. e.id) e s.hook_allowlist_entries;
}

-- A timeseries entity, whose id the graph node assigns.
abbrev pub save_agent_metric_point : AgentMetricPoint → Store → Store
save_agent_metric_point p s = record s { agent_metric_points = p ∷ s.agent_metric_points }

abbrev pub load_reputation_registry : Bytes → Store → Option ReputationRegistry
load_reputation_registry id s = load (λ e. e.id) id s.reputation_registries

abbrev pub save_reputation_registry : ReputationRegistry → Store → Store
save_reputation_registry e s = record s {
  reputation_registries = save (λ e. e.id) e s.reputation_registries;
}

abbrev pub load_feedback : Bytes → Store → Option Feedback
load_feedback id s = load (λ e. e.id) id s.feedbacks

abbrev pub save_feedback : Feedback → Store → Store
save_feedback e s = record s { feedbacks = save (λ e. e.id) e s.feedbacks }

abbrev pub save_feedback_response : FeedbackResponse → Store → Store
save_feedback_response e s = record s {
  feedback_responses = save (λ e. e.id) e s.feedback_responses;
}

abbrev pub save_feedback_metric_point : FeedbackMetricPoint → Store → Store
save_feedback_metric_point p s = record s { feedback_metric_points = p ∷ s.feedback_metric_points }
