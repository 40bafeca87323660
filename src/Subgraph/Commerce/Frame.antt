-- ===== src/Subgraph/Commerce/Frame.antt =====
-- What the helpers of the escrow's handlers leave alone: the jobs and the escrows' own entities.
use bufi.Base.{ℕ, ◌≡◌, refl, ap, ◌∙◌, Option, none, some, Option-cases, Bool-cases, inl, inr}
use bufi.Base.Texts.{text_eq}
use bufi.Subgraph.Table.{Bytes, zero_address, save}
use bufi.Subgraph.Schema.{Job, Timestamp, Store}
use bufi.Subgraph.Access.{save_job, load_account, load_agent, load_engagement}
use bufi.Subgraph.Runtime.{get_or_create_account}
use bufi.Subgraph.Commerce.Settlement.{
  record_agent_metric, settle_provider, settle_client, settle_engagement, refund_client,
  refund_engagement,
}
use bufi.Subgraph.Commerce.Jobs.{optional_account}

abbrev pub IsFramed : Store → Store → Type 0
IsFramed s t = (t.jobs ≡ s.jobs) × (t.agentic_commerces ≡ s.agentic_commerces)

pub IsFramed-trans : (s t u : Store) → IsFramed s t → IsFramed t u → IsFramed s u
IsFramed-trans s t u p q = (q.0 ∙ p.0, q.1 ∙ p.1)

pub save_job-IsFramed :
    (job : Job) (s t : Store) → IsFramed s t → IsFramed (save_job job s) (save_job job t)
save_job-IsFramed job s t (p, q) = (ap (save (λ j. j.id) job) p, q)

pub get_or_create_account-IsFramed :
    (a : Bytes) (s : Store) → IsFramed s (get_or_create_account a s).1
unfolding get_or_create_account
get_or_create_account-IsFramed a s = elim (Option-cases (load_account a s)) [
  | inl e ↦ rw (e, get_or_create_account) (refl, refl)
  | inr e ↦ rw (e.1, get_or_create_account) (refl, refl)
]

pub optional_account-IsFramed : (a : Bytes) (s : Store) → IsFramed s (optional_account a s).1
unfolding optional_account
optional_account-IsFramed a s = elim (Bool-cases (text_eq a zero_address)) [
  | inl e ↦ rw e (refl, refl)
  | inr e ↦ rw e (get_or_create_account-IsFramed a s)
]

pub settle_provider-IsFramed :
    (id : Option Bytes) (amount : ℕ) (at : Timestamp) (s : Store)
    → IsFramed s (settle_provider id amount at s)
unfolding record_agent_metric settle_provider
settle_provider-IsFramed none amount at s = (refl, refl)
settle_provider-IsFramed (some id) amount at s = elim (Option-cases (load_agent id s)) [
  | inl e ↦ rw (e, settle_provider) (refl, refl)
  | inr e ↦ rw (e.1, settle_provider) (refl, refl)
]

pub settle_client-IsFramed :
    (id : Option Bytes) (amount : ℕ) (at : Timestamp) (s : Store)
    → IsFramed s (settle_client id amount at s)
unfolding record_agent_metric settle_client
settle_client-IsFramed none amount at s = (refl, refl)
settle_client-IsFramed (some id) amount at s = elim (Option-cases (load_agent id s)) [
  | inl e ↦ rw (e, settle_client) (refl, refl)
  | inr e ↦ rw (e.1, settle_client) (refl, refl)
]

pub settle_engagement-IsFramed :
    (id : Option Bytes) (job : Bytes) (amount : ℕ) (at : Timestamp) (s : Store)
    → IsFramed s (settle_engagement id job amount at s)
unfolding settle_engagement
settle_engagement-IsFramed none job amount at s = (refl, refl)
settle_engagement-IsFramed (some id) job amount at s = elim (Option-cases (load_engagement id s)) [
  | inl e ↦ rw (e, settle_engagement) (refl, refl)
  | inr e ↦ rw (e.1, settle_engagement) (refl, refl)
]

pub refund_client-IsFramed :
    (id : Option Bytes) (amount : ℕ) (at : Timestamp) (s : Store)
    → IsFramed s (refund_client id amount at s)
unfolding record_agent_metric refund_client
refund_client-IsFramed none amount at s = (refl, refl)
refund_client-IsFramed (some id) amount at s = elim (Option-cases (load_agent id s)) [
  | inl e ↦ rw (e, refund_client) (refl, refl)
  | inr e ↦ rw (e.1, refund_client) (refl, refl)
]

pub refund_engagement-IsFramed :
    (id : Option Bytes) (amount : ℕ) (at : Timestamp) (s : Store)
    → IsFramed s (refund_engagement id amount at s)
unfolding refund_engagement
refund_engagement-IsFramed none amount at s = (refl, refl)
refund_engagement-IsFramed (some id) amount at s = elim (Option-cases (load_engagement id s)) [
  | inl e ↦ rw (e, refund_engagement) (refl, refl)
  | inr e ↦ rw (e.1, refund_engagement) (refl, refl)
]

-- All that a settlement does after the escrow's own count.
pub settle_parties-IsFramed :
    (provider client engagement : Option Bytes) (job : Bytes) (amount : ℕ) (at : Timestamp)
    (s : Store)
    → IsFramed s (
        settle_engagement engagement job amount at
          (settle_client client amount at (settle_provider provider amount at s)))
settle_parties-IsFramed provider client engagement job amount at s =
    let s1 = settle_provider provider amount at s in
    let s2 = settle_client client amount at s1 in
    let s3 = settle_engagement engagement job amount at s2 in
    IsFramed-trans s s2 s3
      (IsFramed-trans s s1 s2 (settle_provider-IsFramed provider amount at s)
        (settle_client-IsFramed client amount at s1))
      (settle_engagement-IsFramed engagement job amount at s2)

-- All that a refund does after the escrow's own volume.
pub refund_parties-IsFramed :
    (client engagement : Option Bytes) (amount : ℕ) (at : Timestamp) (s : Store)
    → IsFramed s (refund_engagement engagement amount at (refund_client client amount at s))
refund_parties-IsFramed client engagement amount at s =
    let s1 = refund_client client amount at s in
    IsFramed-trans s s1 (refund_engagement engagement amount at s1)
      (refund_client-IsFramed client amount at s)
      (refund_engagement-IsFramed engagement amount at s1)
