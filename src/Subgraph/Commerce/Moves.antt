-- ===== src/Subgraph/Commerce/Moves.antt =====
-- What each of the escrow's handlers does to the jobs and to the escrows' own entities, in one
-- relation: the handlers of packages/subgraph-arc/src/commerce are each one of its five moves.
use bufi.Base.{ℕ, ◌+◌, ◌≤◌, ◌≡◌, ◌≢◌, true, false, none, some}
use bufi.Subgraph.Schema.{AgenticCommerce, Job, JobStatus, Timestamp, Store}
use bufi.Subgraph.Access.{load_job, save_job, load_agentic_commerce, save_agentic_commerce}
use bufi.Subgraph.Commerce.Settlement.{settle_commerce, refund_commerce}
use bufi.Subgraph.Commerce.Frame.{IsFramed}

-- A job settles at its completion and its payment, and not without either.
abbrev pub IsSettledRight : Job → Type 0
IsSettledRight job =
    (job.settled ≡ true → job.provider_payment ≢ 0)
    × (job.status ≡ JobStatus.completed → job.provider_payment ≢ 0 → job.settled ≡ true)

-- The counts that an escrow's entity keeps.
abbrev pub counts : AgenticCommerce → ℕ × ℕ × ℕ × ℕ
counts c = (c.job_count, c.settled_job_count, c.settled_volume, c.refunded_volume)

-- The store before a handler and the one after it, up to what no ledger reads.
pub data Move : Store → Store → Type 0 where
  kept : {s t : Store} → IsFramed s t → Move s t
  both : {s t u : Store} → Move s t → Move t u → Move s u
  revised :
      {s t : Store} (old new : Job)
      → load_job new.id s ≡ some old
      → new.agentic_commerce ≡ old.agentic_commerce
      → new.settled ≡ old.settled
      → new.refunded_amount ≡ old.refunded_amount
      → old.provider_payment ≤ new.provider_payment
      → (IsSettledRight old → IsSettledRight new)
      → IsFramed (save_job new s) t
      → Move s t
  paid :
      {s t : Store} (old new : Job) (at : Timestamp)
      → load_job new.id s ≡ some old
      → new.agentic_commerce ≡ old.agentic_commerce
      → old.settled ≡ false
      → new.settled ≡ true
      → new.refunded_amount ≡ old.refunded_amount
      → new.provider_payment ≢ 0
      → IsFramed (save_job new (settle_commerce new new.provider_payment at s)) t
      → Move s t
  returned :
      {s t : Store} (old new : Job) (amount : ℕ) (at : Timestamp)
      → load_job new.id s ≡ some old
      → new.agentic_commerce ≡ old.agentic_commerce
      → new.settled ≡ old.settled
      → new.refunded_amount ≡ old.refunded_amount + amount
      → new.provider_payment ≡ old.provider_payment
      → (IsSettledRight old → IsSettledRight new)
      → IsFramed (refund_commerce new amount at (save_job new s)) t
      → Move s t
  sighted :
      {s t : Store} (c : AgenticCommerce)
      → load_agentic_commerce c.id s ≡ none
      → counts c ≡ (0, 0, 0, 0)
      → IsFramed (save_agentic_commerce c s) t
      → Move s t
  retouched :
      {s t : Store} (old new : AgenticCommerce)
      → load_agentic_commerce new.id s ≡ some old
      → counts new ≡ counts old
      → IsFramed (save_agentic_commerce new s) t
      → Move s t
  entered :
      {s t : Store} (job : Job) (old new : AgenticCommerce)
      → load_job job.id s ≡ none
      → load_agentic_commerce new.id s ≡ some old
      → job.agentic_commerce ≡ new.id
      → job.settled ≡ false
      → job.refunded_amount ≡ 0
      → job.status ≡ JobStatus.opened
      → counts new
        ≡ (old.job_count + 1, old.settled_job_count, old.settled_volume, old.refunded_volume)
      → IsFramed (save_agentic_commerce new (save_job job s)) t
      → Move s t
