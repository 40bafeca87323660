-- ===== src/Subgraph/Commerce/Ledger.antt =====
-- The escrow's counts against its jobs: what an entity of packages/subgraph-arc/src/commerce says is
-- compared with the sum over the jobs that name it.
-- that name it, and every move keeps it so.
use bufi.Base.{
  ℕ, ◌+◌, ◌≤◌, ◌≡◌, sym, Option, none, some, List, arith, Bool-cases, inl, inr, if◌then◌else◌,
}
use bufi.Base.Texts.{text_eq, text_eq→eq}
use bufi.Subgraph.Table.{
  Bytes, load, save, total, load-save, load-save_other, total-save, total-save_fresh,
}
use bufi.Subgraph.Schema.{AgenticCommerce, Job, Store}

-- What an escrow's entity says, 0 before it exists.
abbrev pub said : (AgenticCommerce → ℕ) → Option AgenticCommerce → ℕ
said count none = 0
said count (some c) = count c

unfoldable pub booked : (AgenticCommerce → ℕ) → Bytes → List AgenticCommerce → ℕ
booked count id table = said count (load (λ c. c.id) id table)

-- A measure of a job, for the escrow it names only.
unfoldable pub weigh : (Job → ℕ) → Bytes → Job → ℕ
weigh size id job = if text_eq job.agentic_commerce id then size job else 0

unfoldable pub tally : (Job → ℕ) → Bytes → List Job → ℕ
tally size id jobs = total (weigh size id) jobs

-- One count in step with one measure, for every escrow.
abbrev pub IsBooked : (AgenticCommerce → ℕ) → (Job → ℕ) → Store → Type 0
IsBooked count size s = (id : Bytes) → booked count id s.agentic_commerces ≡ tally size id s.jobs

-- An amount that goes to one escrow and to no other.
abbrev pub share : Bytes → Bytes → ℕ → ℕ
share owner id amount = if text_eq owner id then amount else 0

-- A save of an entity over an old one that counted `amount` less.
pub booked-save :
    (count : AgenticCommerce → ℕ) (new : AgenticCommerce) (amount : ℕ) (id : Bytes)
    (t : List AgenticCommerce)
    → said count (load (λ c. c.id) new.id t) + amount ≡ count new
    → booked count id (save (λ c. c.id) new t) ≡ booked count id t + share new.id id amount
unfolding booked
booked-save count new amount id t h = elim (Bool-cases (text_eq new.id id)) [
  | inl same ↦ rw (same, sym (text_eq→eq new.id id same), load-save (λ c. c.id) new t) (sym h)
  | inr other ↦ rw (other, load-save_other (λ c. c.id) id new t other) (omega arith)
]

pub tally-save :
    (size : Job → ℕ) (old new : Job) (amount : ℕ) (id : Bytes) (t : List Job)
    → load (λ j. j.id) new.id t ≡ some old
    → new.agentic_commerce ≡ old.agentic_commerce
    → size new ≡ size old + amount
    → tally size id (save (λ j. j.id) new t)
      ≡ tally size id t + share new.agentic_commerce id amount
unfolding tally weigh
tally-save size old new amount id t h same grown =
    grind (arith, total-save (λ j. j.id) (weigh size id) new old t h)

pub tally-save_fresh :
    (size : Job → ℕ) (new : Job) (id : Bytes) (t : List Job)
    → load (λ j. j.id) new.id t ≡ none
    → tally size id (save (λ j. j.id) new t)
      ≡ tally size id t + share new.agentic_commerce id (size new)
unfolding tally weigh
tally-save_fresh size new id t h = total-save_fresh (λ j. j.id) (weigh size id) new t h

abbrev pub one : Job → ℕ
one job = 1

abbrev pub settled_one : Job → ℕ
settled_one job = if job.settled then 1 else 0

abbrev pub settled_payment : Job → ℕ
settled_payment job = if job.settled then job.provider_payment else 0

-- The counts of every escrow against the jobs that name it. A payment after the first settlement
-- reaches the job and not the volume, so the volume is a bound.
pub record IsBalanced (s : Store) : Type 0 where
  pub job_counts : IsBooked (λ c. c.job_count) one s
  pub settled_counts : IsBooked (λ c. c.settled_job_count) settled_one s
  pub refunds : IsBooked (λ c. c.refunded_volume) (λ j. j.refunded_amount) s
  pub volumes :
      (id : Bytes)
      → booked (λ c. c.settled_volume) id s.agentic_commerces ≤ tally settled_payment id s.jobs
