-- ===== src/Subgraph/Commerce/Growth.antt =====
-- Counts of an escrow and sums over its jobs that grow by the same amounts.
-- that name it, and every move keeps it so.
use bufi.Base.{
  ℕ, ◌+◌, ◌-◌, ◌≤◌, ◌≡◌, refl, ap, sym, false, none, some, List, arith, Option-cases, inl, inr,
}
use bufi.Base.Texts.{text_eq_self}
use bufi.Subgraph.Table.{Bytes, load, save, total-load}
use bufi.Subgraph.Schema.{AgenticCommerce, Job, Store}
use bufi.Subgraph.Access.{load_job, save_job, load_agentic_commerce, save_agentic_commerce}
use bufi.Subgraph.Commerce.Frame.{IsFramed}
use bufi.Subgraph.Commerce.Moves.{counts}
use bufi.Subgraph.Commerce.Ledger.{
  said, booked, weigh, tally, share, booked-save, tally-save, tally-save_fresh, one, settled_one,
  settled_payment, IsBalanced,
}

abbrev HasGrown :
    (AgenticCommerce → ℕ) → Bytes → ℕ → List AgenticCommerce → List AgenticCommerce → Type 0
HasGrown count owner amount t u =
    (id : Bytes) → booked count id u ≡ booked count id t + share owner id amount

abbrev JobsGrown : (Job → ℕ) → Bytes → ℕ → List Job → List Job → Type 0
JobsGrown size owner amount t u =
    (id : Bytes) → tally size id u ≡ tally size id t + share owner id amount

-- An escrow whose counts all grow, and the jobs with them, by the same amounts.
pub grown-IsBalanced :
    (s t : Store) (owner : Bytes) (a b c d e : ℕ)
    → d ≤ e
    → HasGrown (λ c. c.job_count) owner a s.agentic_commerces t.agentic_commerces
    → HasGrown (λ c. c.settled_job_count) owner b s.agentic_commerces t.agentic_commerces
    → HasGrown (λ c. c.refunded_volume) owner c s.agentic_commerces t.agentic_commerces
    → HasGrown (λ c. c.settled_volume) owner d s.agentic_commerces t.agentic_commerces
    → JobsGrown one owner a s.jobs t.jobs
    → JobsGrown settled_one owner b s.jobs t.jobs
    → JobsGrown (λ j. j.refunded_amount) owner c s.jobs t.jobs
    → JobsGrown settled_payment owner e s.jobs t.jobs
    → IsBalanced s
    → IsBalanced t
grown-IsBalanced s t owner a b c d e le g0 g1 g2 g3 j0 j1 j2 j3 balance = record {
  job_counts = λ id. rw (g0 id, j0 id, balance.job_counts id) refl;
  settled_counts = λ id. rw (g1 id, j1 id, balance.settled_counts id) refl;
  refunds = λ id. rw (g2 id, j2 id, balance.refunds id) refl;
  volumes = λ id. rw (g3 id, j3 id) (ground (arith, balance.volumes id));
}

-- A store with the same jobs and escrows is as balanced.
pub framed-IsBalanced : (s t : Store) → IsFramed s t → IsBalanced s → IsBalanced t
framed-IsBalanced s t (p, q) balance = record {
  job_counts = λ id. rw (p, q) (balance.job_counts id);
  settled_counts = λ id. rw (p, q) (balance.settled_counts id);
  refunds = λ id. rw (p, q) (balance.refunds id);
  volumes = λ id. rw (p, q) (balance.volumes id);
}

tally-load :
    (id : Bytes) (job : Job) (t : List Job)
    → load (λ j. j.id) id t ≡ some job
    → 1 ≤ tally one job.agentic_commerce t
unfolding tally weigh
tally-load id job t h = ground (
  arith,
  total-load (λ j. j.id) (weigh one job.agentic_commerce) id job t h,
  text_eq_self job.agentic_commerce,
)

booked_missing :
    (count : AgenticCommerce → ℕ) (id : Bytes) (t : List AgenticCommerce)
    → load (λ c. c.id) id t ≡ none
    → booked count id t ≡ 0
unfolding booked
booked_missing count id t h = rw h refl

-- A job that is kept has an escrow that is kept: its count is not 0.
pub escrow-of :
    (s : Store) (id : Bytes) (job : Job)
    → IsBalanced s
    → load_job id s ≡ some job
    → (c : AgenticCommerce) × (load_agentic_commerce job.agentic_commerce s ≡ some c)
escrow-of s id job balance h = elim (Option-cases (load_agentic_commerce job.agentic_commerce s)) [
  | inl missing ↦ absurd (
      omega (
        arith,
        balance.job_counts job.agentic_commerce,
        tally-load id job s.jobs h,
        booked_missing (λ c. c.job_count) job.agentic_commerce s.agentic_commerces missing,
      ))
  | inr found ↦ found
]

pub grown_entity :
    (count : AgenticCommerce → ℕ) (old new : AgenticCommerce) (amount : ℕ)
    (t : List AgenticCommerce)
    → load (λ c. c.id) new.id t ≡ some old
    → count new ≡ count old + amount
    → HasGrown count new.id amount t (save (λ c. c.id) new t)
grown_entity count old new amount t h e id = booked-save count new amount id t (rw h (sym e))

same_jobs : (size : Job → ℕ) (owner : Bytes) (t : List Job) → JobsGrown size owner 0 t t
same_jobs size owner t id = ground arith

same_entities :
    (count : AgenticCommerce → ℕ) (owner : Bytes) (t : List AgenticCommerce)
    → HasGrown count owner 0 t t
same_entities count owner t id = ground arith

-- Of a job that is kept, a save of another state of it.
pub grown_jobs :
    (size : Job → ℕ) (old new : Job) (amount : ℕ) (t : List Job)
    → load (λ j. j.id) new.id t ≡ some old
    → new.agentic_commerce ≡ old.agentic_commerce
    → size new ≡ size old + amount
    → JobsGrown size new.agentic_commerce amount t (save (λ j. j.id) new t)
grown_jobs size old new amount t h same e id = tally-save size old new amount id t h same e

pub revised-IsBalanced :
    (s : Store) (old new : Job)
    → load_job new.id s ≡ some old
    → new.agentic_commerce ≡ old.agentic_commerce
    → new.settled ≡ old.settled
    → new.refunded_amount ≡ old.refunded_amount
    → old.provider_payment ≤ new.provider_payment
    → IsBalanced s
    → IsBalanced (save_job new s)
revised-IsBalanced s old new h same settled refunded le balance =
    let owner = new.agentic_commerce in
    let more = settled_payment new - settled_payment old in
    let le' : settled_payment old ≤ settled_payment new = ground arith in
    grown-IsBalanced s (save_job new s) owner 0 0 0 0 more (omega arith)
      (same_entities _ owner s.agentic_commerces) (same_entities _ owner s.agentic_commerces)
      (same_entities _ owner s.agentic_commerces) (same_entities _ owner s.agentic_commerces)
      (grown_jobs one old new 0 s.jobs h same refl)
      (grown_jobs settled_one old new 0 s.jobs h same (ground arith))
      (grown_jobs (λ j. j.refunded_amount) old new 0 s.jobs h same (ground arith))
      (grown_jobs settled_payment old new more s.jobs h same (ground arith)) balance

-- An escrow's entity that is saved anew with the jobs left alone.
pub retouched-IsBalanced :
    (s : Store) (new : AgenticCommerce)
    → said (λ c. c.job_count) (load_agentic_commerce new.id s) ≡ new.job_count
    → said (λ c. c.settled_job_count) (load_agentic_commerce new.id s) ≡ new.settled_job_count
    → said (λ c. c.settled_volume) (load_agentic_commerce new.id s) ≡ new.settled_volume
    → said (λ c. c.refunded_volume) (load_agentic_commerce new.id s) ≡ new.refunded_volume
    → IsBalanced s
    → IsBalanced (save_agentic_commerce new s)
retouched-IsBalanced s new p q r u balance =
    grown-IsBalanced s (save_agentic_commerce new s) new.id 0 0 0 0 0 (omega arith)
      (λ id. booked-save (λ c. c.job_count) new 0 id s.agentic_commerces (omega arith))
      (λ id. booked-save (λ c. c.settled_job_count) new 0 id s.agentic_commerces (omega arith))
      (λ id. booked-save (λ c. c.refunded_volume) new 0 id s.agentic_commerces (omega arith))
      (λ id. booked-save (λ c. c.settled_volume) new 0 id s.agentic_commerces (omega arith))
      (same_jobs one new.id s.jobs) (same_jobs settled_one new.id s.jobs)
      (same_jobs (λ j. j.refunded_amount) new.id s.jobs) (same_jobs settled_payment new.id s.jobs)
      balance

pub entered-IsBalanced :
    (s : Store) (job : Job) (old new : AgenticCommerce)
    → load_job job.id s ≡ none
    → load_agentic_commerce new.id s ≡ some old
    → job.agentic_commerce ≡ new.id
    → job.settled ≡ false
    → job.refunded_amount ≡ 0
    → counts new
      ≡ (old.job_count + 1, old.settled_job_count, old.settled_volume, old.refunded_volume)
    → IsBalanced s
    → IsBalanced (save_agentic_commerce new (save_job job s))
entered-IsBalanced s job old new fresh found owner unsettled unrefunded counted balance =
    grown-IsBalanced s (save_agentic_commerce new (save_job job s)) new.id 1 0 0 0 0 (omega arith)
      (grown_entity (λ c. c.job_count) old new 1 s.agentic_commerces found (ap (λ p. p.0) counted))
      (grown_entity (λ c. c.settled_job_count) old new 0 s.agentic_commerces found
        (omega (arith, ap (λ p. p.1) counted)))
      (grown_entity (λ c. c.refunded_volume) old new 0 s.agentic_commerces found
        (omega (arith, ap (λ p. p.3) counted)))
      (grown_entity (λ c. c.settled_volume) old new 0 s.agentic_commerces found
        (omega (arith, ap (λ p. p.2) counted)))
      (fresh_jobs one 1 refl) (fresh_jobs settled_one 0 (rw unsettled refl))
      (fresh_jobs (λ j. j.refunded_amount) 0 unrefunded)
      (fresh_jobs settled_payment 0 (rw unsettled refl)) balance
  where
    fresh_jobs :
        (size : Job → ℕ) (amount : ℕ)
        → size job ≡ amount
        → JobsGrown size new.id amount s.jobs (save (λ j. j.id) job s.jobs)
    fresh_jobs size amount e id = rw (sym owner, sym e) (tally-save_fresh size job id s.jobs fresh)

-- The entity of a job's escrow, once it is found, is under its own id.
