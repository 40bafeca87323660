-- ===== src/Subgraph/Commerce/Settled.antt =====
-- When a job of packages/subgraph-arc/src/commerce is marked settled, after any history.
-- sources between them, from the empty store. What holds after each of them.
use mathlib.Core.Path.{subst}
use bufi.Base.{
  ℕ, zero, suc, ◌≢◌, List, ◌&&◌, not, ◌==◌, ◌≡◌, refl, sym, ap, ◌∙◌, Bool, true, false, Option,
  none, some, [], arith, Option-cases, Bool-cases, inl, inr,
}
use bufi.Base.Texts.{text_eq, text_eq→eq}
use bufi.Subgraph.Table.{Bytes, load, save, load-save, load-save_other}
use bufi.Subgraph.Schema.{Job, JobStatus, Timestamp, Store}
use bufi.Subgraph.Access.{load_job, save_job, load_agentic_commerce, save_agentic_commerce}
use bufi.Subgraph.Runtime.{Host}
use bufi.Subgraph.Commerce.Settlement.{is_completed, settle_commerce, refund_commerce}
use bufi.Subgraph.Commerce.Frame.{IsFramed}
use bufi.Subgraph.Commerce.Moves.{
  Move, kept, both, revised, paid, returned, sighted, retouched, entered, IsSettledRight,
}
use bufi.Subgraph.Commerce.History.{Reachable, dispatch-Move}

-- Every job that a table gives.
abbrev AllRight : List Job → Type 0
AllRight jobs = (id : Bytes) (job : Job) → load (λ j. j.id) id jobs ≡ some job → IsSettledRight job

abbrev IsRight : Option Job → Type 0
IsRight none = Unit
IsRight (some job) = IsSettledRight job

saved-AllRight :
    (new : Job) (jobs : List Job)
    → IsSettledRight new
    → AllRight jobs
    → AllRight (save (λ j. j.id) new jobs)
saved-AllRight new jobs right all id job h = elim (Bool-cases (text_eq new.id id)) [
  | inl same ↦
      subst IsRight
        (sym (load-save (λ j. j.id) new jobs)
          ∙ ap (λ i. load (λ j. j.id) i (save (λ j. j.id) new jobs)) (text_eq→eq new.id id same)
          ∙ h)
        right
  | inr other ↦ all id job (sym (load-save_other (λ j. j.id) id new jobs other) ∙ h)
]

framed-AllRight : (s t : Store) → IsFramed s t → AllRight s.jobs → AllRight t.jobs
framed-AllRight s t framed all = subst AllRight (sym framed.0) all

settle_commerce-jobs :
    (job : Job) (amount : ℕ) (at : Timestamp) (s : Store)
    → (settle_commerce job amount at s).jobs ≡ s.jobs
unfolding settle_commerce
settle_commerce-jobs job amount at s =
    elim (Option-cases (load_agentic_commerce job.agentic_commerce s)) [
      | inl e ↦ rw (e, settle_commerce) refl
      | inr (c, e) ↦ rw (e, settle_commerce) refl
    ]

refund_commerce-jobs :
    (job : Job) (amount : ℕ) (at : Timestamp) (s : Store)
    → (refund_commerce job amount at s).jobs ≡ s.jobs
unfolding refund_commerce
refund_commerce-jobs job amount at s =
    elim (Option-cases (load_agentic_commerce job.agentic_commerce s)) [
      | inl e ↦ rw (e, refund_commerce) refl
      | inr (c, e) ↦ rw (e, refund_commerce) refl
    ]

Move-AllRight : (s t : Store) → Move s t → AllRight s.jobs → AllRight t.jobs
Move-AllRight s t (kept f) all = framed-AllRight s t f all
Move-AllRight s t (both {t = m} p q) all = Move-AllRight m t q (Move-AllRight s m p all)
Move-AllRight s t (revised old new h same settled refunded le right f) all =
    framed-AllRight (save_job new s) t f (saved-AllRight new s.jobs (right (all new.id old h)) all)
Move-AllRight s t (paid old new at h same unsettled settled refunded positive f) all =
    let before = settle_commerce new new.provider_payment at s in
    framed-AllRight (save_job new before) t f (
      saved-AllRight new before.jobs (λ e. positive, λ e nonzero. settled)
        (subst AllRight (sym (settle_commerce-jobs new new.provider_payment at s)) all))
Move-AllRight s t (returned old new amount at h same settled refunded payment right f) all =
    framed-AllRight (refund_commerce new amount at (save_job new s)) t f (
      subst AllRight (sym (refund_commerce-jobs new amount at (save_job new s)))
        (saved-AllRight new s.jobs (right (all new.id old h)) all))
Move-AllRight s t (sighted c h zeros f) all = framed-AllRight (save_agentic_commerce c s) t f all
Move-AllRight s t (retouched old new h same f) all =
    framed-AllRight (save_agentic_commerce new s) t f all
Move-AllRight s t (entered job old new fresh found owner unsettled unrefunded opened counted f)
      all =
    framed-AllRight (save_agentic_commerce new (save_job job s)) t f (
      saved-AllRight job s.jobs
        (
          (λ e. absurd (true-false (sym e ∙ unsettled))),
          λ e nonzero. absurd (opened-completed (sym opened ∙ e)),
        )
        all)
  where
    true-false : true ≡ false → ⊥
    true-false e = cc

    opened-completed : JobStatus.opened ≡ JobStatus.completed → ⊥
    opened-completed e = cc

start-AllRight : AllRight []
unfolding load
start-AllRight id job h = cc

Reachable-AllRight : (host : Host) (s : Store) → Reachable host s → AllRight s.jobs
Reachable-AllRight host s Reachable.start = start-AllRight
Reachable-AllRight host s (Reachable.handled {s = before} call reach allowed) =
    Move-AllRight before s (dispatch-Move host call before allowed)
      (Reachable-AllRight host before reach)
Reachable-AllRight host s (Reachable.elsewhere {s = before} reach framed) =
    framed-AllRight before s framed (Reachable-AllRight host before reach)

settled_test :
    (settled : Bool) (payment : ℕ)
    → (settled ≡ true → payment ≢ 0)
    → (settled && payment == 0) ≡ false
settled_test true payment f = ground (arith, f refl)
settled_test false payment f = refl

completed_test :
    (status : JobStatus) (settled : Bool) (payment : ℕ)
    → (status ≡ JobStatus.completed → payment ≢ 0 → settled ≡ true)
    → (is_completed status && not (payment == 0) && not settled) ≡ false
completed_test JobStatus.completed true payment f = ground arith
completed_test JobStatus.completed false zero f = refl
completed_test JobStatus.completed false (suc payment) f =
    absurd (false-true (f refl (λ e. omega arith)))
  where
    false-true : false ≡ true → ⊥
    false-true e = cc
completed_test JobStatus.opened settled payment f = refl
completed_test JobStatus.funded settled payment f = refl
completed_test JobStatus.submitted settled payment f = refl
completed_test JobStatus.rejected settled payment f = refl
completed_test JobStatus.expired settled payment f = refl

-- After any history, no kept job is marked settled without a payment, and none whose status is
-- COMPLETED has a payment without being marked settled.
pub Reachable-settled :
    (host : Host) (s : Store) (id : Bytes) (job : Job)
    → Reachable host s
    → load_job id s ≡ some job
    → ((job.settled && job.provider_payment == 0) ≡ false)
      × ((is_completed job.status && not (job.provider_payment == 0) && not job.settled) ≡ false)
Reachable-settled host s id job reach h =
    let right = Reachable-AllRight host s reach id job h in
    (
      settled_test job.settled job.provider_payment right.0,
      completed_test job.status job.settled job.provider_payment right.1,
    )
