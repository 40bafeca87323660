-- ===== src/Subgraph/Commerce/Handled.antt =====
-- The handlers of packages/subgraph-arc/src/commerce that revise a job, each as a move.
use bufi.Base.{ℕ, ◌+◌, ◌≡◌, refl, ap, ◌∙◌, some, arith, Option-cases, inl, inr}
use bufi.Subgraph.Table.{load-key}
use bufi.Subgraph.Schema.{Job, JobStatus, Store}
use bufi.Subgraph.Access.{load_job}
use bufi.Subgraph.Runtime.{Host, Event, block_time}
use bufi.Subgraph.Commerce.Params.{
  BudgetSet, JobFunded, JobSubmitted, JobRejected, JobExpired, EvaluatorFeePaid,
}
use bufi.Subgraph.Commerce.Events.{event_job, touch_job}
use bufi.Subgraph.Commerce.Jobs.{
  handle_budget_set, handle_job_funded, handle_job_submitted, handle_job_rejected,
  handle_job_expired,
}
use bufi.Subgraph.Commerce.Payments.{handle_evaluator_fee_paid}
use bufi.Subgraph.Commerce.Frame.{get_or_create_account-IsFramed}
use bufi.Subgraph.Commerce.Moves.{Move, kept, revised}

-- The job of an event is kept under its own id.
pub event_job-own :
    {P : Type 0} (host : Host) (event : Event P) (job_id : ℕ) (s : Store) (job : Job)
    → event_job host event job_id s ≡ some job
    → load_job job.id s ≡ some job
unfolding event_job
event_job-own host event job_id s job h =
    ap (λ i. load_job i s) (load-key (λ e. e.id) _ job s.jobs h) ∙ h

pub handle_budget_set-Move :
    (host : Host) (event : Event BudgetSet) (s : Store) → Move s (handle_budget_set host event s)
unfolding touch_job handle_budget_set
handle_budget_set-Move host event s =
    elim (Option-cases (event_job host event event.params.job_id s)) [
      | inl e ↦ rw (e, handle_budget_set) (kept (refl, refl))
      | inr (job, e) ↦
          rw (e, handle_budget_set)
            (revised job (touch_job host (record job { budget = event.params.amount }) event)
              (event_job-own host event event.params.job_id s job e) refl refl refl (omega arith)
              (λ right. right) (refl, refl))
    ]

pub handle_job_funded-Move :
    (host : Host) (event : Event JobFunded) (s : Store) → Move s (handle_job_funded host event s)
unfolding touch_job handle_job_funded
handle_job_funded-Move host event s =
    elim (Option-cases (event_job host event event.params.job_id s)) [
      | inl e ↦ rw (e, handle_job_funded) (kept (refl, refl))
      | inr (job, e) ↦
          rw (e, handle_job_funded)
            (revised job (touch_job host (record job { status = JobStatus.funded }) event)
              (event_job-own host event event.params.job_id s job e) refl refl refl (omega arith)
              (λ right. (right.0, λ c positive. absurd cc))
              (get_or_create_account-IsFramed event.params.client _))
    ]

pub handle_job_submitted-Move :
    (host : Host) (event : Event JobSubmitted) (s : Store)
    → Move s (handle_job_submitted host event s)
unfolding touch_job handle_job_submitted
handle_job_submitted-Move host event s =
    elim (Option-cases (event_job host event event.params.job_id s)) [
      | inl e ↦ rw (e, handle_job_submitted) (kept (refl, refl))
      | inr (job, e) ↦
          rw (e, handle_job_submitted)
            (revised job
              (touch_job host
                (record job {
                  status = JobStatus.submitted;
                  submitted_at = some (block_time host event);
                  deliverable = some event.params.deliverable;
                })
                event)
              (event_job-own host event event.params.job_id s job e) refl refl refl (omega arith)
              (λ right. (right.0, λ c positive. absurd cc))
              (get_or_create_account-IsFramed event.params.provider _))
    ]

pub handle_job_rejected-Move :
    (host : Host) (event : Event JobRejected) (s : Store)
    → Move s (handle_job_rejected host event s)
unfolding touch_job handle_job_rejected
handle_job_rejected-Move host event s =
    elim (Option-cases (event_job host event event.params.job_id s)) [
      | inl e ↦ rw (e, handle_job_rejected) (kept (refl, refl))
      | inr (job, e) ↦
          rw (e, handle_job_rejected)
            (revised job
              (touch_job host
                (record job {
                  status = JobStatus.rejected;
                  rejection_reason = some event.params.reason;
                })
                event)
              (event_job-own host event event.params.job_id s job e) refl refl refl (omega arith)
              (λ right. (right.0, λ c positive. absurd cc))
              (get_or_create_account-IsFramed event.params.rejector _))
    ]

pub handle_job_expired-Move :
    (host : Host) (event : Event JobExpired) (s : Store) → Move s (handle_job_expired host event s)
unfolding touch_job handle_job_expired
handle_job_expired-Move host event s =
    elim (Option-cases (event_job host event event.params.job_id s)) [
      | inl e ↦ rw (e, handle_job_expired) (kept (refl, refl))
      | inr (job, e) ↦
          rw (e, handle_job_expired)
            (revised job (touch_job host (record job { status = JobStatus.expired }) event)
              (event_job-own host event event.params.job_id s job e) refl refl refl (omega arith)
              (λ right. (right.0, λ c positive. absurd cc)) (refl, refl))
    ]

pub handle_evaluator_fee_paid-Move :
    (host : Host) (event : Event EvaluatorFeePaid) (s : Store)
    → Move s (handle_evaluator_fee_paid host event s)
unfolding touch_job handle_evaluator_fee_paid
handle_evaluator_fee_paid-Move host event s =
    elim (Option-cases (event_job host event event.params.job_id s)) [
      | inl e ↦ rw (e, handle_evaluator_fee_paid) (kept (refl, refl))
      | inr (job, e) ↦
          rw (e, handle_evaluator_fee_paid)
            (revised job
              (touch_job host
                (record job { evaluator_fee_paid = job.evaluator_fee_paid + event.params.amount })
                event)
              (event_job-own host event event.params.job_id s job e) refl refl refl (omega arith)
              (λ right. right) (get_or_create_account-IsFramed event.params.evaluator _))
    ]
