-- ===== src/Subgraph/Commerce/Paid.antt =====
-- The moves of the handlers in packages/subgraph-arc/src/commerce through which money leaves.
use bufi.Base.{
  ◌+◌, ◌≤◌, ◌≡◌, ◌≢◌, refl, ap, sym, ◌∙◌, true, false, some, arith, Option-cases, Bool-cases, inl,
  inr,
}
use mathlib.Core.Path.{subst}
use bufi.Subgraph.Schema.{Job, JobStatus, Store}
use bufi.Subgraph.Access.{load_job, save_job}
use bufi.Subgraph.Runtime.{Host, Event, get_or_create_account, block_time}
use bufi.Subgraph.Commerce.Params.{JobCompleted, PaymentReleased, Refunded}
use bufi.Subgraph.Commerce.Events.{event_job, touch_job}
use bufi.Subgraph.Commerce.Settlement.{
  mark_settled_if_paid, is_not_due, is_completed, settle_provider, settle_client, settle_engagement,
  settle_commerce, mark_settled_if_paid-due, mark_settled_if_paid-not_due, refund_commerce,
  record_refund,
}
use bufi.Subgraph.Commerce.Jobs.{handle_job_completed}
use bufi.Subgraph.Commerce.Payments.{handle_payment_released, handle_refunded}
use bufi.Subgraph.Commerce.Frame.{
  IsFramed, IsFramed-trans, save_job-IsFramed, get_or_create_account-IsFramed,
  settle_parties-IsFramed, refund_parties-IsFramed,
}
use bufi.Subgraph.Commerce.Moves.{Move, kept, revised, paid, returned, IsSettledRight}
use bufi.Subgraph.Commerce.Handled.{event_job-own}

-- Guards that let nothing through leave a job as right as it was.
not_due-IsSettledRight :
    (old new : Job)
    → is_not_due new ≡ true
    → new.settled ≡ old.settled
    → old.provider_payment ≤ new.provider_payment
    → IsSettledRight old
    → IsSettledRight new
unfolding is_not_due
not_due-IsSettledRight old new h same le right = (
  λ e zero_payment. right.0 (sym same ∙ e) (omega arith),
  λ e positive. ground (arith, ap is_completed e),
)

due-facts :
    (job : Job) → is_not_due job ≡ false → (job.settled ≡ false) × (job.provider_payment ≢ 0)
unfolding is_not_due
due-facts job h = ground arith

-- A job that is marked is revised, or settled with the escrow's counts.
marked-Move :
    {P : Type 0} (host : Host) (event : Event P) (s : Store) (old new : Job)
    → load_job new.id s ≡ some old
    → new.agentic_commerce ≡ old.agentic_commerce
    → new.settled ≡ old.settled
    → new.refunded_amount ≡ old.refunded_amount
    → old.provider_payment ≤ new.provider_payment
    → (t : Store)
    → IsFramed
        (save_job
          (mark_settled_if_paid host new event s).0
          (mark_settled_if_paid host new event s).1)
        t
    → Move s t
unfolding settle_commerce
marked-Move host event s old new h same settled refunded le t framed =
    elim (Bool-cases (is_not_due new)) [
      | inl e ↦
          revised old new h same settled refunded le (not_due-IsSettledRight old new e settled le) (
            subst (λ m. IsFramed (save_job m.0 m.1) t)
              (mark_settled_if_paid-not_due host new event s e) framed)
      | inr e ↦
          let at = block_time host event in
          let marked : Job = record new { settled = true; settled_at = some at } in
          let facts = due-facts new e in
          let amount = new.provider_payment in
          let s1 = settle_commerce new amount at s in
          let s2 = settle_engagement new.engagement new.id amount at (
            settle_client new.client_agent amount at
              (settle_provider new.provider_agent amount at s1)) in
          paid old marked at h same (sym settled ∙ facts.0) refl refunded facts.1 (
            IsFramed-trans (save_job marked s1) (save_job marked s2) t
              (save_job-IsFramed marked s1 s2 (
                settle_parties-IsFramed new.provider_agent new.client_agent new.engagement new.id
                  amount at s1))
              (subst (λ m. IsFramed (save_job m.0 m.1) t)
                (mark_settled_if_paid-due host new event s e) framed))
    ]

pub handle_job_completed-Move :
    (host : Host) (event : Event JobCompleted) (s : Store)
    → Move s (handle_job_completed host event s)
unfolding touch_job handle_job_completed
handle_job_completed-Move host event s =
    elim (Option-cases (event_job host event event.params.job_id s)) [
      | inl e ↦ rw (e, handle_job_completed) (kept (refl, refl))
      | inr (job, e) ↦
          let completed = record job {
            status = JobStatus.completed;
            completion_reason = some event.params.reason;
          } in
          rw (e, handle_job_completed)
            (marked-Move host event s job (touch_job host completed event)
              (event_job-own host event event.params.job_id s job e) refl refl refl (omega arith) _
              (get_or_create_account-IsFramed event.params.evaluator _))
    ]

pub handle_payment_released-Move :
    (host : Host) (event : Event PaymentReleased) (s : Store)
    → Move s (handle_payment_released host event s)
unfolding touch_job handle_payment_released
handle_payment_released-Move host event s =
    elim (Option-cases (event_job host event event.params.job_id s)) [
      | inl e ↦ rw (e, handle_payment_released) (kept (refl, refl))
      | inr (job, e) ↦
          let paid_job = record job {
            provider_payment = job.provider_payment + event.params.amount;
          } in
          rw (e, handle_payment_released)
            (marked-Move host event s job (touch_job host paid_job event)
              (event_job-own host event event.params.job_id s job e) refl refl refl (omega arith) _
              (get_or_create_account-IsFramed event.params.provider _))
    ]

pub handle_refunded-Move :
    (host : Host) (event : Event Refunded) (s : Store) → Move s (handle_refunded host event s)
unfolding touch_job handle_refunded record_refund
handle_refunded-Move host event s =
    elim (Option-cases (event_job host event event.params.job_id s)) [
      | inl e ↦ rw (e, handle_refunded) (kept (refl, refl))
      | inr (job, e) ↦
          let amount = event.params.amount in
          let at = block_time host event in
          let new =
            touch_job host (record job { refunded_amount = job.refunded_amount + amount }) event in
          let booked = refund_commerce new amount at (save_job new s) in
          let after = record_refund host new amount event (save_job new s) in
          rw (e, handle_refunded)
            (returned job new amount at (event_job-own host event event.params.job_id s job e) refl
              refl refl refl (λ right. right)
              (IsFramed-trans booked after (get_or_create_account event.params.client after).1
                (refund_parties-IsFramed new.client_agent new.engagement amount at booked)
                (get_or_create_account-IsFramed event.params.client after)))
    ]
