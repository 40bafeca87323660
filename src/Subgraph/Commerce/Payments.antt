-- ===== src/Subgraph/Commerce/Payments.antt =====
-- packages/subgraph-arc/src/commerce/payments.ts: the handlers of the money that leaves the escrow.
use bufi.Base.{◌+◌, none, some}
use bufi.Subgraph.Schema.{JobEventKind, Store}
use bufi.Subgraph.Access.{save_job, save_job_event}
use bufi.Subgraph.Runtime.{Host, Event, get_or_create_account}
use bufi.Subgraph.Commerce.Params.{PaymentReleased, EvaluatorFeePaid, Refunded}
use bufi.Subgraph.Commerce.Events.{event_job, touch_job, create_job_event}
use bufi.Subgraph.Commerce.Settlement.{mark_settled_if_paid, record_refund}

unfoldable pub handle_payment_released : Host → Event PaymentReleased → Store → Store
handle_payment_released host event s = elim (event_job host event event.params.job_id s) [
  | none ↦ s
  | some found ↦
      let paid = record found { provider_payment = found.provider_payment + event.params.amount } in
      let marked = mark_settled_if_paid host (touch_job host paid event) event s in
      let job = marked.0 in
      let provider = get_or_create_account event.params.provider (save_job job marked.1) in
      let entry = record (create_job_event host event job JobEventKind.payment_released) {
        actor = some provider.0.id;
        amount = some event.params.amount;
      } in
      save_job_event entry provider.1
]

unfoldable pub handle_evaluator_fee_paid : Host → Event EvaluatorFeePaid → Store → Store
handle_evaluator_fee_paid host event s = elim (event_job host event event.params.job_id s) [
  | none ↦ s
  | some found ↦
      let paid = record found {
        evaluator_fee_paid = found.evaluator_fee_paid + event.params.amount;
      } in
      let job = touch_job host paid event in
      let evaluator = get_or_create_account event.params.evaluator (save_job job s) in
      let entry = record (create_job_event host event job JobEventKind.evaluator_fee_paid) {
        actor = some evaluator.0.id;
        amount = some event.params.amount;
      } in
      save_job_event entry evaluator.1
]

unfoldable pub handle_refunded : Host → Event Refunded → Store → Store
handle_refunded host event s = elim (event_job host event event.params.job_id s) [
  | none ↦ s
  | some found ↦
      let returned = record found {
        refunded_amount = found.refunded_amount + event.params.amount;
      } in
      let job = touch_job host returned event in
      let booked = record_refund host job event.params.amount event (save_job job s) in
      let client = get_or_create_account event.params.client booked in
      let entry = record (create_job_event host event job JobEventKind.refunded) {
        actor = some client.0.id;
        amount = some event.params.amount;
      } in
      save_job_event entry client.1
]
