-- ===== src/Subgraph/Commerce/Params.antt =====
-- The parameters of the escrow's events, as the handlers of packages/subgraph-arc/src/commerce read
-- them. Amounts, ids and times are unsigned.
use bufi.Base.{ℕ, Bool}
use bufi.Subgraph.Table.{Bytes}

pub record JobCreated : Type 0 where
  pub job_id : ℕ
  pub client : Bytes
  pub provider : Bytes
  pub evaluator : Bytes
  pub expired_at : ℕ
  pub hook : Bytes

pub record ProviderSet : Type 0 where
  pub job_id : ℕ
  pub provider : Bytes

pub record BudgetSet : Type 0 where
  pub job_id : ℕ
  pub amount : ℕ

pub record JobFunded : Type 0 where
  pub job_id : ℕ
  pub client : Bytes
  pub amount : ℕ

pub record JobSubmitted : Type 0 where
  pub job_id : ℕ
  pub provider : Bytes
  pub deliverable : Bytes

pub record JobCompleted : Type 0 where
  pub job_id : ℕ
  pub evaluator : Bytes
  pub reason : Bytes

pub record JobRejected : Type 0 where
  pub job_id : ℕ
  pub rejector : Bytes
  pub reason : Bytes

pub record JobExpired : Type 0 where
  pub job_id : ℕ

pub record PaymentReleased : Type 0 where
  pub job_id : ℕ
  pub provider : Bytes
  pub amount : ℕ

pub record EvaluatorFeePaid : Type 0 where
  pub job_id : ℕ
  pub evaluator : Bytes
  pub amount : ℕ

pub record Refunded : Type 0 where
  pub job_id : ℕ
  pub client : Bytes
  pub amount : ℕ

pub record HookWhitelistUpdated : Type 0 where
  pub hook : Bytes
  pub status : Bool

pub record Upgraded : Type 0 where
  pub implementation : Bytes
