-- ===== src/Cre/Records.antt =====
-- The rows that packages/cre/src/evidence.ts commits to, and the commitments. A member of type
-- `string | number` or `unknown` is a value; one that may be null, or absent, is an option.
use bufi.Base.{Option}
use bufi.Base.Texts.{Text}
use bufi.Cre.Json.{Number, Value}
use bufi.Cre.Reference.{
  ContractLifecycleEvidenceEvent, ProjectEvidencePhase, ReimbursementEvidencePhase,
}

pub record PayrollEvidenceRecord : Type 0 where
  pub payroll_id : Text
  pub team_id : Text
  pub status : Text
  pub pay_period_start : Text
  pub pay_period_end : Text
  pub total_amount_usdc : Value
  pub total_amount_eurc : Value
  pub recipient_count : Number
  pub recipients : Value
  pub executed_at : Option Text

pub record ContractLifecycleEvidenceRecord : Type 0 where
  pub agreement_id : Text
  pub team_id : Text
  pub status : Text
  pub agreement_hash : Option Text
  pub chain_id : Option Number
  pub total_amount : Value
  pub funded_amount : Value
  pub funded_at : Option Text
  pub escrow_address : Option Text
  pub updated_at : Text
  pub agreement : Value

pub record ReportEvidenceRecord : Type 0 where
  pub report_id : Text
  pub team_id : Text
  pub report_number : Text
  pub status : Text
  pub from_date : Text
  pub to_date : Text
  pub created_at : Text
  pub transactions_data : Value
  pub financial_metrics : Value
  pub ai_analysis : Value

pub record ReimbursementEvidenceRecord : Type 0 where
  pub request_id : Text
  pub team_id : Text
  pub status : Text
  pub currency : Text
  pub subtotal : Value
  pub markup_percent : Option Value
  pub markup_amount : Value
  pub total : Value
  pub sent_at : Option Text
  pub paid_at : Option Text
  pub paid_tx_hash : Option Text

pub record ReimbursementEvidenceFacts : Type 0 where
  pub phase : ReimbursementEvidencePhase
  pub item_count : Number
  pub items_hash : Text
  pub settled_total : Option Value
  pub settlement_count : Option Number

pub record ProjectEvidenceRecord : Type 0 where
  pub project_id : Text
  pub team_id : Text
  pub status : Text
  pub closed_at : Option Text

pub record ProjectEvidenceFacts : Type 0 where
  pub phase : ProjectEvidencePhase
  pub item_count : Number
  pub items_hash : Text
  pub settled_total : Option Value
  pub settlement_count : Option Number

pub record ContractCommitments : Type 0 where
  pub event : ContractLifecycleEvidenceEvent
  pub entity_commitment : Text
  pub agreement_commitment : Text
  pub state_commitment : Text
  pub snapshot_commitment : Text

pub record PayrollCommitments : Type 0 where
  pub entity_commitment : Text
  pub record_commitment : Text
  pub recipient_commitment : Text
  pub batch_commitment : Text

pub record ReimbursementCommitments : Type 0 where
  pub phase : ReimbursementEvidencePhase
  pub entity_commitment : Text
  pub request_commitment : Text
  pub items_hash : Text
  pub settlement_commitment : Text

pub record ReportCommitments : Type 0 where
  pub entity_commitment : Text
  pub report_commitment : Text
  pub transactions_hash : Text
  pub metrics_hash : Text
  pub analysis_hash : Text
  pub combined_hash : Text

pub record ProjectCommitments : Type 0 where
  pub phase : ProjectEvidencePhase
  pub entity_commitment : Text
  pub project_commitment : Text
  pub items_hash : Text
  pub settlement_commitment : Text

pub data CreEvidenceCommitments : Type 0 where
  contract : ContractCommitments → CreEvidenceCommitments
  payroll : PayrollCommitments → CreEvidenceCommitments
  reimbursement : ReimbursementCommitments → CreEvidenceCommitments
  report : ReportCommitments → CreEvidenceCommitments
  project : ProjectCommitments → CreEvidenceCommitments
