-- ===== src/Cre/Response.antt =====
-- `parseCreEvidenceCommitments` of packages/cre/src/evidence.ts. The strict `isHex` is a parameter.
pub mod ReadBack
pub mod Sound
use bufi.Base.{
  ℕ, ◌==◌, ◌≡◌, Bool, true, false, not, ◌&&◌, ◌||◌, Option, none, some, [], ◌∷◌, length,
  if◌then◌else◌,
}
use bufi.Base.Texts.{Text, text}
use bufi.Cre.Checked.{Checked, returned, thrown, Refusal, ◌>>=◌}
use bufi.Cre.Json.{Value, bool, string, object, Fields, no_field, field, lookup}
use bufi.Cre.Reference.{
  event_text, project_phase_text, reimbursement_phase_text, required_contract_event,
  required_project_phase, required_reimbursement_phase, is_string,
}
use bufi.Cre.Token.{fields_of}
use bufi.Cre.Records.{
  ContractCommitments, PayrollCommitments, ReimbursementCommitments, ReportCommitments,
  ProjectCommitments, CreEvidenceCommitments,
}
use bufi.Cre.Commitments.{is_sha256_hex}

-- The commitments as the object that is sent.
unfoldable pub commitment_fields : CreEvidenceCommitments → Fields
commitment_fields (CreEvidenceCommitments.contract c) =
    field (text "kind") (string (text "contract")) (
      field (text "event") (string (event_text c.event)) (
        field (text "entityCommitment") (string c.entity_commitment) (
          field (text "agreementCommitment") (string c.agreement_commitment) (
            field (text "stateCommitment") (string c.state_commitment)
              (field (text "snapshotCommitment") (string c.snapshot_commitment) no_field)))))
commitment_fields (CreEvidenceCommitments.payroll c) =
    field (text "kind") (string (text "payroll")) (
      field (text "entityCommitment") (string c.entity_commitment) (
        field (text "recordCommitment") (string c.record_commitment) (
          field (text "recipientCommitment") (string c.recipient_commitment)
            (field (text "batchCommitment") (string c.batch_commitment) no_field))))
commitment_fields (CreEvidenceCommitments.reimbursement c) =
    field (text "kind") (string (text "reimbursement")) (
      field (text "phase") (string (reimbursement_phase_text c.phase)) (
        field (text "entityCommitment") (string c.entity_commitment) (
          field (text "requestCommitment") (string c.request_commitment) (
            field (text "itemsHash") (string c.items_hash)
              (field (text "settlementCommitment") (string c.settlement_commitment) no_field)))))
commitment_fields (CreEvidenceCommitments.report c) = field (text "kind") (string (text "report")) (
    field (text "entityCommitment") (string c.entity_commitment) (
      field (text "reportCommitment") (string c.report_commitment) (
        field (text "transactionsHash") (string c.transactions_hash) (
          field (text "metricsHash") (string c.metrics_hash) (
            field (text "analysisHash") (string c.analysis_hash)
              (field (text "combinedHash") (string c.combined_hash) no_field))))))
commitment_fields (CreEvidenceCommitments.project c) =
    field (text "kind") (string (text "project")) (
      field (text "phase") (string (project_phase_text c.phase)) (
        field (text "entityCommitment") (string c.entity_commitment) (
          field (text "projectCommitment") (string c.project_commitment) (
            field (text "itemsHash") (string c.items_hash)
              (field (text "settlementCommitment") (string c.settlement_commitment) no_field)))))

unfoldable pub or_invalid_response : Option Fields → Checked Fields
or_invalid_response none = thrown Refusal.invalid_response
or_invalid_response (some fields) = returned fields

abbrev is_true : Value → Bool
is_true (bool b) = b
is_true _ = false

-- `wrapper.success === true ? wrapper.evidence : value`
abbrev pub unwrap : Fields → Value
unwrap wrapper =
    if is_true (lookup (text "success") wrapper)
    then lookup (text "evidence") wrapper
    else object wrapper

unfoldable pub required_items_hash : Value → Checked Text
required_items_hash (string t) =
    if is_sha256_hex t then returned t else thrown Refusal.invalid_items_hash
required_items_hash _ = thrown Refusal.invalid_items_hash

module _ (is_hex : Text → Bool) where
  -- A commitment is a hexadecimal text of 66 characters.
  unfoldable pub is_bytes32 : Text → Bool
  is_bytes32 t = is_hex t && (length t == 66)

  unfoldable pub required_commitment : Text → Value → Checked Text
  required_commitment name (string t) =
      if is_bytes32 t then returned t else thrown (Refusal.not_a_commitment name)
  required_commitment name _ = thrown (Refusal.not_a_commitment name)

  abbrev member : Text → Fields → Checked Text
  member name evidence = required_commitment name (lookup name evidence)

  unfoldable pub parse_contract : Text → Fields → Checked ContractCommitments
  parse_contract entity_commitment evidence = do
    event ← required_contract_event (lookup (text "event") evidence)
    agreement ← member (text "agreementCommitment") evidence
    state ← member (text "stateCommitment") evidence
    snapshot ← member (text "snapshotCommitment") evidence
    returned (record {
      event = event;
      entity_commitment = entity_commitment;
      agreement_commitment = agreement;
      state_commitment = state;
      snapshot_commitment = snapshot;
    })

  unfoldable pub parse_payroll : Text → Fields → Checked PayrollCommitments
  parse_payroll entity_commitment evidence = do
    row ← member (text "recordCommitment") evidence
    recipient ← member (text "recipientCommitment") evidence
    batch ← member (text "batchCommitment") evidence
    returned (record {
      entity_commitment = entity_commitment;
      record_commitment = row;
      recipient_commitment = recipient;
      batch_commitment = batch;
    })

  unfoldable pub parse_reimbursement : Text → Fields → Checked ReimbursementCommitments
  parse_reimbursement entity_commitment evidence = do
    phase ← required_reimbursement_phase (lookup (text "phase") evidence)
    items_hash ← required_items_hash (lookup (text "itemsHash") evidence)
    request ← member (text "requestCommitment") evidence
    settlement ← member (text "settlementCommitment") evidence
    returned (record {
      phase = phase;
      entity_commitment = entity_commitment;
      request_commitment = request;
      items_hash = items_hash;
      settlement_commitment = settlement;
    })

  unfoldable pub parse_report : Text → Fields → Checked ReportCommitments
  parse_report entity_commitment evidence = do
    report ← member (text "reportCommitment") evidence
    transactions ← member (text "transactionsHash") evidence
    metrics ← member (text "metricsHash") evidence
    analysis ← member (text "analysisHash") evidence
    combined ← member (text "combinedHash") evidence
    returned (record {
      entity_commitment = entity_commitment;
      report_commitment = report;
      transactions_hash = transactions;
      metrics_hash = metrics;
      analysis_hash = analysis;
      combined_hash = combined;
    })

  unfoldable pub parse_project : Text → Fields → Checked ProjectCommitments
  parse_project entity_commitment evidence = do
    phase ← required_project_phase (lookup (text "phase") evidence)
    items_hash ← required_items_hash (lookup (text "itemsHash") evidence)
    project ← member (text "projectCommitment") evidence
    settlement ← member (text "settlementCommitment") evidence
    returned (record {
      phase = phase;
      entity_commitment = entity_commitment;
      project_commitment = project;
      items_hash = items_hash;
      settlement_commitment = settlement;
    })

  unfoldable pub parse_kind : Value → Text → Fields → Checked CreEvidenceCommitments
  parse_kind kind entity evidence =
      if is_string (text "contract") kind
      then (parse_contract entity evidence >>= λ c. returned (CreEvidenceCommitments.contract c))
      else if is_string (text "payroll") kind
      then (parse_payroll entity evidence >>= λ c. returned (CreEvidenceCommitments.payroll c))
      else if is_string (text "reimbursement") kind
      then (parse_reimbursement entity evidence >>= λ c.
          returned (CreEvidenceCommitments.reimbursement c))
      else if is_string (text "report") kind
      then (parse_report entity evidence >>= λ c. returned (CreEvidenceCommitments.report c))
      else if is_string (text "project") kind
      then (parse_project entity evidence >>= λ c. returned (CreEvidenceCommitments.project c))
      else thrown Refusal.invalid_kind

  unfoldable pub parse_commitments : Value → Checked CreEvidenceCommitments
  parse_commitments value = do
    wrapper ← or_invalid_response (fields_of value)
    evidence ← or_invalid_response (fields_of (unwrap wrapper))
    entity ← member (text "entityCommitment") evidence
    parse_kind (lookup (text "kind") evidence) entity evidence
