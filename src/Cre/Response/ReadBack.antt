-- ===== src/Cre/Response/ReadBack.antt =====
-- The commitments of packages/cre/src/evidence.ts read back from the object that holds them.
use bufi.Base.{◌≡◌, refl, ◌∙◌, Bool, true, ◌&&◌, and_true}
use bufi.Base.Texts.{Text, text}
use bufi.Cre.Checked.{returned}
use bufi.Cre.Json.{Value, bool, string, object, no_field, field}
use bufi.Cre.Reference.{
  ContractLifecycleEvidenceEvent, contract_deploy, contract_sign, contract_fund, contract_complete,
  contract_cancel, ProjectEvidencePhase, ReimbursementEvidencePhase, event_text, project_phase_text,
  reimbursement_phase_text, required_contract_event, required_project_phase,
  required_reimbursement_phase,
}
use bufi.Cre.Records.{CreEvidenceCommitments}
use bufi.Cre.Commitments.{is_sha256_hex}
use bufi.Cre.Response.{
  commitment_fields, or_invalid_response, is_bytes32, required_commitment, required_items_hash,
  parse_contract, parse_payroll, parse_reimbursement, parse_report, parse_project, parse_kind,
  parse_commitments,
}

pub required_contract_event-text :
    (event : ContractLifecycleEvidenceEvent)
    → required_contract_event (string (event_text event)) ≡ returned event
unfolding required_contract_event
required_contract_event-text contract_deploy = refl
required_contract_event-text contract_sign = refl
required_contract_event-text contract_fund = refl
required_contract_event-text contract_complete = refl
required_contract_event-text contract_cancel = refl

pub required_project_phase-text :
    (phase : ProjectEvidencePhase)
    → required_project_phase (string (project_phase_text phase)) ≡ returned phase
unfolding required_project_phase
required_project_phase-text ProjectEvidencePhase.sent = refl
required_project_phase-text ProjectEvidencePhase.paid = refl
required_project_phase-text ProjectEvidencePhase.closed = refl

pub required_reimbursement_phase-text :
    (phase : ReimbursementEvidencePhase)
    → required_reimbursement_phase (string (reimbursement_phase_text phase)) ≡ returned phase
unfolding required_reimbursement_phase
required_reimbursement_phase-text ReimbursementEvidencePhase.sent = refl
required_reimbursement_phase-text ReimbursementEvidencePhase.paid = refl

-- The answer of a service that marks its success.
abbrev pub successful : CreEvidenceCommitments → Value
successful e = object (
    field (text "success") (bool true)
      (field (text "evidence") (object (commitment_fields e)) no_field))

module _ (is_hex : Text → Bool) where
  -- Every hash is a commitment, and a hash of items one of SHA-256.
  abbrev pub is_committed : CreEvidenceCommitments → Bool
  is_committed (CreEvidenceCommitments.contract c) =
      is_bytes32 is_hex c.entity_commitment
      && (is_bytes32 is_hex c.agreement_commitment
          && (is_bytes32 is_hex c.state_commitment && is_bytes32 is_hex c.snapshot_commitment))
  is_committed (CreEvidenceCommitments.payroll c) =
      is_bytes32 is_hex c.entity_commitment
      && (is_bytes32 is_hex c.record_commitment
          && (is_bytes32 is_hex c.recipient_commitment && is_bytes32 is_hex c.batch_commitment))
  is_committed (CreEvidenceCommitments.reimbursement c) =
      is_bytes32 is_hex c.entity_commitment
      && (is_bytes32 is_hex c.request_commitment
          && (is_sha256_hex c.items_hash && is_bytes32 is_hex c.settlement_commitment))
  is_committed (CreEvidenceCommitments.report c) =
      is_bytes32 is_hex c.entity_commitment
      && (is_bytes32 is_hex c.report_commitment
          && (is_bytes32 is_hex c.transactions_hash
              && (is_bytes32 is_hex c.metrics_hash
                  && (is_bytes32 is_hex c.analysis_hash && is_bytes32 is_hex c.combined_hash))))
  is_committed (CreEvidenceCommitments.project c) =
      is_bytes32 is_hex c.entity_commitment
      && (is_bytes32 is_hex c.project_commitment
          && (is_sha256_hex c.items_hash && is_bytes32 is_hex c.settlement_commitment))

  required_commitment-true :
      (name t : Text)
      → is_bytes32 is_hex t ≡ true
      → required_commitment is_hex name (string t) ≡ returned t
  unfolding required_commitment
  required_commitment-true name t h = rw h refl

  required_items_hash-true :
      (t : Text) → is_sha256_hex t ≡ true → required_items_hash (string t) ≡ returned t
  unfolding required_items_hash
  required_items_hash-true t h = rw h refl

  parse_committed :
      (e : CreEvidenceCommitments)
      → is_committed e ≡ true
      → parse_commitments is_hex (object (commitment_fields e)) ≡ returned e
  unfolding parse_commitments commitment_fields or_invalid_response parse_kind parse_contract
      parse_payroll parse_reimbursement parse_report parse_project
  parse_committed (CreEvidenceCommitments.contract c) h =
      let p = and_true _ _ h in
      let q = and_true _ _ p.1 in
      let r = and_true _ _ q.1 in
      rw
        (
          required_commitment-true (text "entityCommitment") _ p.0,
          required_contract_event-text c.event,
          required_commitment-true (text "agreementCommitment") _ q.0,
          required_commitment-true (text "stateCommitment") _ r.0,
          required_commitment-true (text "snapshotCommitment") _ r.1,
        )
        refl
  parse_committed (CreEvidenceCommitments.payroll c) h =
      let p = and_true _ _ h in
      let q = and_true _ _ p.1 in
      let r = and_true _ _ q.1 in
      rw
        (
          required_commitment-true (text "entityCommitment") _ p.0,
          required_commitment-true (text "recordCommitment") _ q.0,
          required_commitment-true (text "recipientCommitment") _ r.0,
          required_commitment-true (text "batchCommitment") _ r.1,
        )
        refl
  parse_committed (CreEvidenceCommitments.reimbursement c) h =
      let p = and_true _ _ h in
      let q = and_true _ _ p.1 in
      let r = and_true _ _ q.1 in
      rw
        (
          required_commitment-true (text "entityCommitment") _ p.0,
          required_reimbursement_phase-text c.phase,
          required_items_hash-true _ r.0,
          required_commitment-true (text "requestCommitment") _ q.0,
          required_commitment-true (text "settlementCommitment") _ r.1,
        )
        refl
  parse_committed (CreEvidenceCommitments.report c) h =
      let p = and_true _ _ h in
      let q = and_true _ _ p.1 in
      let r = and_true _ _ q.1 in
      let s = and_true _ _ r.1 in
      let t = and_true _ _ s.1 in
      rw
        (
          required_commitment-true (text "entityCommitment") _ p.0,
          required_commitment-true (text "reportCommitment") _ q.0,
          required_commitment-true (text "transactionsHash") _ r.0,
          required_commitment-true (text "metricsHash") _ s.0,
          required_commitment-true (text "analysisHash") _ t.0,
          required_commitment-true (text "combinedHash") _ t.1,
        )
        refl
  parse_committed (CreEvidenceCommitments.project c) h =
      let p = and_true _ _ h in
      let q = and_true _ _ p.1 in
      let r = and_true _ _ q.1 in
      rw
        (
          required_commitment-true (text "entityCommitment") _ p.0,
          required_project_phase-text c.phase,
          required_items_hash-true _ r.0,
          required_commitment-true (text "projectCommitment") _ q.0,
          required_commitment-true (text "settlementCommitment") _ r.1,
        )
        refl

  parse_successful :
      (e : CreEvidenceCommitments)
      → parse_commitments is_hex (successful e)
        ≡ parse_commitments is_hex (object (commitment_fields e))
  unfolding parse_commitments commitment_fields or_invalid_response
  parse_successful (CreEvidenceCommitments.contract c) = refl
  parse_successful (CreEvidenceCommitments.payroll c) = refl
  parse_successful (CreEvidenceCommitments.reimbursement c) = refl
  parse_successful (CreEvidenceCommitments.report c) = refl
  parse_successful (CreEvidenceCommitments.project c) = refl

  -- Commitments whose hashes have their form are read back as they were, from their object and from
  -- an answer marked successful that holds it.
  pub parse_commitments-fields :
      (e : CreEvidenceCommitments)
      → is_committed e ≡ true
      → (parse_commitments is_hex (object (commitment_fields e)) ≡ returned e)
        × (parse_commitments is_hex (successful e) ≡ returned e)
  parse_commitments-fields e h = (parse_committed e h, parse_successful e ∙ parse_committed e h)
