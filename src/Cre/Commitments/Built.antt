-- ===== src/Cre/Commitments/Built.antt =====
-- What holds of the commitments that packages/cre/src/evidence.ts builds.
use bufi.Base.{ℕ, ◌≡◌, refl, Bool, true, not, ◌&&◌, ◌||◌, Option, true_and, arith}
use bufi.Base.Int.{pos}
use bufi.Base.Texts.{Text, text, text_eq, text_eq→eq}
use bufi.Cre.Checked.{
  Refusal, Gives, gives, refuses, >>=-Gives, throw_if-Gives, after-Gives, if-Gives, Gives-same,
}
use bufi.Cre.Json.{Value, Number, whole, string, stable_stringify}
use bufi.Cre.Decimal.{canonical_decimal}
use bufi.Cre.Reference.{
  ContractLifecycleEvidenceEvent, ReimbursementEvidencePhase, ProjectEvidencePhase, event_text,
  required_reference, required_contract_event, is_reference,
}
use bufi.Cre.Records.{
  ReportEvidenceRecord, ContractLifecycleEvidenceRecord, CreEvidenceCommitments,
  PayrollEvidenceRecord, ReimbursementEvidenceRecord, ReimbursementEvidenceFacts,
  ProjectEvidenceRecord, ProjectEvidenceFacts,
}
use bufi.Cre.Commitments.{
  commitment, is_sha256_hex, or_null, is_present, is_object_like, is_positive_integer,
  required_settlement,
}
use bufi.Cre.Commitments.Contract.{build_contract, bad_chain_id}
use bufi.Cre.Commitments.Payroll.{build_payroll, is_number, batch_commitment_of}
use bufi.Cre.Commitments.Report.{build_report, is_nullish}
use bufi.Cre.Commitments.Reimbursement.{
  build_reimbursement, is_paid, reimbursement_settlement, optional_decimal,
}
use bufi.Cre.Commitments.Project.{build_project, project_closed_at, project_settlement}
use bufi.Cre.Response.{is_bytes32}
use bufi.Cre.Response.ReadBack.{is_committed}
use bufi.Cre.Commitments.Ready.{IsReady, check_ready-Gives}
use bufi.Cre.Commitments.Counted.{recipient_total, count_recipients-Gives}
use bufi.Cre.Response.ReadBack.{required_contract_event-text}

required_reference-Gives : (name t : Text) → Gives (λ s. s ≡ t) (required_reference name (string t))
unfolding required_reference
required_reference-Gives name t = if-Gives (is_reference t) (λ h. gives refl) (λ h. refuses)

-- A known event is taken as it is.
event-Gives :
    (event : ContractLifecycleEvidenceEvent)
    → Gives (λ e. e ≡ event) (required_contract_event (string (event_text event)))
event-Gives event = rw (required_contract_event-text event) (gives refl)

is_number→eq : (n : ℕ) (count : Number) → is_number n count ≡ true → count ≡ whole (pos n)
is_number→eq n (whole (pos m)) h = ground arith
is_number→eq n _ h = cc

-- An executed row with the count of its recipients.
abbrev pub IsExecuted : PayrollEvidenceRecord → Type 0
IsExecuted r =
    (r.status ≡ text "executed")
    × ((is_present r.executed_at ≡ true)
        × (r.recipient_count ≡ whole (pos (recipient_total r.recipients))))

module _ (is_hex : Text → Bool) (keccak : Text → Text)
    (keccak_form : (t : Text) → is_bytes32 is_hex (keccak t) ≡ true) where
  commitment-Gives : (v : Value) → Gives (λ t. is_bytes32 is_hex t ≡ true) (commitment keccak v)
  unfolding commitment
  commitment-Gives v = after-Gives (stable_stringify v) λ t. gives (keccak_form t)

  abbrev Form : CreEvidenceCommitments → Type 0
  Form e = is_committed is_hex e ≡ true

  batch_commitment-Gives :
      (batch_id : Option Text) (t : Text)
      → Gives (λ t. is_bytes32 is_hex t ≡ true) (batch_commitment_of keccak batch_id t)
  unfolding batch_commitment_of
  batch_commitment-Gives batch_id t =
      if-Gives (is_present batch_id)
        (λ e.
          after-Gives (required_reference (text "batchId") (or_null batch_id))
            λ t. gives (keccak_form _))
        (λ e. gives (keccak_form _))

  reimbursement_settlement-Gives :
      (phase : ReimbursementEvidencePhase) (r : ReimbursementEvidenceRecord)
      (facts : ReimbursementEvidenceFacts)
      → Gives (λ t. is_bytes32 is_hex t ≡ true) (reimbursement_settlement keccak phase r facts)
  unfolding reimbursement_settlement
  reimbursement_settlement-Gives ReimbursementEvidencePhase.sent r facts = gives (keccak_form _)
  reimbursement_settlement-Gives ReimbursementEvidencePhase.paid r facts =
      after-Gives (required_settlement facts.settled_total facts.settlement_count)
        λ settled. after-Gives (canonical_decimal settled.0) λ settled_total. commitment-Gives _

  project_settlement-Gives :
      (phase : ProjectEvidencePhase) (facts : ProjectEvidenceFacts) (closed_at : Value)
      → Gives (λ t. is_bytes32 is_hex t ≡ true) (project_settlement keccak phase facts closed_at)
  unfolding project_settlement
  project_settlement-Gives ProjectEvidencePhase.sent facts closed_at = gives (keccak_form _)
  project_settlement-Gives _ facts closed_at =
      after-Gives (required_settlement facts.settled_total facts.settlement_count)
        λ settled. after-Gives (canonical_decimal settled.0) λ settled_total. commitment-Gives _

  pub build_contract-Gives :
      (r : ContractLifecycleEvidenceRecord) (event : ContractLifecycleEvidenceEvent)
      → Gives
          (λ c. Form (CreEvidenceCommitments.contract c) × ((c.event ≡ event) × IsReady c.event r))
          (build_contract keccak r event)
  unfolding build_contract
  build_contract-Gives r event =
      after-Gives (required_reference (text "agreementId") (string r.agreement_id)) λ agreement_id.
        after-Gives (required_reference (text "teamId") (string r.team_id)) λ team_id.
          >>=-Gives (event-Gives event) λ normalized_event normalized_event_lem.
            >>=-Gives (required_reference-Gives _ r.status) λ status status_lem.
              after-Gives (required_reference (text "contract updatedAt") (string r.updated_at))
                λ updated_at.
                  throw_if-Gives (not (is_object_like r.agreement)) Refusal.invalid_agreement
                    λ invalid_agreement.
                      throw_if-Gives (bad_chain_id r.chain_id) Refusal.invalid_chain_id
                        λ invalid_chain_id.
                          >>=-Gives (Gives-same (canonical_decimal r.funded_amount))
                            λ funded_amount funded_amount_lem.
                              after-Gives (canonical_decimal r.total_amount) λ total_amount.
                                >>=-Gives
                                  (check_ready-Gives normalized_event r status funded_amount
                                    status_lem funded_amount_lem)
                                  λ _ ready.
                                    >>=-Gives (commitment-Gives _)
                                      λ agreement_commitment agreement_commitment_form.
                                        >>=-Gives (commitment-Gives _)
                                          λ state_commitment state_commitment_form.
                                            >>=-Gives (commitment-Gives _)
                                              λ snapshot_commitment snapshot_commitment_form.
                                                gives (
                                                  true_and _ _ (keccak_form _) (
                                                      true_and _ _ agreement_commitment_form (
                                                        true_and _ _ state_commitment_form
                                                          snapshot_commitment_form)),
                                                  (normalized_event_lem, ready),
                                                )

  pub build_payroll-Gives :
      (r : PayrollEvidenceRecord) (batch_id : Option Text)
      → Gives
          (λ c. Form (CreEvidenceCommitments.payroll c) × IsExecuted r)
          (build_payroll keccak r batch_id)
  unfolding build_payroll
  build_payroll-Gives r batch_id =
      after-Gives (required_reference (text "payrollId") (string r.payroll_id)) λ payroll_id.
        after-Gives (required_reference (text "teamId") (string r.team_id)) λ team_id.
          throw_if-Gives
            (not (text_eq r.status (text "executed")) || not (is_present r.executed_at))
            Refusal.not_executed
            λ not_executed.
              throw_if-Gives (not (is_positive_integer r.recipient_count))
                Refusal.invalid_recipient_count
                λ invalid_recipient_count.
                  throw_if-Gives (not (is_object_like r.recipients)) Refusal.invalid_recipients
                    λ invalid_recipients.
                      >>=-Gives (count_recipients-Gives r.recipients) λ counted counted_lem.
                        throw_if-Gives (not (is_number counted r.recipient_count))
                          Refusal.recipient_count_differs
                          λ recipient_count_differs.
                            after-Gives
                              (required_reference (text "payPeriodStart")
                                (string r.pay_period_start))
                              λ start.
                                after-Gives
                                  (required_reference (text "payPeriodEnd")
                                    (string r.pay_period_end))
                                  λ finish.
                                    after-Gives (canonical_decimal r.total_amount_usdc) λ usdc.
                                      after-Gives (canonical_decimal r.total_amount_eurc) λ eurc.
                                        after-Gives
                                          (required_reference (text "executedAt")
                                            (or_null r.executed_at))
                                          λ executed_at.
                                            >>=-Gives (commitment-Gives _)
                                              λ record_commitment record_commitment_form.
                                                >>=-Gives (commitment-Gives _)
                                                  λ recipient_commitment recipient_commitment_form.
                                                    >>=-Gives
                                                      (batch_commitment-Gives batch_id
                                                        record_commitment)
                                                      λ batch_commitment batch_commitment_lem.
                                                        gives (
                                                          true_and _ _ (keccak_form _) (
                                                            true_and _ _ record_commitment_form (
                                                            true_and _ _ recipient_commitment_form
                                                            batch_commitment_lem)),
                                                          (
                                                            text_eq→eq _ _ (ground arith),
                                                            (
                                                            ground arith,
                                                            rw (← counted_lem)
                                                            (is_number→eq counted _ (ground arith)),
                                                            ),
                                                          ),
                                                        )

  pub build_report-Gives :
      (r : ReportEvidenceRecord)
      → Gives
          (λ c. Form (CreEvidenceCommitments.report c) × (r.status ≡ text "completed"))
          (build_report keccak r)
  unfolding build_report
  build_report-Gives r =
      after-Gives (required_reference (text "reportId") (string r.report_id)) λ report_id.
        after-Gives (required_reference (text "teamId") (string r.team_id)) λ team_id.
          throw_if-Gives (not (text_eq r.status (text "completed"))) Refusal.report_not_completed
            λ report_not_completed.
              throw_if-Gives
                (is_nullish r.transactions_data
                  || (is_nullish r.financial_metrics || is_nullish r.ai_analysis))
                Refusal.incomplete_sources
                λ incomplete_sources.
                  >>=-Gives (commitment-Gives _) λ transactions_hash transactions_hash_form.
                    >>=-Gives (commitment-Gives _) λ metrics_hash metrics_hash_form.
                      >>=-Gives (commitment-Gives _) λ analysis_hash analysis_hash_form.
                        >>=-Gives (commitment-Gives _) λ combined_hash combined_hash_form.
                          after-Gives
                            (required_reference (text "reportNumber") (string r.report_number))
                            λ report_number.
                              after-Gives
                                (required_reference (text "fromDate") (string r.from_date))
                                λ from_date.
                                  after-Gives
                                    (required_reference (text "toDate") (string r.to_date))
                                    λ to_date.
                                      after-Gives
                                        (required_reference (text "createdAt")
                                          (string r.created_at))
                                        λ created_at.
                                          >>=-Gives (commitment-Gives _)
                                            λ report_commitment report_commitment_form. gives (
                                              true_and _ _ (keccak_form _) (
                                                  true_and _ _ report_commitment_form (
                                                    true_and _ _ transactions_hash_form (
                                                      true_and _ _ metrics_hash_form (
                                                        true_and _ _ analysis_hash_form
                                                          combined_hash_form)))),
                                              text_eq→eq _ _ (ground arith),
                                            )

  pub build_reimbursement-Gives :
      (r : ReimbursementEvidenceRecord) (facts : ReimbursementEvidenceFacts)
      → Gives
          (λ c.
            Form (CreEvidenceCommitments.reimbursement c)
            × (is_paid facts.phase ≡ true → r.status ≡ text "paid"))
          (build_reimbursement keccak r facts)
  unfolding build_reimbursement
  build_reimbursement-Gives r facts =
      after-Gives (required_reference (text "requestId") (string r.request_id)) λ request_id.
        after-Gives (required_reference (text "teamId") (string r.team_id)) λ team_id.
          throw_if-Gives (text_eq r.status (text "draft") || text_eq r.status (text "canceled"))
            Refusal.not_attestable
            λ not_attestable.
              throw_if-Gives (is_paid facts.phase && not (text_eq r.status (text "paid")))
                Refusal.not_paid
                λ not_paid.
                  throw_if-Gives
                    (not (is_positive_integer facts.item_count)
                      || not (is_sha256_hex facts.items_hash))
                    Refusal.invalid_items
                    λ invalid_items. after-Gives (canonical_decimal r.subtotal) λ subtotal.
                      after-Gives (optional_decimal r.markup_percent) λ percent.
                        after-Gives (canonical_decimal r.markup_amount) λ markup.
                          after-Gives (canonical_decimal r.total) λ total.
                            after-Gives (required_reference (text "currency") (string r.currency))
                              λ currency.
                                >>=-Gives (commitment-Gives _)
                                  λ request_commitment request_commitment_form.
                                    >>=-Gives (reimbursement_settlement-Gives facts.phase r facts)
                                      λ settlement_commitment settlement_commitment_lem. gives (
                                        true_and _ _ (keccak_form _) (
                                            true_and _ _ request_commitment_form (
                                              true_and _ _ (ground arith)
                                                settlement_commitment_lem)),
                                        λ e. text_eq→eq _ _ (ground arith),
                                      )

  pub build_project-Gives :
      (r : ProjectEvidenceRecord) (facts : ProjectEvidenceFacts)
      → Gives (λ c. Form (CreEvidenceCommitments.project c)) (build_project keccak r facts)
  unfolding build_project
  build_project-Gives r facts =
      after-Gives (required_reference (text "projectId") (string r.project_id)) λ project_id.
        after-Gives (required_reference (text "teamId") (string r.team_id)) λ team_id.
          after-Gives (required_reference (text "project status") (string r.status)) λ status.
            throw_if-Gives
              (not (is_positive_integer facts.item_count) || not (is_sha256_hex facts.items_hash))
              Refusal.invalid_items
              λ invalid_items. after-Gives (project_closed_at facts.phase r.closed_at) λ closed_at.
                >>=-Gives (commitment-Gives _) λ project_commitment project_commitment_form.
                  >>=-Gives (project_settlement-Gives facts.phase facts closed_at)
                    λ settlement_commitment settlement_commitment_lem. gives (
                      true_and _ _ (keccak_form _) (
                        true_and _ _ project_commitment_form
                          (true_and _ _ (ground arith) settlement_commitment_lem)))
