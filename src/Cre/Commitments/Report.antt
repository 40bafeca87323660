-- ===== src/Cre/Commitments/Report.antt =====
-- `buildReportEvidenceCommitments` of packages/cre/src/evidence.ts.
use bufi.Base.{Bool, true, false, not, ◌||◌, ◌++◌}
use bufi.Base.Texts.{Text, text, text_eq}
use bufi.Cre.Checked.{Checked, returned, Refusal, ◌>>=◌, ◌>>◌, throw_if}
use bufi.Cre.Json.{Value, undefined, null, string, object, no_field, field}
use bufi.Cre.Reference.{required_reference}
use bufi.Cre.Records.{ReportEvidenceRecord, ReportCommitments}
use bufi.Cre.Commitments.{commitment}

-- `value === null || value === undefined`
abbrev pub is_nullish : Value → Bool
is_nullish undefined = true
is_nullish null = true
is_nullish _ = false

unfoldable pub combined_object : Text → Text → Text → Value
combined_object analysis_hash metrics_hash transactions_hash = object (
    field (text "analysisHash") (string analysis_hash) (
      field (text "metricsHash") (string metrics_hash)
        (field (text "transactionsHash") (string transactions_hash) no_field)))

unfoldable pub report_object : Text → Text → Text → Text → Text → Text → Text → Value
report_object report_id team_id report_number from_date to_date created_at combined_hash = object (
    field (text "reportId") (string report_id) (
      field (text "teamId") (string team_id) (
        field (text "reportNumber") (string report_number) (
          field (text "fromDate") (string from_date) (
            field (text "toDate") (string to_date) (
              field (text "createdAt") (string created_at)
                (field (text "combinedHash") (string combined_hash) no_field)))))))

unfoldable pub build_report : (Text → Text) → ReportEvidenceRecord → Checked ReportCommitments
build_report keccak r = do
  report_id ← required_reference (text "reportId") (string r.report_id)
  team_id ← required_reference (text "teamId") (string r.team_id)
  throw_if (not (text_eq r.status (text "completed"))) Refusal.report_not_completed
  throw_if
      (is_nullish r.transactions_data
        || (is_nullish r.financial_metrics || is_nullish r.ai_analysis))
      Refusal.incomplete_sources
  transactions_hash ← commitment keccak r.transactions_data
  metrics_hash ← commitment keccak r.financial_metrics
  analysis_hash ← commitment keccak r.ai_analysis
  combined_hash ← commitment keccak (combined_object analysis_hash metrics_hash transactions_hash)
  report_number ← required_reference (text "reportNumber") (string r.report_number)
  from_date ← required_reference (text "fromDate") (string r.from_date)
  to_date ← required_reference (text "toDate") (string r.to_date)
  created_at ← required_reference (text "createdAt") (string r.created_at)
  report_commitment ←
      commitment keccak
        (report_object report_id team_id report_number from_date to_date created_at combined_hash)
  returned (record {
    entity_commitment = keccak (text "financial-report:" ++ report_id);
    report_commitment = report_commitment;
    transactions_hash = transactions_hash;
    metrics_hash = metrics_hash;
    analysis_hash = analysis_hash;
    combined_hash = combined_hash;
  })
