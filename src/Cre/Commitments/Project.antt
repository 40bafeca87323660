-- ===== src/Cre/Commitments/Project.antt =====
-- `buildProjectEvidenceCommitments` of packages/cre/src/evidence.ts.
use bufi.Base.{not, ◌||◌, Option, ◌++◌}
use bufi.Base.Texts.{Text, text}
use bufi.Cre.Checked.{Checked, returned, Refusal, ◌>>=◌, ◌>>◌, throw_if}
use bufi.Cre.Json.{Value, number, string, object, no_field, field}
use bufi.Cre.Decimal.{canonical_decimal}
use bufi.Cre.Reference.{ProjectEvidencePhase, project_phase_text, required_reference}
use bufi.Cre.Records.{ProjectEvidenceRecord, ProjectEvidenceFacts, ProjectCommitments}
use bufi.Cre.Commitments.{
  commitment, or_null, is_positive_integer, is_sha256_hex, required_settlement,
}

unfoldable pub project_closed_at : ProjectEvidencePhase → Option Text → Checked Value
project_closed_at ProjectEvidencePhase.closed closed_at =
    required_reference (text "closedAt") (or_null closed_at) >>= λ t. returned (string t)
project_closed_at _ closed_at = returned (or_null closed_at)

unfoldable pub project_object : Text → Text → ProjectEvidenceFacts → Text → Value → Value
project_object project_id team_id facts status closed_at = object (
    field (text "projectId") (string project_id) (
      field (text "teamId") (string team_id) (
        field (text "phase") (string (project_phase_text facts.phase)) (
          field (text "status") (string status) (
            field (text "itemCount") (number facts.item_count) (
              field (text "itemsHash") (string facts.items_hash)
                (field (text "closedAt") closed_at no_field)))))))

unfoldable pub project_settlement :
    (Text → Text) → ProjectEvidencePhase → ProjectEvidenceFacts → Value → Checked Text
project_settlement keccak ProjectEvidencePhase.sent facts closed_at =
    returned (keccak (text "project:settlement:not-paid"))
project_settlement keccak _ facts closed_at = do
  settled ← required_settlement facts.settled_total facts.settlement_count
  settled_total ← canonical_decimal settled.0
  commitment keccak (
      object (
        field (text "settledTotal") (string settled_total) (
          field (text "settlementCount") (number settled.1)
            (field (text "closedAt") closed_at no_field))))

unfoldable pub build_project :
    (Text → Text) → ProjectEvidenceRecord → ProjectEvidenceFacts → Checked ProjectCommitments
build_project keccak r facts = do
  project_id ← required_reference (text "projectId") (string r.project_id)
  team_id ← required_reference (text "teamId") (string r.team_id)
  status ← required_reference (text "project status") (string r.status)
  throw_if (not (is_positive_integer facts.item_count) || not (is_sha256_hex facts.items_hash))
      Refusal.invalid_items
  closed_at ← project_closed_at facts.phase r.closed_at
  project_commitment ← commitment keccak (project_object project_id team_id facts status closed_at)
  settlement_commitment ← project_settlement keccak facts.phase facts closed_at
  returned (record {
    phase = facts.phase;
    entity_commitment = keccak (text "project:" ++ project_id);
    project_commitment = project_commitment;
    items_hash = facts.items_hash;
    settlement_commitment = settlement_commitment;
  })
