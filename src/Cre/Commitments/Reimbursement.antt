-- ===== src/Cre/Commitments/Reimbursement.antt =====
-- `buildReimbursementEvidenceCommitments` of packages/cre/src/evidence.ts.
use bufi.Base.{Bool, true, false, not, ◌&&◌, ◌||◌, Option, none, some, ◌++◌}
use bufi.Base.Texts.{Text, text, text_eq}
use bufi.Cre.Checked.{Checked, returned, Refusal, ◌>>=◌, ◌>>◌, throw_if}
use bufi.Cre.Json.{Value, null, number, string, object, no_field, field}
use bufi.Cre.Decimal.{canonical_decimal}
use bufi.Cre.Reference.{ReimbursementEvidencePhase, reimbursement_phase_text, required_reference}
use bufi.Cre.Records.{
  ReimbursementEvidenceRecord, ReimbursementEvidenceFacts, ReimbursementCommitments,
}
use bufi.Cre.Commitments.{
  commitment, or_null, is_positive_integer, is_sha256_hex, required_settlement,
}

abbrev pub is_paid : ReimbursementEvidencePhase → Bool
is_paid ReimbursementEvidencePhase.sent = false
is_paid ReimbursementEvidencePhase.paid = true

-- `value === null ? null : canonicalDecimal(value)`
unfoldable pub optional_decimal : Option Value → Checked Value
optional_decimal none = returned null
optional_decimal (some value) = canonical_decimal value >>= λ t. returned (string t)

unfoldable pub request_object :
    Text
    → Text
    → ReimbursementEvidenceFacts
    → Text
    → Value
    → Text
    → Text
    → Text
    → Option Text
    → Value
request_object request_id team_id facts subtotal percent markup total currency sent_at = object (
    field (text "requestId") (string request_id) (
      field (text "teamId") (string team_id) (
        field (text "phase") (string (reimbursement_phase_text facts.phase)) (
          field (text "itemCount") (number facts.item_count) (
            field (text "subtotal") (string subtotal) (
              field (text "markupPercent") percent (
                field (text "markupAmount") (string markup) (
                  field (text "total") (string total) (
                    field (text "itemsHash") (string facts.items_hash) (
                      field (text "currency") (string currency)
                        (field (text "sentAt") (or_null sent_at) no_field)))))))))))

unfoldable pub reimbursement_settlement :
    (Text → Text)
    → ReimbursementEvidencePhase
    → ReimbursementEvidenceRecord
    → ReimbursementEvidenceFacts
    → Checked Text
reimbursement_settlement keccak ReimbursementEvidencePhase.sent r facts =
    returned (keccak (text "reimbursement:settlement:not-paid"))
reimbursement_settlement keccak ReimbursementEvidencePhase.paid r facts = do
  settled ← required_settlement facts.settled_total facts.settlement_count
  settled_total ← canonical_decimal settled.0
  commitment keccak (
      object (
        field (text "settledTotal") (string settled_total) (
          field (text "settlementCount") (number settled.1) (
            field (text "paidAt") (or_null r.paid_at)
              (field (text "paidTxHash") (or_null r.paid_tx_hash) no_field)))))

unfoldable pub build_reimbursement :
    (Text → Text)
    → ReimbursementEvidenceRecord
    → ReimbursementEvidenceFacts
    → Checked ReimbursementCommitments
build_reimbursement keccak r facts = do
  request_id ← required_reference (text "requestId") (string r.request_id)
  team_id ← required_reference (text "teamId") (string r.team_id)
  throw_if (text_eq r.status (text "draft") || text_eq r.status (text "canceled"))
      Refusal.not_attestable
  throw_if (is_paid facts.phase && not (text_eq r.status (text "paid"))) Refusal.not_paid
  throw_if (not (is_positive_integer facts.item_count) || not (is_sha256_hex facts.items_hash))
      Refusal.invalid_items
  subtotal ← canonical_decimal r.subtotal
  percent ← optional_decimal r.markup_percent
  markup ← canonical_decimal r.markup_amount
  total ← canonical_decimal r.total
  currency ← required_reference (text "currency") (string r.currency)
  request_commitment ←
      commitment keccak
        (request_object request_id team_id facts subtotal percent markup total currency r.sent_at)
  settlement_commitment ← reimbursement_settlement keccak facts.phase r facts
  returned (record {
    phase = facts.phase;
    entity_commitment = keccak (text "reimbursement:" ++ request_id);
    request_commitment = request_commitment;
    items_hash = facts.items_hash;
    settlement_commitment = settlement_commitment;
  })
