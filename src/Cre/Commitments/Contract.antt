-- ===== src/Cre/Commitments/Contract.antt =====
-- `buildContractLifecycleEvidenceCommitments` of packages/cre/src/evidence.ts.
use bufi.Base.{Bool, false, not, ◌&&◌, ◌||◌, Option, none, some, ◌++◌}
use bufi.Base.Texts.{Text, text, text_eq}
use bufi.Cre.Checked.{Checked, returned, Refusal, ◌>>=◌, ◌>>◌, throw_if}
use bufi.Cre.Json.{Number, Value, null, bool, number, string, object, no_field, field}
use bufi.Cre.Decimal.{canonical_decimal}
use bufi.Cre.Reference.{
  ContractLifecycleEvidenceEvent, contract_deploy, contract_sign, contract_fund, contract_complete,
  contract_cancel, event_text, required_reference, required_contract_event,
}
use bufi.Cre.Records.{ContractLifecycleEvidenceRecord, ContractCommitments}
use bufi.Cre.Commitments.{commitment, or_null, is_present, is_object_like, is_positive_integer}

abbrev pub bad_chain_id : Option Number → Bool
bad_chain_id none = false
bad_chain_id (some n) = not (is_positive_integer n)

abbrev chain_value : Option Number → Value
chain_value none = null
chain_value (some n) = number n

-- The five tests on the event and the state, each with the refusal it leads to.
unfoldable pub check_ready :
    ContractLifecycleEvidenceEvent → Text → Text → Option Text → Option Text → Checked (Unit {0})
check_ready contract_fund status funded_amount funded_at escrow_address =
    throw_if (not (is_present funded_at) || text_eq funded_amount (text "0"))
      Refusal.funding_not_ready
check_ready contract_sign status funded_amount funded_at escrow_address =
    throw_if
      (not (text_eq status (text "pending_sign"))
        && (not (text_eq status (text "active")) && not (text_eq status (text "completed"))))
      Refusal.signing_not_ready
check_ready contract_complete status funded_amount funded_at escrow_address =
    throw_if (not (text_eq status (text "completed"))) Refusal.completion_not_ready
check_ready contract_cancel status funded_amount funded_at escrow_address =
    throw_if (not (text_eq status (text "cancelled")) && not (text_eq status (text "canceled")))
      Refusal.cancellation_not_ready
check_ready contract_deploy status funded_amount funded_at escrow_address =
    throw_if
      (not (is_present escrow_address)
        && (not (text_eq status (text "deploying"))
            && (not (text_eq status (text "active")) && not (text_eq status (text "completed")))))
      Refusal.deployment_not_ready

-- The object behind `stateCommitment`.
unfoldable pub contract_state : ContractLifecycleEvidenceRecord → Text → Text → Text → Text → Value
contract_state r funded_amount total_amount status updated_at = object (
    field (text "agreementHash") (or_null r.agreement_hash) (
      field (text "chainId") (chain_value r.chain_id) (
        field (text "escrowConfigured") (bool (is_present r.escrow_address)) (
          field (text "fundedAmount") (string funded_amount) (
            field (text "fundedAt") (or_null r.funded_at) (
              field (text "status") (string status) (
                field (text "totalAmount") (string total_amount)
                  (field (text "updatedAt") (string updated_at) no_field))))))))

-- The object behind `snapshotCommitment`.
unfoldable pub contract_snapshot : Text → ContractLifecycleEvidenceEvent → Text → Text → Value
contract_snapshot agreement_commitment event state_commitment team_commitment = object (
    field (text "agreementCommitment") (string agreement_commitment) (
      field (text "event") (string (event_text event)) (
        field (text "stateCommitment") (string state_commitment)
          (field (text "teamCommitment") (string team_commitment) no_field))))

unfoldable pub build_contract :
    (Text → Text)
    → ContractLifecycleEvidenceRecord
    → ContractLifecycleEvidenceEvent
    → Checked ContractCommitments
build_contract keccak r event = do
  agreement_id ← required_reference (text "agreementId") (string r.agreement_id)
  team_id ← required_reference (text "teamId") (string r.team_id)
  normalized_event ← required_contract_event (string (event_text event))
  status ← required_reference (text "contract status") (string r.status)
  updated_at ← required_reference (text "contract updatedAt") (string r.updated_at)
  throw_if (not (is_object_like r.agreement)) Refusal.invalid_agreement
  throw_if (bad_chain_id r.chain_id) Refusal.invalid_chain_id
  funded_amount ← canonical_decimal r.funded_amount
  total_amount ← canonical_decimal r.total_amount
  check_ready normalized_event status funded_amount r.funded_at r.escrow_address
  agreement_commitment ← commitment keccak r.agreement
  state_commitment ←
      commitment keccak (contract_state r funded_amount total_amount status updated_at)
  snapshot_commitment ← commitment keccak (
      contract_snapshot agreement_commitment normalized_event state_commitment
        (keccak (text "team:" ++ team_id)))
  returned (record {
    event = normalized_event;
    entity_commitment = keccak (text "contract:" ++ agreement_id);
    agreement_commitment = agreement_commitment;
    state_commitment = state_commitment;
    snapshot_commitment = snapshot_commitment;
  })
