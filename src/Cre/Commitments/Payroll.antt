-- ===== src/Cre/Commitments/Payroll.antt =====
-- `buildPayrollEvidenceCommitments` of packages/cre/src/evidence.ts.
use bufi.Base.{ℕ, ◌+◌, ◌==◌, Bool, false, not, ◌||◌, Option, ◌++◌, if◌then◌else◌}
use bufi.Base.Int.{pos}
use bufi.Base.Texts.{Text, text, text_eq}
use bufi.Cre.Checked.{Checked, returned, thrown, Refusal, ◌>>=◌, ◌>>◌, throw_if}
use bufi.Cre.Json.{
  Number, whole, Value, number, string, array, object, Items, no_item, item, Fields, no_field,
  field, lookup,
}
use bufi.Cre.Decimal.{canonical_decimal}
use bufi.Cre.Reference.{required_reference}
use bufi.Cre.Records.{PayrollEvidenceRecord, PayrollCommitments}
use bufi.Cre.Commitments.{commitment, or_null, is_present, is_object_like, is_positive_integer}

-- One recipient of a group: an object with an amount and a wallet.
unfoldable pub check_recipient : Value → Checked (Unit {0})
check_recipient (object candidate) = do
  amount ← canonical_decimal (lookup (text "amount") candidate)
  wallet ← required_reference (text "recipient wallet") (lookup (text "walletAddress") candidate)
  returned tt
check_recipient _ = thrown Refusal.invalid_recipient

-- The inner loop, with the recipients counted so far.
unfoldable pub count_group : ℕ → Items → Checked ℕ
count_group counted no_item = returned counted
count_group counted (item recipient rest) =
    check_recipient recipient >> count_group (counted + 1) rest

unfoldable pub count_value : ℕ → Value → Checked ℕ
count_value counted (array group) = count_group counted group
count_value counted _ = thrown Refusal.invalid_recipient_group

-- The outer loop, over `Object.values`: an object's members, or an array's items.
unfoldable pub count_fields : ℕ → Fields → Checked ℕ
count_fields counted no_field = returned counted
count_fields counted (field key group rest) = count_value counted group >>= λ n. count_fields n rest

unfoldable pub count_items : ℕ → Items → Checked ℕ
count_items counted no_item = returned counted
count_items counted (item group rest) = count_value counted group >>= λ n. count_items n rest

unfoldable pub count_recipients : Value → Checked ℕ
count_recipients (object groups) = count_fields 0 groups
count_recipients (array groups) = count_items 0 groups
count_recipients _ = thrown Refusal.invalid_recipients

-- `counted === record.recipientCount`
abbrev pub is_number : ℕ → Number → Bool
is_number n (whole (pos m)) = n == m
is_number n _ = false

unfoldable pub payroll_object : Text → Text → Text → Text → Text → Text → Number → Text → Value
payroll_object payroll_id team_id start end usdc eurc recipient_count executed_at = object (
    field (text "payrollId") (string payroll_id) (
      field (text "teamId") (string team_id) (
        field (text "payPeriodStart") (string start) (
          field (text "payPeriodEnd") (string end) (
            field (text "totalAmountUsdc") (string usdc) (
              field (text "totalAmountEurc") (string eurc) (
                field (text "recipientCount") (number recipient_count)
                  (field (text "executedAt") (string executed_at) no_field))))))))

-- `batchId ? ... : ...`
unfoldable pub batch_commitment_of : (Text → Text) → Option Text → Text → Checked Text
batch_commitment_of keccak batch_id record_commitment =
    if is_present batch_id
    then (required_reference (text "batchId") (or_null batch_id) >>= λ t.
        returned (keccak (text "payroll-batch:" ++ t)))
    else returned (keccak (text "payroll-record:" ++ record_commitment))

unfoldable pub build_payroll :
    (Text → Text) → PayrollEvidenceRecord → Option Text → Checked PayrollCommitments
build_payroll keccak r batch_id = do
  payroll_id ← required_reference (text "payrollId") (string r.payroll_id)
  team_id ← required_reference (text "teamId") (string r.team_id)
  throw_if (not (text_eq r.status (text "executed")) || not (is_present r.executed_at))
      Refusal.not_executed
  throw_if (not (is_positive_integer r.recipient_count)) Refusal.invalid_recipient_count
  throw_if (not (is_object_like r.recipients)) Refusal.invalid_recipients
  counted ← count_recipients r.recipients
  throw_if (not (is_number counted r.recipient_count)) Refusal.recipient_count_differs
  start ← required_reference (text "payPeriodStart") (string r.pay_period_start)
  finish ← required_reference (text "payPeriodEnd") (string r.pay_period_end)
  usdc ← canonical_decimal r.total_amount_usdc
  eurc ← canonical_decimal r.total_amount_eurc
  executed_at ← required_reference (text "executedAt") (or_null r.executed_at)
  record_commitment ←
      commitment keccak
        (payroll_object payroll_id team_id start finish usdc eurc r.recipient_count executed_at)
  recipient_commitment ← commitment keccak r.recipients
  batch_commitment ← batch_commitment_of keccak batch_id record_commitment
  returned (record {
    entity_commitment = keccak (text "payroll:" ++ payroll_id);
    record_commitment = record_commitment;
    recipient_commitment = recipient_commitment;
    batch_commitment = batch_commitment;
  })
