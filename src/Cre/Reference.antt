-- ===== src/Cre/Reference.antt =====
-- The references of packages/cre/src/evidence.ts, and their checks.
use bufi.Base.{
  ℕ, zero, suc, ◌==◌, Bool, false, not, ◌&&◌, ◌||◌, Option, none, some, [], ◌∷◌, any, all, ltb, leb,
  length, if◌then◌else◌,
}
use bufi.Base.Texts.{Text, text, text_eq}
use bufi.Treasury.Validate.{is_hex}
use bufi.Cre.Checked.{Checked, returned, thrown, Refusal, ◌>>=◌, ◌>>◌, throw_if}
use bufi.Cre.Json.{Value, string, Fields, no_field, field, lookup, is_nonempty, is_truthy}

abbrev pub max_reference_length : ℕ
max_reference_length = 256

abbrev pub is_control : ℕ → Bool
is_control c = ltb c 32 || c == 127

abbrev pub is_reference : Text → Bool
is_reference t = is_nonempty t && (leb (length t) max_reference_length && not (any is_control t))

unfoldable pub required_reference : Text → Value → Checked Text
required_reference name (string t) =
    if is_reference t then returned t else thrown (Refusal.invalid_field name)
required_reference name _ = thrown (Refusal.invalid_field name)

pub data ContractLifecycleEvidenceEvent : Type 0 where
  contract_deploy contract_sign contract_fund : ContractLifecycleEvidenceEvent
  contract_complete contract_cancel : ContractLifecycleEvidenceEvent

pub data ProjectEvidencePhase : Type 0 where
  sent paid closed : ProjectEvidencePhase

pub data ReimbursementEvidencePhase : Type 0 where
  sent paid : ReimbursementEvidencePhase

abbrev pub event_text : ContractLifecycleEvidenceEvent → Text
event_text contract_deploy = text "contract_deploy"
event_text contract_sign = text "contract_sign"
event_text contract_fund = text "contract_fund"
event_text contract_complete = text "contract_complete"
event_text contract_cancel = text "contract_cancel"

abbrev pub project_phase_text : ProjectEvidencePhase → Text
project_phase_text sent = text "sent"
project_phase_text paid = text "paid"
project_phase_text closed = text "closed"

abbrev pub reimbursement_phase_text : ReimbursementEvidencePhase → Text
reimbursement_phase_text sent = text "sent"
reimbursement_phase_text paid = text "paid"

-- `value === 'literal'`
abbrev pub is_string : Text → Value → Bool
is_string t (string s) = text_eq s t
is_string t _ = false

unfoldable pub required_contract_event : Value → Checked ContractLifecycleEvidenceEvent
required_contract_event value =
    if is_string (text "contract_deploy") value
    then returned contract_deploy
    else if is_string (text "contract_sign") value
    then returned contract_sign
    else if is_string (text "contract_fund") value
    then returned contract_fund
    else if is_string (text "contract_complete") value
    then returned contract_complete
    else if is_string (text "contract_cancel") value
    then returned contract_cancel
    else thrown Refusal.invalid_contract_event

unfoldable pub required_project_phase : Value → Checked ProjectEvidencePhase
required_project_phase value =
    if is_string (text "sent") value
    then returned ProjectEvidencePhase.sent
    else if is_string (text "paid") value
    then returned ProjectEvidencePhase.paid
    else if is_string (text "closed") value
    then returned ProjectEvidencePhase.closed
    else thrown Refusal.invalid_project_phase

unfoldable pub required_reimbursement_phase : Value → Checked ReimbursementEvidencePhase
required_reimbursement_phase value =
    if is_string (text "sent") value
    then returned ReimbursementEvidencePhase.sent
    else if is_string (text "paid") value
    then returned ReimbursementEvidencePhase.paid
    else thrown Refusal.invalid_reimbursement_phase

pub data CreEvidenceReference : Type 0 where
  payment_score : Text → Text → CreEvidenceReference
  contract : Text → Text → ContractLifecycleEvidenceEvent → CreEvidenceReference
  payroll : Text → Text → Option Text → CreEvidenceReference
  reimbursement : Text → Text → ReimbursementEvidencePhase → CreEvidenceReference
  report : Text → Text → CreEvidenceReference
  project : Text → Text → ProjectEvidencePhase → CreEvidenceReference

abbrev named : Text → Text → Text → Fields → Fields
named kind entity_id team_id rest =
    field (text "kind") (string kind)
      (field (text "entityId") (string entity_id) (field (text "teamId") (string team_id) rest))

abbrev batch_field : Option Text → Fields
batch_field none = no_field
batch_field (some batch_id) = field (text "batchId") (string batch_id) no_field

-- A reference as the object it is in the code.
abbrev pub reference_fields : CreEvidenceReference → Fields
reference_fields (payment_score e t) = named (text "payment-score") e t no_field
reference_fields (contract e t event) =
    named (text "contract") e t (field (text "event") (string (event_text event)) no_field)
reference_fields (payroll e t batch_id) = named (text "payroll") e t (batch_field batch_id)
reference_fields (reimbursement e t phase) =
    named (text "reimbursement") e t
      (field (text "phase") (string (reimbursement_phase_text phase)) no_field)
reference_fields (report e t) = named (text "report") e t no_field
reference_fields (project e t phase) =
    named (text "project") e t (field (text "phase") (string (project_phase_text phase)) no_field)

-- `[0-9a-f]{n}` and `-`, without regard to case: what stands behind them.
unfoldable pub after_hex : ℕ → Text → Option Text
after_hex zero [] = none
after_hex zero (c ∷ cs) = if c == b'-' then some cs else none
after_hex (suc n) [] = none
after_hex (suc n) (c ∷ cs) = let rest = after_hex n cs in if is_hex c then rest else none

abbrev and_then : Option Text → (Text → Option Text) → Option Text
and_then none next = none
and_then (some t) next = next t

abbrev is_last_run : Option Text → Bool
is_last_run none = false
is_last_run (some t) = (length t == 12) && all is_hex t

-- The five groups of hexadecimal digits of a UUID.
unfoldable pub is_uuid : Text → Bool
is_uuid t =
    is_last_run
      (and_then (and_then (and_then (after_hex 8 t) (after_hex 4)) (after_hex 4)) (after_hex 4))

-- `reference.batchId ? { batchId: requiredReference(...) } : {}`
unfoldable pub optional_batch : Value → Checked (Option Text)
optional_batch value =
    if is_truthy value
    then (required_reference (text "batchId") value >>= λ t. returned (some t))
    else returned none

-- The cases of `switch (reference.kind)`; no case fits any other kind, and nothing is returned.
unfoldable pub validate_kind : Value → Fields → Text → Text → Checked (Option CreEvidenceReference)
validate_kind kind reference entity_id team_id =
    if is_string (text "payment-score") kind
    then (do
      throw_if (not (text_eq entity_id team_id) || not (is_uuid team_id)) Refusal.invalid_workspace
      returned (some (payment_score entity_id team_id)))
    else if is_string (text "contract") kind
    then (do
      event ← required_contract_event (lookup (text "event") reference)
      returned (some (contract entity_id team_id event)))
    else if is_string (text "payroll") kind
    then (do
      batch_id ← optional_batch (lookup (text "batchId") reference)
      returned (some (payroll entity_id team_id batch_id)))
    else if is_string (text "reimbursement") kind
    then (do
      phase ← required_reimbursement_phase (lookup (text "phase") reference)
      returned (some (reimbursement entity_id team_id phase)))
    else if is_string (text "report") kind
    then returned (some (report entity_id team_id))
    else if is_string (text "project") kind
    then (do
      phase ← required_project_phase (lookup (text "phase") reference)
      returned (some (project entity_id team_id phase)))
    else returned none

unfoldable pub validate_reference : Fields → Checked (Option CreEvidenceReference)
validate_reference reference = do
  entity_id ← required_reference (text "entityId") (lookup (text "entityId") reference)
  team_id ← required_reference (text "teamId") (lookup (text "teamId") reference)
  validate_kind (lookup (text "kind") reference) reference entity_id team_id
