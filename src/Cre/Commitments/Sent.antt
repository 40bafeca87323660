-- ===== src/Cre/Commitments/Sent.antt =====
-- The commitments that packages/cre/src/evidence.ts builds, once they are sent, and the rows they
-- were built from.
use bufi.Base.{◌≡◌, Bool, true, Option}
use bufi.Base.Texts.{Text}
use bufi.Cre.Checked.{returned, Gives-returned}
use bufi.Cre.Json.{Value, object}
use bufi.Cre.Reference.{ContractLifecycleEvidenceEvent}
use bufi.Cre.Records.{
  ContractLifecycleEvidenceRecord, ContractCommitments, PayrollEvidenceRecord, PayrollCommitments,
  ReportEvidenceRecord, ReportCommitments, ReimbursementEvidenceRecord, ReimbursementEvidenceFacts,
  ReimbursementCommitments, ProjectEvidenceRecord, ProjectEvidenceFacts, ProjectCommitments,
  CreEvidenceCommitments,
}
use bufi.Cre.Commitments.Contract.{build_contract}
use bufi.Cre.Commitments.Payroll.{build_payroll}
use bufi.Cre.Commitments.Report.{build_report}
use bufi.Cre.Commitments.Reimbursement.{build_reimbursement}
use bufi.Cre.Commitments.Project.{build_project}
use bufi.Cre.Commitments.Ready.{IsReady}
use bufi.Cre.Commitments.Built.{
  IsExecuted, build_contract-Gives, build_payroll-Gives, build_report-Gives,
  build_reimbursement-Gives, build_project-Gives,
}
use bufi.Cre.Response.{commitment_fields, is_bytes32, parse_commitments}
use bufi.Cre.Response.ReadBack.{is_committed, successful, parse_commitments-fields}
use bufi.Cre.Response.Sound.{parse_commitments-Gives}

-- The five ways in which commitments come about.
pub data IsBuilt (keccak : Text → Text) : CreEvidenceCommitments → Type 0 where
  contract :
      (r : ContractLifecycleEvidenceRecord) (event : ContractLifecycleEvidenceEvent)
      (c : ContractCommitments)
      → build_contract keccak r event ≡ returned c
      → IsBuilt keccak (CreEvidenceCommitments.contract c)
  payroll :
      (r : PayrollEvidenceRecord) (batch_id : Option Text) (c : PayrollCommitments)
      → build_payroll keccak r batch_id ≡ returned c
      → IsBuilt keccak (CreEvidenceCommitments.payroll c)
  report :
      (r : ReportEvidenceRecord) (c : ReportCommitments)
      → build_report keccak r ≡ returned c
      → IsBuilt keccak (CreEvidenceCommitments.report c)
  reimbursement :
      (r : ReimbursementEvidenceRecord) (facts : ReimbursementEvidenceFacts)
      (c : ReimbursementCommitments)
      → build_reimbursement keccak r facts ≡ returned c
      → IsBuilt keccak (CreEvidenceCommitments.reimbursement c)
  project :
      (r : ProjectEvidenceRecord) (facts : ProjectEvidenceFacts) (c : ProjectCommitments)
      → build_project keccak r facts ≡ returned c
      → IsBuilt keccak (CreEvidenceCommitments.project c)

module _ (is_hex : Text → Bool) (keccak : Text → Text)
    (keccak_form : (t : Text) → is_bytes32 is_hex (keccak t) ≡ true) where
  IsBuilt-committed : (e : CreEvidenceCommitments) → IsBuilt keccak e → is_committed is_hex e ≡ true
  IsBuilt-committed _ (IsBuilt.contract r event c h) =
      (Gives-returned (build_contract-Gives is_hex keccak keccak_form r event) h).0
  IsBuilt-committed _ (IsBuilt.payroll r batch_id c h) =
      (Gives-returned (build_payroll-Gives is_hex keccak keccak_form r batch_id) h).0
  IsBuilt-committed _ (IsBuilt.report r c h) =
      (Gives-returned (build_report-Gives is_hex keccak keccak_form r) h).0
  IsBuilt-committed _ (IsBuilt.reimbursement r facts c h) =
      (Gives-returned (build_reimbursement-Gives is_hex keccak keccak_form r facts) h).0
  IsBuilt-committed _ (IsBuilt.project r facts c h) =
      Gives-returned (build_project-Gives is_hex keccak keccak_form r facts) h

  -- With a hash that is a hexadecimal text of 66 characters, the commitments that any of the five
  -- builders returns are parsed as they were, bare or in an answer that is marked successful.
  pub parse_commitments-IsBuilt :
      (e : CreEvidenceCommitments)
      → IsBuilt keccak e
      → (parse_commitments is_hex (object (commitment_fields e)) ≡ returned e)
        × (parse_commitments is_hex (successful e) ≡ returned e)
  parse_commitments-IsBuilt e built = parse_commitments-fields is_hex e (IsBuilt-committed e built)

  -- With such a hash, a contract event that is attested is the event asked for, and its agreement is
  -- in a state that allows the event.
  pub build_contract-IsReady :
      (r : ContractLifecycleEvidenceRecord) (event : ContractLifecycleEvidenceEvent)
      (c : ContractCommitments)
      → build_contract keccak r event ≡ returned c
      → (c.event ≡ event) × IsReady c.event r
  build_contract-IsReady r event c h =
      (Gives-returned (build_contract-Gives is_hex keccak keccak_form r event) h).1

  -- With such a hash, a payroll that is attested was executed at some time, and its recipient count
  -- is the number of recipients in all its groups.
  pub build_payroll-IsExecuted :
      (r : PayrollEvidenceRecord) (batch_id : Option Text) (c : PayrollCommitments)
      → build_payroll keccak r batch_id ≡ returned c
      → IsExecuted r
  build_payroll-IsExecuted r batch_id c h =
      (Gives-returned (build_payroll-Gives is_hex keccak keccak_form r batch_id) h).1

-- Whatever a response is, the commitments accepted from it are hexadecimal texts of 66 characters,
-- and its hash of items has 64 digits.
pub parse_commitments-returned :
    (is_hex : Text → Bool) (v : Value) (e : CreEvidenceCommitments)
    → parse_commitments is_hex v ≡ returned e
    → is_committed is_hex e ≡ true
parse_commitments-returned is_hex v e h = Gives-returned (parse_commitments-Gives is_hex v) h
