-- ===== src/Cre/Response/Sound.antt =====
-- What packages/cre/src/evidence.ts accepts as commitments.
use bufi.Base.{◌≡◌, Bool, true, true_and}
use bufi.Base.Texts.{Text, text}
use bufi.Cre.Checked.{Gives, gives, refuses, Gives-any, >>=-Gives, if-Gives}
use bufi.Cre.Json.{Value, string, Fields, lookup}
use bufi.Cre.Reference.{
  is_string, required_contract_event, required_project_phase, required_reimbursement_phase,
}
use bufi.Cre.Token.{fields_of}
use bufi.Cre.Records.{CreEvidenceCommitments}
use bufi.Cre.Commitments.{is_sha256_hex}
use bufi.Cre.Response.{
  or_invalid_response, unwrap, is_bytes32, required_commitment, required_items_hash, parse_contract,
  parse_payroll, parse_reimbursement, parse_report, parse_project, parse_kind, parse_commitments,
}
use bufi.Cre.Response.ReadBack.{is_committed}

module _ (is_hex : Text → Bool) where
  required_commitment-Gives :
      (name : Text) (v : Value)
      → Gives (λ t. is_bytes32 is_hex t ≡ true) (required_commitment is_hex name v)
  unfolding required_commitment
  required_commitment-Gives name (string s) =
      if-Gives (is_bytes32 is_hex s) (λ h. gives h) (λ h. refuses)
  required_commitment-Gives name _ = refuses

  required_items_hash-Gives :
      (v : Value) → Gives (λ t. is_sha256_hex t ≡ true) (required_items_hash v)
  unfolding required_items_hash
  required_items_hash-Gives (string s) = if-Gives (is_sha256_hex s) (λ h. gives h) (λ h. refuses)
  required_items_hash-Gives _ = refuses

  parse_contract-Gives :
      (entity : Text) (fields : Fields)
      → is_bytes32 is_hex entity ≡ true
      → Gives
          (λ c. is_committed is_hex (CreEvidenceCommitments.contract c) ≡ true)
          (parse_contract is_hex entity fields)
  unfolding parse_contract
  parse_contract-Gives entity fields h =
      >>=-Gives (Gives-any (required_contract_event (lookup (text "event") fields))) λ event done.
        >>=-Gives (required_commitment-Gives _ _) λ agreement agreement_form.
          >>=-Gives (required_commitment-Gives _ _) λ state state_form.
            >>=-Gives (required_commitment-Gives _ _) λ snapshot snapshot_form.
              gives (
                true_and _ _ h
                  (true_and _ _ agreement_form (true_and _ _ state_form snapshot_form)))

  parse_payroll-Gives :
      (entity : Text) (fields : Fields)
      → is_bytes32 is_hex entity ≡ true
      → Gives
          (λ c. is_committed is_hex (CreEvidenceCommitments.payroll c) ≡ true)
          (parse_payroll is_hex entity fields)
  unfolding parse_payroll
  parse_payroll-Gives entity fields h = >>=-Gives (required_commitment-Gives _ _) λ row row_form.
      >>=-Gives (required_commitment-Gives _ _) λ recipient recipient_form.
        >>=-Gives (required_commitment-Gives _ _) λ batch batch_form.
          gives (true_and _ _ h (true_and _ _ row_form (true_and _ _ recipient_form batch_form)))

  parse_reimbursement-Gives :
      (entity : Text) (fields : Fields)
      → is_bytes32 is_hex entity ≡ true
      → Gives
          (λ c. is_committed is_hex (CreEvidenceCommitments.reimbursement c) ≡ true)
          (parse_reimbursement is_hex entity fields)
  unfolding parse_reimbursement
  parse_reimbursement-Gives entity fields h =
      >>=-Gives (Gives-any (required_reimbursement_phase (lookup (text "phase") fields)))
        λ phase done. >>=-Gives (required_items_hash-Gives _) λ items items_form.
          >>=-Gives (required_commitment-Gives _ _) λ request request_form.
            >>=-Gives (required_commitment-Gives _ _) λ settlement settlement_form.
              gives (
                true_and _ _ h
                  (true_and _ _ request_form (true_and _ _ items_form settlement_form)))

  parse_report-Gives :
      (entity : Text) (fields : Fields)
      → is_bytes32 is_hex entity ≡ true
      → Gives
          (λ c. is_committed is_hex (CreEvidenceCommitments.report c) ≡ true)
          (parse_report is_hex entity fields)
  unfolding parse_report
  parse_report-Gives entity fields h =
      >>=-Gives (required_commitment-Gives _ _) λ report report_form.
        >>=-Gives (required_commitment-Gives _ _) λ transactions transactions_form.
          >>=-Gives (required_commitment-Gives _ _) λ metrics metrics_form.
            >>=-Gives (required_commitment-Gives _ _) λ analysis analysis_form.
              >>=-Gives (required_commitment-Gives _ _) λ combined combined_form. gives (
                true_and _ _ h (
                  true_and _ _ report_form (
                    true_and _ _ transactions_form
                      (true_and _ _ metrics_form (true_and _ _ analysis_form combined_form)))))

  parse_project-Gives :
      (entity : Text) (fields : Fields)
      → is_bytes32 is_hex entity ≡ true
      → Gives
          (λ c. is_committed is_hex (CreEvidenceCommitments.project c) ≡ true)
          (parse_project is_hex entity fields)
  unfolding parse_project
  parse_project-Gives entity fields h =
      >>=-Gives (Gives-any (required_project_phase (lookup (text "phase") fields))) λ phase done.
        >>=-Gives (required_items_hash-Gives _) λ items items_form.
          >>=-Gives (required_commitment-Gives _ _) λ project project_form.
            >>=-Gives (required_commitment-Gives _ _) λ settlement settlement_form.
              gives (
                true_and _ _ h
                  (true_and _ _ project_form (true_and _ _ items_form settlement_form)))

  parse_kind-Gives :
      (kind : Value) (entity : Text) (fields : Fields)
      → is_bytes32 is_hex entity ≡ true
      → Gives (λ e. is_committed is_hex e ≡ true) (parse_kind is_hex kind entity fields)
  unfolding parse_kind
  parse_kind-Gives kind entity fields h =
      if-Gives (is_string (text "contract") kind)
        (λ e. >>=-Gives (parse_contract-Gives entity fields h) λ c p. gives p)
        λ e.
          if-Gives (is_string (text "payroll") kind)
            (λ e. >>=-Gives (parse_payroll-Gives entity fields h) λ c p. gives p)
            λ e.
              if-Gives (is_string (text "reimbursement") kind)
                (λ e. >>=-Gives (parse_reimbursement-Gives entity fields h) λ c p. gives p)
                λ e.
                  if-Gives (is_string (text "report") kind)
                    (λ e. >>=-Gives (parse_report-Gives entity fields h) λ c p. gives p)
                    λ e.
                      if-Gives (is_string (text "project") kind)
                        (λ e. >>=-Gives (parse_project-Gives entity fields h) λ c p. gives p)
                        λ e. refuses

  -- Whatever is accepted has hashes of their form.
  pub parse_commitments-Gives :
      (v : Value) → Gives (λ e. is_committed is_hex e ≡ true) (parse_commitments is_hex v)
  unfolding parse_commitments
  parse_commitments-Gives v =
      >>=-Gives (Gives-any (or_invalid_response (fields_of v))) λ wrapper done.
        >>=-Gives (Gives-any (or_invalid_response (fields_of (unwrap wrapper)))) λ evidence done.
          >>=-Gives (required_commitment-Gives _ _)
            λ entity form. parse_kind-Gives _ entity evidence form
