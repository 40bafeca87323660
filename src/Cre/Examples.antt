-- ===== src/Cre/Examples.antt =====
-- Runs of the model of packages/cre/src/evidence.ts on small inputs, and its theorems there.
use bufi.Base.{ℕ, suc, zero, ◌≡◌, ◌≢◌, refl, true, Option, some, none, [], ◌∷◌, ◌++◌, arith}
use bufi.Base.Int.{pos, ◌+ℤ◌}
use bufi.Base.Texts.{Text, text}
use bufi.AgentApp.State.{is_hex}
use bufi.Cre.Checked.{returned, thrown, Refusal}
use bufi.Cre.Json.{
  Value, Number, whole, finite, null, bool, number, string, array, object, no_item, item, no_field,
  field, stable_stringify, lookup, Fields,
}
use bufi.Cre.Json.Reordered.{Reordered, ReorderedFields, stable_stringify-Reordered}
use bufi.Cre.Decimal.{canonical_decimal}
use bufi.Cre.Reference.{
  CreEvidenceReference, payroll, contract_sign, required_reference, validate_reference,
  reference_fields,
}
use bufi.Cre.Records.{
  ContractLifecycleEvidenceRecord, ContractCommitments, PayrollEvidenceRecord, PayrollCommitments,
  CreEvidenceCommitments,
}
use bufi.Cre.Commitments.Contract.{build_contract}
use bufi.Cre.Commitments.Payroll.{build_payroll}
use bufi.Cre.Commitments.Ready.{IsReady}
use bufi.Cre.Commitments.Built.{IsExecuted}
use bufi.Cre.Commitments.Sent.{
  IsBuilt, parse_commitments-IsBuilt, build_contract-IsReady, build_payroll-IsExecuted,
  parse_commitments-returned,
}
use bufi.Cre.Response.{commitment_fields, is_bytes32, parse_commitments}
use bufi.Cre.Response.ReadBack.{is_committed, successful}
use bufi.Cre.Token.{
  CreEvidenceClaims, CreEvidenceTokenOptions, create_token, open_token, claims_of, claims_object,
  seconds_of,
}
use bufi.Cre.Token.Lifetime.{IsAlive, open_token-IsAlive}
use bufi.Cre.Token.RoundTrip.{ReadsBack, open_token-create_token}

canonical_zeros : canonical_decimal (string (text "007.500")) ≡ returned (text "7.5")
unfolding bufi.Cre.Decimal.canonical_text bufi.Subgraph.Caip.split
    bufi.Cre.Decimal.drop_leading_zeros bufi.Cre.Decimal.drop_trailing_zeros bufi.Cre.Json.string_of
canonical_zeros = refl

canonical_exponent : canonical_decimal (string (text "1e3")) ≡ thrown Refusal.invalid_decimal
unfolding bufi.Cre.Decimal.canonical_text bufi.Subgraph.Caip.split bufi.Cre.Json.string_of
canonical_exponent = refl

-- {"b":2,"a":[null,true]}
abbrev unordered : Value
unordered = object (
    field (text "b") (number (whole (pos 2)))
      (field (text "a") (array (item null (item (bool true) no_item))) no_field))

abbrev ordered : Value
ordered = object (
    field (text "a") (array (item null (item (bool true) no_item)))
      (field (text "b") (number (whole (pos 2))) no_field))

stringify_sorts : stable_stringify unordered ≡ returned (text "{\"a\":[null,true],\"b\":2}")
unfolding stable_stringify bufi.Cre.Json.insert_printed bufi.Cre.Json.join_printed
    bufi.Cre.Json.quote bufi.Cre.Json.quote_rest bufi.Treasury.SdkArgs.to_string
    bufi.Treasury.SdkArgs.decimal bufi.Treasury.SdkArgs.decimal_from
stringify_sorts = refl

b≢a : text "b" ≢ text "a"
b≢a e = ground arith

stable_stringify-Reordered_example : stable_stringify unordered ≡ stable_stringify ordered
stable_stringify-Reordered_example =
    stable_stringify-Reordered unordered ordered
      (Reordered.in_object (ReorderedFields.swapped (text "b") (text "a") _ _ no_field b≢a))

abbrev zeros : ℕ → Text
zeros zero = []
zeros (suc n) = b'0' ∷ zeros n

-- A hash that gives one text for all.
abbrev one_hash : Text → Text
one_hash t = b'0' ∷ b'x' ∷ zeros 64

one_hash-form : (t : Text) → is_bytes32 is_hex (one_hash t) ≡ true
unfolding is_bytes32 is_hex
one_hash-form t = refl

abbrev agreement : ContractLifecycleEvidenceRecord
agreement = record {
  agreement_id = text "a1";
  team_id = text "t1";
  status = text "active";
  agreement_hash = none;
  chain_id = some (whole (pos 43113));
  total_amount = string (text "100.50");
  funded_amount = string (text "0");
  funded_at = none;
  escrow_address = none;
  updated_at = text "2026-07-18";
  agreement = object no_field;
}

abbrev agreement_commitments : ContractCommitments
agreement_commitments = record {
  event = contract_sign;
  entity_commitment = one_hash [];
  agreement_commitment = one_hash [];
  state_commitment = one_hash [];
  snapshot_commitment = one_hash [];
}

agreement-built : build_contract one_hash agreement contract_sign ≡ returned agreement_commitments
unfolding build_contract stable_stringify required_reference
    bufi.Cre.Reference.required_contract_event bufi.Cre.Decimal.canonical_text
    bufi.Subgraph.Caip.split bufi.Cre.Json.string_of bufi.Cre.Commitments.Contract.check_ready
    bufi.Cre.Commitments.commitment bufi.Cre.Json.join_printed
    bufi.Cre.Commitments.Contract.contract_state bufi.Cre.Json.insert_printed
    bufi.Cre.Commitments.Contract.contract_snapshot
agreement-built = refl

abbrev payment : PayrollEvidenceRecord
payment = record {
  payroll_id = text "p1";
  team_id = text "t1";
  status = text "executed";
  pay_period_start = text "2026-07-01";
  pay_period_end = text "2026-07-31";
  total_amount_usdc = string (text "10");
  total_amount_eurc = number (whole (pos 0));
  recipient_count = whole (pos 1);
  recipients = object (
      field (text "team")
        (array (
          item
            (object (
              field (text "amount") (string (text "10"))
                (field (text "walletAddress") (string (text "0xab")) no_field)))
            no_item))
        no_field);
  executed_at = some (text "2026-08-01");
}

abbrev payment_commitments : PayrollCommitments
payment_commitments = record {
  entity_commitment = one_hash [];
  record_commitment = one_hash [];
  recipient_commitment = one_hash [];
  batch_commitment = one_hash [];
}

payment-built : build_payroll one_hash payment none ≡ returned payment_commitments
unfolding build_payroll required_reference stable_stringify bufi.Cre.Decimal.canonical_text
    bufi.Subgraph.Caip.split bufi.Cre.Json.string_of bufi.Treasury.SdkArgs.to_string
    bufi.Treasury.SdkArgs.decimal bufi.Treasury.SdkArgs.decimal_from
    bufi.Cre.Commitments.Payroll.count_recipients bufi.Cre.Commitments.Payroll.count_fields
    bufi.Cre.Commitments.Payroll.count_value bufi.Cre.Commitments.Payroll.count_group
    bufi.Cre.Commitments.Payroll.check_recipient bufi.Cre.Commitments.Payroll.payroll_object
    bufi.Cre.Commitments.Payroll.batch_commitment_of bufi.Cre.Commitments.commitment
    bufi.Cre.Json.join_printed bufi.Cre.Json.insert_printed
payment-built = refl

parse_commitments-IsBuilt_example :
    (parse_commitments is_hex
        (object (commitment_fields (CreEvidenceCommitments.contract agreement_commitments)))
      ≡ returned (CreEvidenceCommitments.contract agreement_commitments))
    × (parse_commitments is_hex (successful (CreEvidenceCommitments.contract agreement_commitments))
        ≡ returned (CreEvidenceCommitments.contract agreement_commitments))
parse_commitments-IsBuilt_example =
    parse_commitments-IsBuilt is_hex one_hash one_hash-form
      (CreEvidenceCommitments.contract agreement_commitments)
      (IsBuilt.contract agreement contract_sign agreement_commitments agreement-built)

build_contract-IsReady_example :
    (agreement_commitments.event ≡ contract_sign) × IsReady agreement_commitments.event agreement
build_contract-IsReady_example =
    build_contract-IsReady is_hex one_hash one_hash-form agreement contract_sign
      agreement_commitments agreement-built

build_payroll-IsExecuted_example : IsExecuted payment
build_payroll-IsExecuted_example =
    build_payroll-IsExecuted is_hex one_hash one_hash-form payment none payment_commitments
      payment-built

payroll-parsed :
    parse_commitments is_hex
      (object (commitment_fields (CreEvidenceCommitments.payroll payment_commitments)))
    ≡ returned (CreEvidenceCommitments.payroll payment_commitments)
unfolding parse_commitments commitment_fields bufi.Cre.Response.or_invalid_response
    bufi.Cre.Response.required_commitment is_bytes32 is_hex bufi.Cre.Response.parse_kind
    bufi.Cre.Response.parse_payroll
payroll-parsed = refl

parse_commitments-returned_example :
    is_committed is_hex (CreEvidenceCommitments.payroll payment_commitments) ≡ true
parse_commitments-returned_example =
    parse_commitments-returned is_hex
      (object (commitment_fields (CreEvidenceCommitments.payroll payment_commitments)))
      (CreEvidenceCommitments.payroll payment_commitments) payroll-parsed

-- A seal that puts one character in front.
abbrev bang : Text → Text
bang t = b'!' ∷ t

abbrev unbang : Text → Option Text
unbang [] = none
unbang (c ∷ cs) = some cs

abbrev payroll_reference : CreEvidenceReference
payroll_reference = payroll (text "p1") (text "t1") none

abbrev one_minute : CreEvidenceTokenOptions
one_minute = record {
  now = some (pos 1000000);
  nonce = some (text "n");
  ttl_seconds = some (whole (pos 60));
}

abbrev payroll_claims : CreEvidenceClaims
payroll_claims = record {
  reference = some payroll_reference;
  expires_at = pos 1060;
  issued_at = pos 1000;
  nonce = text "n";
}

-- The parser's answer on the one text that the example seals.
abbrev parse_payroll_claims : Text → Option Value
parse_payroll_claims t = some (object (claims_object payroll_claims))

abbrev payroll_token : Text
payroll_token =
    text "bufi_cre_evidence_v1.!"
    ++ text "{\"audience\":\"bufi-cre-evidence\",\"entityId\":\"p1\",\"expiresAt\":1060,"
    ++ text
        "\"issuedAt\":1000,\"kind\":\"payroll\",\"nonce\":\"n\",\"teamId\":\"t1\",\"version\":1}"

payroll_token-created :
    create_token payroll_reference bang one_minute (pos 0) [] ≡ returned payroll_token
unfolding create_token validate_reference required_reference bufi.Cre.Reference.validate_kind
    bufi.Cre.Reference.optional_batch claims_of stable_stringify bufi.Cre.Json.join_printed
    claims_object bufi.Cre.Json.insert_printed bufi.Cre.Json.quote bufi.Cre.Json.quote_rest
    bufi.Treasury.SdkArgs.to_string ◌+ℤ◌ bufi.Treasury.SdkArgs.decimal
    bufi.Treasury.SdkArgs.decimal_from
payroll_token-created = refl

payroll_token-opened :
    open_token payroll_token unbang parse_payroll_claims (pos 1059999) ≡ returned payroll_claims
unfolding open_token bufi.Cre.Token.sealed_part bufi.Cre.Token.behind_prefix
    bufi.Cre.Token.or_invalid_token bufi.Cre.Token.open_claims claims_object
    bufi.Cre.Token.required_integer ◌+ℤ◌ required_reference validate_reference
    bufi.Cre.Reference.validate_kind bufi.Cre.Reference.optional_batch
payroll_token-opened = refl

payroll_claims-made :
    claims_of (some payroll_reference) one_minute (pos 0) [] ≡ returned payroll_claims
unfolding claims_of required_reference ◌+ℤ◌
payroll_claims-made = refl

payroll_reference-valid :
    validate_reference (reference_fields payroll_reference) ≡ returned (some payroll_reference)
unfolding validate_reference required_reference bufi.Cre.Reference.validate_kind
    bufi.Cre.Reference.optional_batch
payroll_reference-valid = refl

payroll_claims-ReadsBack : ReadsBack parse_payroll_claims (claims_object payroll_claims)
payroll_claims-ReadsBack printed p = (claims_object payroll_claims, refl, λ key. refl)

bang-unbang : (t : Text) → (bufi.Cre.Json.is_nonempty (bang t) ≡ true) × (unbang (bang t) ≡ some t)
bang-unbang t = (refl, refl)

open_token-IsAlive_example : IsAlive (pos 1059) payroll_claims
open_token-IsAlive_example =
    open_token-IsAlive payroll_token unbang parse_payroll_claims (pos 1059999) payroll_claims
      payroll_token-opened

open_token-create_token_example :
    open_token payroll_token unbang parse_payroll_claims (pos 1060000)
    ≡ thrown Refusal.expired_token
unfolding ◌+ℤ◌
open_token-create_token_example =
    open_token-create_token bang unbang parse_payroll_claims payroll_reference one_minute (pos 0) []
      payroll_token (some payroll_reference) payroll_claims bang-unbang payroll_claims-ReadsBack
      payroll_reference-valid payroll_claims-made payroll_token-created refl refl (pos 1060000)
