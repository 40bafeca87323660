-- ===== src/Cre/Token/RoundTrip.antt =====
-- The sealed references of packages/cre/src/evidence.ts, opened again.
use bufi.Base.{
  ◌≡◌, refl, ◌∙◌, Bool, true, false, not, ◌&&◌, ◌||◌, Option, some, none, [], ◌∷◌, ◌++◌, arith, leb,
  length, if◌then◌else◌, Bool-cases, inl, inr, and_true,
}
use bufi.Base.Int.{ℤ, pos, ◌+ℤ◌, ltb_ℤ, leb_ℤ, +ℤ_parts}
use bufi.Base.Texts.{Text, text, text_eq}
use bufi.Cre.Checked.{
  returned, thrown, Refusal, ◌>>=◌, Gives, gives, refuses, >>=-Gives, throw_if-Gives, if-Gives,
  Gives-returned, Gives-same, Checked-cases,
}
use bufi.Cre.Json.{
  Value, Number, number, string, whole, Fields, lookup, append, is_nonempty, is_safe_integer,
  object, stable_stringify,
}
use bufi.Cre.Reference.{
  CreEvidenceReference, payment_score, contract, payroll, reimbursement, report, project,
  reference_fields, required_reference, is_reference, validate_kind, optional_batch, is_uuid,
  validate_reference,
}
use bufi.Cre.Response.ReadBack.{
  required_contract_event-text, required_project_phase-text, required_reimbursement_phase-text,
}
use bufi.Cre.Token.{
  token_prefix, token_audience, max_token_length, clock_skew_seconds, max_ttl_seconds,
  CreEvidenceClaims, CreEvidenceTokenOptions, claim_fields, claims_object, claims_of, ttl_of,
  create_token, seconds_of, or_else, required_integer, sealed_part, behind_prefix, or_invalid_token,
  open_claims, open_token,
}

-- A reference that has passed the checks passes them as claims, and is the same one.
abbrev IsKept : CreEvidenceReference → Type 0
IsKept n =
    (issued_at expires_at : ℤ) (nonce : Text)
    → validate_reference (append (reference_fields n) (claim_fields issued_at expires_at nonce))
      ≡ returned (some n)

abbrev IsNormalized : Option CreEvidenceReference → Type 0
IsNormalized x = (n : CreEvidenceReference) × (x ≡ some n) × IsKept n

required_reference-Gives :
    (name t : Text)
    → Gives
        (λ s. (s ≡ t) × (required_reference name (string s) ≡ returned s))
        (required_reference name (string t))
unfolding required_reference
required_reference-Gives name t =
    if-Gives (is_reference t) (λ h. gives (refl, rw h refl)) (λ h. refuses)

batch_Gives :
    (e t batch : Text)
    → is_nonempty batch ≡ true
    → required_reference (text "entityId") (string e) ≡ returned e
    → required_reference (text "teamId") (string t) ≡ returned t
    → Gives IsNormalized
        (optional_batch (string batch) >>= λ batch_id. returned (some (payroll e t batch_id)))
unfolding optional_batch validate_reference validate_kind
batch_Gives e t batch h p q =
    elim (Checked-cases (required_reference (text "batchId") (string batch))) [
      | inl (b, found) ↦
          rw (h, found) (gives (payroll e t (some b), refl, λ i x n. rw (p, q, kept b found) refl))
      | inr (refusal, found) ↦ rw (h, found) refuses
    ]
  where
    kept :
        (b : Text)
        → required_reference (text "batchId") (string batch) ≡ returned b
        → optional_batch (string b) ≡ returned (some b)
    kept b found =
        let same : b ≡ batch =
          (Gives-returned (required_reference-Gives (text "batchId") batch) found).0 in
        rw (same, h, (rw same at found)) refl

validate_reference-Gives :
    (r : CreEvidenceReference) → Gives IsNormalized (validate_reference (reference_fields r))
unfolding validate_reference validate_kind optional_batch
validate_reference-Gives (report e t) =
    >>=-Gives (required_reference-Gives (text "entityId") e) λ e' p.
      >>=-Gives (required_reference-Gives (text "teamId") t)
        λ t' q. gives (report e' t', refl, λ i x n. rw (p.1, q.1) refl)
validate_reference-Gives (payment_score e t) =
    >>=-Gives (required_reference-Gives (text "entityId") e) λ e' p.
      >>=-Gives (required_reference-Gives (text "teamId") t) λ t' q.
        throw_if-Gives (not (text_eq e' t') || not (is_uuid t')) Refusal.invalid_workspace
          λ h. gives (payment_score e' t', refl, λ i x n. rw (p.1, q.1, h) refl)
validate_reference-Gives (contract e t event) =
    >>=-Gives (required_reference-Gives (text "entityId") e) λ e' p.
      >>=-Gives (required_reference-Gives (text "teamId") t) λ t' q.
        rw (required_contract_event-text event) (
          gives (
            contract e' t' event,
            refl,
            λ i x n. rw (p.1, q.1, required_contract_event-text event) refl,
          ))
validate_reference-Gives (reimbursement e t phase) =
    >>=-Gives (required_reference-Gives (text "entityId") e) λ e' p.
      >>=-Gives (required_reference-Gives (text "teamId") t) λ t' q.
        rw (required_reimbursement_phase-text phase) (
          gives (
            reimbursement e' t' phase,
            refl,
            λ i x n. rw (p.1, q.1, required_reimbursement_phase-text phase) refl,
          ))
validate_reference-Gives (project e t phase) =
    >>=-Gives (required_reference-Gives (text "entityId") e) λ e' p.
      >>=-Gives (required_reference-Gives (text "teamId") t) λ t' q.
        rw (required_project_phase-text phase) (
          gives (
            project e' t' phase,
            refl,
            λ i x n. rw (p.1, q.1, required_project_phase-text phase) refl,
          ))
validate_reference-Gives (payroll e t none) =
    >>=-Gives (required_reference-Gives (text "entityId") e) λ e' p.
      >>=-Gives (required_reference-Gives (text "teamId") t)
        λ t' q. gives (payroll e' t' none, refl, λ i x n. rw (p.1, q.1) refl)
validate_reference-Gives (payroll e t (some [])) =
    >>=-Gives (required_reference-Gives (text "entityId") e) λ e' p.
      >>=-Gives (required_reference-Gives (text "teamId") t)
        λ t' q. gives (payroll e' t' none, refl, λ i x n. rw (p.1, q.1) refl)
validate_reference-Gives (payroll e t (some (c ∷ cs))) =
    >>=-Gives (required_reference-Gives (text "entityId") e) λ e' p.
      >>=-Gives (required_reference-Gives (text "teamId") t)
        λ t' q. batch_Gives e' t' (c ∷ cs) refl p.1 q.1

-- The parser gives an object with the members of the one that was printed.
abbrev pub ReadsBack : (Text → Option Value) → Fields → Type 0
ReadsBack json_parse fields =
    (printed : Text)
    → stable_stringify (object fields) ≡ returned printed
    → (parsed : Fields) × (json_parse printed ≡ some (object parsed))
      × ((key : Text) → lookup key parsed ≡ lookup key fields)

-- Only the members that are named are read.
open_claims-lookup :
    (current : ℤ) (fs gs : Fields)
    → ((key : Text) → lookup key fs ≡ lookup key gs)
    → open_claims current fs ≡ open_claims current gs
unfolding open_claims validate_reference validate_kind
open_claims-lookup current fs gs same =
    rw
      (
        same (text "version"),
        same (text "audience"),
        same (text "issuedAt"),
        same (text "expiresAt"),
        same (text "nonce"),
        same (text "entityId"),
        same (text "teamId"),
        same (text "kind"),
        same (text "event"),
        same (text "batchId"),
        same (text "phase"),
      )
      refl

-- Whether claims are within their life.
abbrev pub is_current : ℤ → CreEvidenceClaims → Bool
is_current current c =
    leb_ℤ c.issued_at (current +ℤ pos clock_skew_seconds) && ltb_ℤ current c.expires_at

-- The five members that are not the reference's.
abbrev HasMembers : CreEvidenceClaims → Fields → Type 0
HasMembers c fs =
    (lookup (text "version") fs ≡ number (whole (pos 1)))
    × (lookup (text "audience") fs ≡ string token_audience)
    × (lookup (text "issuedAt") fs ≡ number (whole c.issued_at))
    × (lookup (text "expiresAt") fs ≡ number (whole c.expires_at))
    × (lookup (text "nonce") fs ≡ string c.nonce)

claims-HasMembers :
    (n : CreEvidenceReference) (c : CreEvidenceClaims)
    → HasMembers c (append (reference_fields n) (claim_fields c.issued_at c.expires_at c.nonce))
claims-HasMembers (payroll e t none) c = (refl, refl, refl, refl, refl)
claims-HasMembers (payroll e t (some b)) c = (refl, refl, refl, refl, refl)
claims-HasMembers _ c = (refl, refl, refl, refl, refl)

-- Claims with safe whole seconds and a life that is allowed.
abbrev pub IsIssued : CreEvidenceClaims → Type 0
IsIssued c =
    (is_safe_integer (whole c.issued_at) ≡ true)
    × (is_safe_integer (whole c.expires_at) ≡ true)
    × (ltb_ℤ c.issued_at c.expires_at ≡ true)
    × (ltb_ℤ (c.issued_at +ℤ pos max_ttl_seconds) c.expires_at ≡ false)
    × (required_reference (text "nonce") (string c.nonce) ≡ returned c.nonce)

claims_object-some :
    (n : CreEvidenceReference) (c : CreEvidenceClaims)
    → c.reference ≡ some n
    → claims_object c ≡ append (reference_fields n) (claim_fields c.issued_at c.expires_at c.nonce)
unfolding claims_object
claims_object-some n c e = rw e refl

open_claims-HasMembers :
    (current : ℤ) (fs : Fields) (c : CreEvidenceClaims)
    → HasMembers c fs
    → validate_reference fs ≡ returned c.reference
    → IsIssued c
    → open_claims current fs
      ≡ (if is_current current c then returned c else thrown Refusal.expired_token)
unfolding open_claims required_integer
open_claims-HasMembers current fs c m kept issued =
    let late : (leb_ℤ c.expires_at c.issued_at) ≡ false = ground (arith, issued.2) in
    elim (Bool-cases (is_current current c)) [
      | inl e ↦
          let alive : (ltb_ℤ (current +ℤ pos clock_skew_seconds) c.issued_at
                || leb_ℤ c.expires_at current)
              ≡ false =
            ground arith in
          rw (m.0, m.1, m.2, m.3, m.4, issued.0, issued.1, e, alive, late, issued.3, issued.4, kept)
            refl
      | inr e ↦
          let expired : (ltb_ℤ (current +ℤ pos clock_skew_seconds) c.issued_at
                || leb_ℤ c.expires_at current)
              ≡ true =
            ground arith in
          rw (m.0, m.1, m.2, m.3, issued.0, issued.1, e, expired) refl
    ]

ttl_of-Gives :
    (n : Number)
    → Gives (λ z. (leb_ℤ (pos 1) z ≡ true) × (leb_ℤ z (pos max_ttl_seconds) ≡ true)) (ttl_of n)
ttl_of-Gives (whole z) =
    if-Gives (leb_ℤ (pos 1) z && leb_ℤ z (pos max_ttl_seconds)) (λ h. gives (and_true _ _ h))
      (λ h. refuses)
ttl_of-Gives _ = refuses

claims_of-Gives :
    (reference : Option CreEvidenceReference) (options : CreEvidenceTokenOptions) (clock : ℤ)
    (random_uuid : Text)
    → Gives
        (λ c.
          (c.reference ≡ reference)
          × (ltb_ℤ c.issued_at c.expires_at ≡ true)
          × (ltb_ℤ (c.issued_at +ℤ pos max_ttl_seconds) c.expires_at ≡ false)
          × (required_reference (text "nonce") (string c.nonce) ≡ returned c.nonce))
        (claims_of reference options clock random_uuid)
unfolding claims_of
claims_of-Gives reference options clock random_uuid =
    let issued_at = seconds_of (or_else options.now clock) in
    >>=-Gives (ttl_of-Gives (or_else options.ttl_seconds (whole (pos 300)))) λ ttl in_range.
      >>=-Gives (required_reference-Gives (text "nonce") (or_else options.nonce random_uuid))
        λ nonce p. gives (refl, later issued_at ttl in_range.0, short issued_at ttl in_range.1, p.1)
  where
    later : (i t : ℤ) → leb_ℤ (pos 1) t ≡ true → ltb_ℤ i (i +ℤ t) ≡ true
    later i t h = ground (arith, +ℤ_parts i t)

    short :
        (i t : ℤ)
        → leb_ℤ t (pos max_ttl_seconds) ≡ true
        → ltb_ℤ (i +ℤ pos max_ttl_seconds) (i +ℤ t) ≡ false
    short i t h = ground (arith, +ℤ_parts i t, +ℤ_parts i (pos max_ttl_seconds))

sealed_part-prefix :
    (s : Text)
    → is_nonempty s ≡ true
    → leb (length (token_prefix ++ s)) max_token_length ≡ true
    → sealed_part (token_prefix ++ s) ≡ returned s
unfolding sealed_part behind_prefix
sealed_part-prefix [] h k = cc
sealed_part-prefix (c ∷ cs) h k = rw k refl

create_token-Gives :
    (seal : Text → Text) (reference : CreEvidenceReference) (options : CreEvidenceTokenOptions)
    (clock : ℤ) (random_uuid : Text) (normalized : Option CreEvidenceReference)
    (c : CreEvidenceClaims)
    → validate_reference (reference_fields reference) ≡ returned normalized
    → claims_of normalized options clock random_uuid ≡ returned c
    → Gives
        (λ token.
          (printed : Text) × (stable_stringify (object (claims_object c)) ≡ returned printed)
          × (token ≡ token_prefix ++ seal printed)
          × (leb (length token) max_token_length ≡ true))
        (create_token reference seal options clock random_uuid)
unfolding create_token
create_token-Gives seal reference options clock random_uuid normalized c valid made =
    rw (valid, made)
      (>>=-Gives (Gives-same (stable_stringify (object (claims_object c)))) λ printed p.
        throw_if-Gives (not (leb (length (token_prefix ++ seal printed)) max_token_length))
          Refusal.token_too_large λ fits. gives (printed, p, refl, ground arith))

-- With a seal that is undone and never empty, and a parser that reads the printed claims back, a
-- token that was created is opened, at any time, to the claims it was made of as long as these are
-- current, and is refused as expired at any other time. The seconds are safe integers.
pub open_token-create_token :
    (seal : Text → Text) (unseal : Text → Option Text) (json_parse : Text → Option Value)
    (reference : CreEvidenceReference) (options : CreEvidenceTokenOptions) (clock : ℤ)
    (random_uuid token : Text) (normalized : Option CreEvidenceReference) (c : CreEvidenceClaims)
    → ((t : Text) → (is_nonempty (seal t) ≡ true) × (unseal (seal t) ≡ some t))
    → ReadsBack json_parse (claims_object c)
    → validate_reference (reference_fields reference) ≡ returned normalized
    → claims_of normalized options clock random_uuid ≡ returned c
    → create_token reference seal options clock random_uuid ≡ returned token
    → is_safe_integer (whole c.issued_at) ≡ true
    → is_safe_integer (whole c.expires_at) ≡ true
    → (now : ℤ)
    → open_token token unseal json_parse now
      ≡ (if is_current (seconds_of now) c then returned c else thrown Refusal.expired_token)
unfolding open_token or_invalid_token
open_token-create_token seal unseal json_parse reference options clock random_uuid token normalized
      c sealing parsing valid made created safe_issued safe_expires now =
    let (printed, prints, form, fits) =
      Gives-returned
        (create_token-Gives seal reference options clock random_uuid normalized c valid made)
        created in
    let (parsed, parses, same) = parsing printed prints in
    let (n, kind, kept) = Gives-returned (validate_reference-Gives reference) valid in
    let (ref, later, short, nonce) =
      Gives-returned (claims_of-Gives normalized options clock random_uuid) made in
    rw
      (
        form,
        sealed_part-prefix (seal printed) (sealing printed).0 (rw form at fits),
        (sealing printed).1,
        parses,
      )
      (open_claims-lookup (seconds_of now) parsed (claims_object c) same
        ∙ open_claims-HasMembers (seconds_of now) (claims_object c) c
            (rw (claims_object-some n c (ref ∙ kind)) (claims-HasMembers n c))
            (rw (claims_object-some n c (ref ∙ kind), ref ∙ kind)
              (kept c.issued_at c.expires_at c.nonce))
            (safe_issued, safe_expires, later, short, nonce))
