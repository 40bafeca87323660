-- ===== src/Cre/Token.antt =====
-- The sealed references of packages/cre/src/evidence.ts. The encryption is the caller's; the clock,
-- the random identifier and JSON.parse are the runtime's.
pub mod Lifetime
pub mod RoundTrip
use bufi.Base.{
  ℕ, ◌/◌, ◌≡◌, ◌==◌, Bool, true, false, not, ◌&&◌, ◌||◌, Option, none, some, List, [], ◌∷◌, ◌++◌,
  leb, length, if◌then◌else◌,
}
use bufi.Base.Int.{ℤ, pos, negsuc, ◌+ℤ◌, ltb_ℤ, leb_ℤ}
use bufi.Base.Texts.{Text, text, text_eq}
use bufi.Cre.Checked.{Checked, returned, thrown, Refusal, ◌>>=◌, ◌>>◌, throw_if}
use bufi.Cre.Json.{
  Number, whole, Value, number, string, object, Fields, no_field, field, lookup, append,
  is_safe_integer, stable_stringify,
}
use bufi.Cre.Reference.{
  CreEvidenceReference, reference_fields, required_reference, validate_reference, is_string,
}

abbrev pub token_prefix : Text
token_prefix = text "bufi_cre_evidence_v1."

abbrev pub token_audience : Text
token_audience = text "bufi-cre-evidence"

abbrev pub max_token_length : ℕ
max_token_length = 8192

abbrev pub max_ttl_seconds : ℕ
max_ttl_seconds = 900

abbrev pub clock_skew_seconds : ℕ
clock_skew_seconds = 30

-- The audience and the version are literals of the type. Claims opened from a kind that no case
-- of `validateReference` names carry no reference.
pub record CreEvidenceClaims : Type 0 where
  pub reference : Option CreEvidenceReference
  pub expires_at : ℤ
  pub issued_at : ℤ
  pub nonce : Text

-- The option `now` is the date's `getTime`, in milliseconds.
pub record CreEvidenceTokenOptions : Type 0 where
  pub now : Option ℤ
  pub nonce : Option Text
  pub ttl_seconds : Option Number

-- What stands behind the reference's own members.
abbrev pub claim_fields : ℤ → ℤ → Text → Fields
claim_fields issued_at expires_at nonce = field (text "audience") (string token_audience) (
    field (text "expiresAt") (number (whole expires_at)) (
      field (text "issuedAt") (number (whole issued_at)) (
        field (text "nonce") (string nonce)
          (field (text "version") (number (whole (pos 1))) no_field))))

abbrev spread_reference : Option CreEvidenceReference → Fields
spread_reference none = no_field
spread_reference (some reference) = reference_fields reference

unfoldable pub claims_object : CreEvidenceClaims → Fields
claims_object c =
    append (spread_reference c.reference) (claim_fields c.issued_at c.expires_at c.nonce)

-- `Math.floor(milliseconds / 1_000)`
abbrev pub seconds_of : ℤ → ℤ
seconds_of (pos n) = pos (n / 1000)
seconds_of (negsuc n) = negsuc (n / 1000)

abbrev pub or_else {ℓ} : {A : Type ℓ} → Option A → A → A
or_else none a = a
or_else (some a) b = a

-- A life of 1 to `max` whole seconds.
abbrev pub ttl_of : Number → Checked ℤ
ttl_of (whole z) =
    if leb_ℤ (pos 1) z && leb_ℤ z (pos max_ttl_seconds)
    then returned z
    else thrown Refusal.invalid_ttl
ttl_of _ = thrown Refusal.invalid_ttl

unfoldable pub claims_of :
    Option CreEvidenceReference → CreEvidenceTokenOptions → ℤ → Text → Checked CreEvidenceClaims
claims_of reference options clock random_uuid = do
  let issued_at = seconds_of (or_else options.now clock)
  ttl ← ttl_of (or_else options.ttl_seconds (whole (pos 300)))
  nonce ← required_reference (text "nonce") (string (or_else options.nonce random_uuid))
  returned (record {
    reference = reference;
    expires_at = issued_at +ℤ ttl;
    issued_at = issued_at;
    nonce = nonce;
  })

unfoldable pub create_token :
    CreEvidenceReference → (Text → Text) → CreEvidenceTokenOptions → ℤ → Text → Checked Text
create_token reference seal options clock random_uuid = do
  normalized ← validate_reference (reference_fields reference)
  claims ← claims_of normalized options clock random_uuid
  plaintext ← stable_stringify (object (claims_object claims))
  let token = token_prefix ++ seal plaintext
  throw_if (not (leb (length token) max_token_length)) Refusal.token_too_large
  returned token

unfoldable pub required_integer : Text → Value → Checked ℤ
required_integer name (number (whole z)) =
    if is_safe_integer (whole z) then returned z else thrown (Refusal.not_an_integer name)
required_integer name _ = thrown (Refusal.not_an_integer name)

-- `startsWith(prefix)` and, behind the prefix, `slice`.
unfoldable pub behind_prefix : Text → Text → Option Text
behind_prefix [] t = some t
behind_prefix (p ∷ ps) [] = none
behind_prefix (p ∷ ps) (c ∷ cs) =
    let rest = behind_prefix ps cs in if text_eq (p ∷ []) (c ∷ []) then rest else none

-- The sealed part of a token that has the prefix, something behind it, and no more than the length.
unfoldable pub sealed_part : Text → Checked Text
sealed_part token = elim (behind_prefix token_prefix token) [
  | none ↦ thrown Refusal.invalid_token
  | some [] ↦ thrown Refusal.invalid_token
  | some (c ∷ cs) ↦
      if leb (length token) max_token_length
      then returned (c ∷ cs)
      else thrown Refusal.invalid_token
]

unfoldable pub or_invalid_token {ℓ} : {A : Type ℓ} → Option A → Checked A
or_invalid_token none = thrown Refusal.invalid_token
or_invalid_token (some a) = returned a

abbrev pub fields_of : Value → Option Fields
fields_of (object fs) = some fs
fields_of _ = none

abbrev pub is_version_one : Value → Bool
is_version_one (number (whole (pos n))) = n == 1
is_version_one _ = false

-- The checks on the parsed claims at a current time.
unfoldable pub open_claims : ℤ → Fields → Checked CreEvidenceClaims
open_claims current claims = do
  throw_if
      (not (is_version_one (lookup (text "version") claims))
        || not (is_string token_audience (lookup (text "audience") claims)))
      Refusal.invalid_token
  issued_at ← required_integer (text "issuedAt") (lookup (text "issuedAt") claims)
  expires_at ← required_integer (text "expiresAt") (lookup (text "expiresAt") claims)
  throw_if (ltb_ℤ (current +ℤ pos clock_skew_seconds) issued_at || leb_ℤ expires_at current)
      Refusal.expired_token
  throw_if (leb_ℤ expires_at issued_at || ltb_ℤ (issued_at +ℤ pos max_ttl_seconds) expires_at)
      Refusal.invalid_lifetime
  nonce ← required_reference (text "nonce") (lookup (text "nonce") claims)
  reference ← validate_reference claims
  returned (record {
    reference = reference;
    expires_at = expires_at;
    issued_at = issued_at;
    nonce = nonce;
  })

-- `unseal` and `json_parse` may throw.
unfoldable pub open_token :
    Text → (Text → Option Text) → (Text → Option Value) → ℤ → Checked CreEvidenceClaims
open_token token unseal json_parse now = do
  ciphertext ← sealed_part token
  plaintext ← or_invalid_token (unseal ciphertext)
  parsed ← or_invalid_token (json_parse plaintext)
  claims ← or_invalid_token (fields_of parsed)
  open_claims (seconds_of now) claims
