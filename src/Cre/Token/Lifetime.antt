-- ===== src/Cre/Token/Lifetime.antt =====
-- The life of the sealed references of packages/cre/src/evidence.ts.
use bufi.Base.{◌≡◌, true, not, ◌||◌, Option, arith}
use bufi.Base.Int.{ℤ, pos, ◌+ℤ◌, ◌≤ℤ◌, ltb_ℤ, leb_ℤ}
use bufi.Base.Texts.{Text, text}
use bufi.Cre.Checked.{returned, Refusal, Gives, gives, after-Gives, throw_if-Gives, Gives-returned}
use bufi.Cre.Json.{Value, Fields, lookup}
use bufi.Cre.Reference.{required_reference, validate_reference, is_string}
use bufi.Cre.Token.{
  token_audience, max_ttl_seconds, clock_skew_seconds, CreEvidenceClaims, seconds_of,
  required_integer, sealed_part, or_invalid_token, fields_of, is_version_one, open_claims,
  open_token,
}

-- Not yet expired, not issued more than the skew ahead, and with a life of 900 seconds at most.
abbrev pub IsAlive : ℤ → CreEvidenceClaims → Type 0
IsAlive current c =
    (c.issued_at ≤ℤ (current +ℤ pos clock_skew_seconds))
    × ((ltb_ℤ current c.expires_at ≡ true)
        × ((ltb_ℤ c.issued_at c.expires_at ≡ true)
            × (c.expires_at ≤ℤ (c.issued_at +ℤ pos max_ttl_seconds))))

open_claims-Gives :
    (current : ℤ) (fields : Fields) → Gives (λ c. IsAlive current c) (open_claims current fields)
unfolding open_claims
open_claims-Gives current fields =
    throw_if-Gives
      (not (is_version_one (lookup (text "version") fields))
        || not (is_string token_audience (lookup (text "audience") fields)))
      Refusal.invalid_token
      λ known.
        after-Gives (required_integer (text "issuedAt") (lookup (text "issuedAt") fields))
          λ issued_at.
            after-Gives (required_integer (text "expiresAt") (lookup (text "expiresAt") fields))
              λ expires_at.
                throw_if-Gives
                  (ltb_ℤ (current +ℤ pos clock_skew_seconds) issued_at || leb_ℤ expires_at current)
                  Refusal.expired_token
                  λ not_expired.
                    throw_if-Gives
                      (leb_ℤ expires_at issued_at
                        || ltb_ℤ (issued_at +ℤ pos max_ttl_seconds) expires_at)
                      Refusal.invalid_lifetime
                      λ lifetime.
                        after-Gives
                          (required_reference (text "nonce") (lookup (text "nonce") fields))
                          λ nonce. after-Gives (validate_reference fields) λ reference.
                            gives (ground arith, (ground arith, (ground arith, ground arith)))

-- Whatever a token holds, the claims that are opened from it are alive at the current second.
pub open_token-IsAlive :
    (token : Text) (unseal : Text → Option Text) (json_parse : Text → Option Value) (now : ℤ)
    (c : CreEvidenceClaims)
    → open_token token unseal json_parse now ≡ returned c
    → IsAlive (seconds_of now) c
unfolding open_token
open_token-IsAlive token unseal json_parse now c h = Gives-returned opened h
  where
    opened : Gives (λ c. IsAlive (seconds_of now) c) (open_token token unseal json_parse now)
    opened = after-Gives (sealed_part token) λ ciphertext.
        after-Gives (or_invalid_token (unseal ciphertext)) λ plaintext.
          after-Gives (or_invalid_token (json_parse plaintext)) λ parsed.
            after-Gives (or_invalid_token (fields_of parsed))
              λ fields. open_claims-Gives (seconds_of now) fields
