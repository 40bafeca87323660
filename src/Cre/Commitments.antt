-- ===== src/Cre/Commitments.antt =====
-- The commitments of packages/cre/src/evidence.ts. `keccak256(toHex(text))` is a parameter.
pub mod Contract
pub mod Payroll
pub mod Report
pub mod Reimbursement
pub mod Project
pub mod Ready
pub mod Counted
pub mod Built
pub mod Sent
use bufi.Base.{
  Bool, true, false, not, ◌&&◌, ◌||◌, Option, none, some, [], ◌∷◌, ◌++◌, all, leb, length, ◌==◌,
}
use bufi.Base.Int.{pos, leb_ℤ}
use bufi.Base.Texts.{Text, text}
use bufi.Cre.Checked.{Checked, returned, thrown, Refusal, ◌>>=◌}
use bufi.Cre.Json.{
  Number, whole, Value, null, string, bool, array, object, Fields, no_field, field, is_nonempty,
  is_safe_integer, stable_stringify,
}

-- `commitment(value)`
unfoldable pub commitment : (Text → Text) → Value → Checked Text
commitment keccak value = stable_stringify value >>= λ t. returned (keccak t)

-- A member that may be null, as a value.
abbrev pub or_null : Option Text → Value
or_null none = null
or_null (some t) = string t

-- A member that may be null is truthy when it has characters.
abbrev pub is_present : Option Text → Bool
is_present none = false
is_present (some t) = is_nonempty t

-- `typeof value === 'object'` and not null.
abbrev pub is_object_like : Value → Bool
is_object_like (array xs) = true
is_object_like (object fs) = true
is_object_like _ = false

-- `Number.isSafeInteger(n) && n >= 1`
abbrev pub is_positive_integer : Number → Bool
is_positive_integer (whole z) = is_safe_integer (whole z) && leb_ℤ (pos 1) z
is_positive_integer _ = false

abbrev is_lower_hex : Text → Bool
is_lower_hex = all (λ c. (leb b'0' c && leb c b'9') || (leb b'a' c && leb c b'f'))

-- `/^[0-9a-f]{64}$/u`
unfoldable pub is_sha256_hex : Text → Bool
is_sha256_hex t = (length t == 64) && is_lower_hex t

-- A settled total that is there, and a positive count of settlements.
abbrev pub required_settlement : Option Value → Option Number → Checked (Value × Number)
required_settlement none count = thrown Refusal.invalid_settlement
required_settlement (some total) none = thrown Refusal.invalid_settlement
required_settlement (some total) (some count) = elim (is_positive_integer count) [
  | true ↦ returned (total, count)
  | false ↦ thrown Refusal.invalid_settlement
]
