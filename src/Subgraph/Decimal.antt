-- ===== src/Subgraph/Decimal.antt =====
-- `isDecimalString` of packages/subgraph-arc/src/shared/json.ts.
use bufi.Base.{
  ℕ, suc, ◌+◌, ◌==◌, ◌≡◌, refl, Bool, true, false, ◌&&◌, ◌||◌, [], ◌∷◌, arith, all, any, leb,
  Bool-cases, inl, inr, if◌then◌else◌,
}
use bufi.Base.Texts.{Text}

abbrev pub is_digit : ℕ → Bool
is_digit c = leb b'0' c && leb c b'9'

-- The loop, from `index` on.
unfoldable pub scan_decimal : Text → Bool → Bool → Bool
scan_decimal [] saw_digit saw_dot = saw_digit
scan_decimal (c ∷ cs) saw_digit saw_dot =
    let after_dot = scan_decimal cs saw_digit true in
    let after_digit = scan_decimal cs true saw_dot in
    if c == b'.'
    then (if saw_dot then false else after_dot)
    else if is_digit c
    then after_digit
    else false

-- `index` starts behind a sign, and has to be before the end.
abbrev scan_unsigned : Text → Bool
scan_unsigned [] = false
scan_unsigned (c ∷ cs) = scan_decimal (c ∷ cs) false false

unfoldable pub is_decimal_string : Text → Bool
is_decimal_string [] = false
is_decimal_string (c ∷ cs) = if c == b'-' then scan_unsigned cs else scan_unsigned (c ∷ cs)

abbrev pub unsigned : Text → Text
unsigned [] = []
unsigned (c ∷ cs) = if c == b'-' then cs else c ∷ cs

abbrev pub count_dots : Text → ℕ
count_dots [] = 0
count_dots (c ∷ cs) = let rest = count_dots cs in if c == b'.' then suc rest else rest

abbrev as_dot : Bool → ℕ
as_dot true = 1
as_dot false = 0

-- A decimal number's digits and point: no other sign, one point at most, one digit at least.
abbrev pub is_decimal : Text → Bool
is_decimal t = all (λ c. c == b'.' || is_digit c) t && leb (count_dots t) 1 && any is_digit t

scan_decimal_lem :
    (cs : Text) (saw_digit saw_dot : Bool)
    → scan_decimal cs saw_digit saw_dot ≡ (
        all (λ c. c == b'.' || is_digit c) cs
        && leb (count_dots cs + as_dot saw_dot) 1
        && (saw_digit || any is_digit cs))
unfolding scan_decimal
scan_decimal_lem [] saw_digit true = ground arith
scan_decimal_lem [] saw_digit false = ground arith
scan_decimal_lem (c ∷ cs) saw_digit saw_dot =
    ground (arith, scan_decimal_lem cs saw_digit true, scan_decimal_lem cs true saw_dot)

scan_unsigned_lem : (t : Text) → scan_unsigned t ≡ is_decimal t
scan_unsigned_lem [] = refl
scan_unsigned_lem (c ∷ cs) = ground (arith, scan_decimal_lem (c ∷ cs) false false)

-- The texts accepted are, behind one minus sign at most, those of digits with at most one point
-- among them and at least one digit.
pub is_decimal_string_lem : (t : Text) → is_decimal_string t ≡ is_decimal (unsigned t)
unfolding is_decimal_string
is_decimal_string_lem [] = refl
is_decimal_string_lem (c ∷ cs) = elim (Bool-cases (c == b'-')) [
  | inl sign ↦ rw sign (scan_unsigned_lem cs)
  | inr other ↦ rw other (scan_unsigned_lem (c ∷ cs))
]
