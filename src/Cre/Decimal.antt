-- ===== src/Cre/Decimal.antt =====
-- `canonicalDecimal` of packages/cre/src/evidence.ts.
use bufi.Base.{ℕ, ◌==◌, Bool, false, ◌&&◌, List, [], ◌∷◌, ◌++◌, all, if◌then◌else◌}
use bufi.Base.Texts.{Text}
use bufi.Subgraph.Caip.{split}
use bufi.Subgraph.Decimal.{is_digit}
use bufi.Cre.Checked.{Checked, returned, thrown, Refusal}
use bufi.Cre.Json.{Value, string_of, is_nonempty}

abbrev pub is_digits : Text → Bool
is_digits t = is_nonempty t && all is_digit t

-- `/^\d+(?:\.\d+)?$/`, on the parts between the points.
abbrev pub is_plain_decimal : List Text → Bool
is_plain_decimal (whole ∷ []) = is_digits whole
is_plain_decimal (whole ∷ fraction ∷ []) = is_digits whole && is_digits fraction
is_plain_decimal _ = false

-- `replace(/^0+(?=\d)/u, '')`
unfoldable pub drop_leading_zeros : Text → Text
drop_leading_zeros [] = []
drop_leading_zeros (c ∷ []) = c ∷ []
drop_leading_zeros (c ∷ d ∷ cs) =
    let shorter = drop_leading_zeros (d ∷ cs) in
    if (c == b'0') && is_digit d then shorter else c ∷ d ∷ cs

abbrev keep_unless_zero : ℕ → Text → Text
keep_unless_zero c [] = if c == b'0' then [] else c ∷ []
keep_unless_zero c (d ∷ cs) = c ∷ d ∷ cs

-- `replace(/0+$/u, '')`
unfoldable pub drop_trailing_zeros : Text → Text
drop_trailing_zeros [] = []
drop_trailing_zeros (c ∷ cs) = keep_unless_zero c (drop_trailing_zeros cs)

abbrev or_zero : Text → Text
or_zero [] = b'0' ∷ []
or_zero (c ∷ cs) = c ∷ cs

abbrev pub with_fraction : Text → Text → Text
with_fraction whole [] = whole
with_fraction whole (c ∷ cs) = whole ++ b'.' ∷ c ∷ cs

abbrev pub normalize_parts : List Text → Text
normalize_parts [] = with_fraction (b'0' ∷ []) []
normalize_parts (whole ∷ []) = with_fraction (or_zero (drop_leading_zeros whole)) []
normalize_parts (whole ∷ fraction ∷ rest) =
    with_fraction (or_zero (drop_leading_zeros whole)) (drop_trailing_zeros fraction)

unfoldable pub canonical_text : Text → Checked Text
canonical_text raw =
    if is_plain_decimal (split b'.' raw)
    then returned (normalize_parts (split b'.' raw))
    else thrown Refusal.invalid_decimal

abbrev pub canonical_decimal : Value → Checked Text
canonical_decimal value = canonical_text (string_of value)
