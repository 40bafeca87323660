-- ===== src/Cre/Json.antt =====
-- The JSON values of packages/cre/src/evidence.ts, and `stableStringify`. An object's members stand
-- in the order in which the runtime lists them, each key once.
pub mod Reordered
use bufi.Base.{
  ℕ, suc, ◌+◌, ◌/◌, ◌%◌, ◌==◌, ◌≡◌, Bool, true, false, not, ◌&&◌, ◌||◌, Option, none, some, List,
  [], ◌∷◌, ◌++◌, ltb, leb, if◌then◌else◌,
}
use bufi.Base.Int.{ℤ, pos, negsuc}
use bufi.Base.Texts.{Text, text, text_eq}
use bufi.Treasury.SdkArgs.{to_string}
use bufi.Cre.Checked.{Checked, returned, thrown, Refusal, ◌>>=◌}

-- `whole` is an integer below 10 ^ 21, which `String` prints in digits. `finite` is any other finite
-- number, with the text that `String` prints for it.
pub data Number : Type 0 where
  whole : ℤ → Number
  finite : Text → Number
  nan : Number
  infinite : Bool → Number

mutual
  pub data Value : Type 0 where
    undefined null : Value
    bool : Bool → Value
    number : Number → Value
    string : Text → Value
    array : Items → Value
    object : Fields → Value

  pub data Items : Type 0 where
    no_item : Items
    item : Value → Items → Items

  pub data Fields : Type 0 where
    no_field : Fields
    field : Text → Value → Fields → Fields

-- `record[key]`
abbrev pub lookup : Text → Fields → Value
lookup key no_field = undefined
lookup key (field name value rest) =
    let later = lookup key rest in if text_eq key name then value else later

abbrev pub append : Fields → Fields → Fields
append no_field gs = gs
append (field name value fs) gs = field name value (append fs gs)

abbrev pub magnitude : ℤ → ℕ
magnitude (pos n) = n
magnitude (negsuc n) = suc n

-- `Number.isSafeInteger`
abbrev pub is_safe_integer : Number → Bool
is_safe_integer (whole z) = leb (magnitude z) 9_007_199_254_740_991
is_safe_integer _ = false

abbrev pub is_nonempty : Text → Bool
is_nonempty [] = false
is_nonempty (c ∷ cs) = true

-- `Boolean(value)`
abbrev pub is_truthy : Value → Bool
is_truthy undefined = false
is_truthy null = false
is_truthy (bool b) = b
is_truthy (number (whole z)) = not (magnitude z == 0)
is_truthy (number nan) = false
is_truthy (number _) = true
is_truthy (string t) = is_nonempty t
is_truthy (array xs) = true
is_truthy (object fs) = true

abbrev number_text : Number → Text
number_text (whole z) = to_string z
number_text (finite t) = t
number_text nan = text "NaN"
number_text (infinite true) = text "Infinity"
number_text (infinite false) = text "-Infinity"

abbrev bool_text : Bool → Text
bool_text true = text "true"
bool_text false = text "false"

-- `String(value)`; an array prints its items with commas between, and nothing for a missing one.
unfoldable mutual
  pub string_of : Value → Text
  string_of undefined = text "undefined"
  string_of null = text "null"
  string_of (bool b) = bool_text b
  string_of (number n) = number_text n
  string_of (string t) = t
  string_of (array xs) = join_items xs
  string_of (object fs) = text "[object Object]"

  join_items : Items → Text
  join_items no_item = []
  join_items (item v no_item) = item_text v
  join_items (item v (item w xs)) = item_text v ++ b',' ∷ join_items (item w xs)

  item_text : Value → Text
  item_text undefined = []
  item_text null = []
  item_text (bool b) = bool_text b
  item_text (number n) = number_text n
  item_text (string t) = t
  item_text (array xs) = join_items xs
  item_text (object fs) = text "[object Object]"

abbrev hex_digit : ℕ → ℕ
hex_digit n = if ltb n 10 then n + 48 else n + 87

-- `\u` and four digits.
abbrev escape_unit : ℕ → Text → Text
escape_unit c behind =
    b'\\'
    ∷ b'u'
    ∷ hex_digit (c / 4096 % 16)
    ∷ hex_digit (c / 256 % 16)
    ∷ hex_digit (c / 16 % 16)
    ∷ hex_digit (c % 16)
    ∷ behind

abbrev is_high : ℕ → Bool
is_high c = leb 55_296 c && leb c 56_319

abbrev is_low : ℕ → Bool
is_low c = leb 56_320 c && leb c 57_343

-- One unit that is no surrogate.
abbrev quote_unit : ℕ → Text → Text
quote_unit c behind =
    if (c == b'"') || (c == b'\\')
    then b'\\' ∷ c ∷ behind
    else if leb 32 c
    then c ∷ behind
    else if c == 8
    then b'\\' ∷ b'b' ∷ behind
    else if c == 9
    then b'\\' ∷ b't' ∷ behind
    else if c == 10
    then b'\\' ∷ b'n' ∷ behind
    else if c == 12
    then b'\\' ∷ b'f' ∷ behind
    else if c == 13
    then b'\\' ∷ b'r' ∷ behind
    else escape_unit c behind

-- The text in quotes from here on; a surrogate without its pair is escaped.
unfoldable pub quote_rest : Text → Text
quote_rest [] = b'"' ∷ []
quote_rest (c ∷ []) =
    if is_high c || is_low c then escape_unit c (b'"' ∷ []) else quote_unit c (b'"' ∷ [])
quote_rest (c ∷ d ∷ cs) = elim (is_high c && is_low d) [
  | true ↦ c ∷ d ∷ quote_rest cs
  | false ↦ elim (is_high c || is_low c) [
    | true ↦ escape_unit c (quote_rest (d ∷ cs))
    | false ↦ quote_unit c (quote_rest (d ∷ cs))
  ]
]

-- `JSON.stringify` of a string.
unfoldable pub quote : Text → Text
quote t = b'"' ∷ quote_rest t

-- The order of `Array.prototype.sort` on strings: by code units.
abbrev pub text_leb : Text → Text → Bool
text_leb [] t = true
text_leb (x ∷ xs) [] = false
text_leb (x ∷ xs) (y ∷ ys) = ltb x y || (x == y) && text_leb xs ys

-- A member's key, and its text `"key":value` or the refusal of its value.
pub record Printed : Type 0 where
  pub key : Text
  pub entry : Checked Text

unfoldable pub insert_printed : Printed → List Printed → List Printed
insert_printed p [] = p ∷ []
insert_printed p (q ∷ qs) =
    let rest = insert_printed p qs in if text_leb p.key q.key then p ∷ q ∷ qs else q ∷ rest

-- The entries one after the other, up to the first refusal, joined by commas.
unfoldable pub join_printed : List Printed → Checked Text
join_printed [] = returned []
join_printed (p ∷ []) = p.entry
join_printed (p ∷ q ∷ ps) = do
  first ← p.entry
  rest ← join_printed (q ∷ ps)
  returned (first ++ b',' ∷ rest)

abbrev enclose : ℕ → ℕ → Text → Checked Text
enclose before after t = returned (before ∷ t ++ after ∷ [])

abbrev finite_text : Number → Checked Text
finite_text nan = thrown Refusal.non_finite_number
finite_text (infinite sign) = thrown Refusal.non_finite_number
finite_text n = returned (number_text n)

-- An object's member that is undefined is refused as such, before its value is printed.
abbrev pub as_member : Text → Value → Checked Text → Checked Text
as_member key undefined printed = thrown Refusal.contains_undefined
as_member key _ printed = printed >>= λ t. returned (quote key ++ b':' ∷ t)

-- An item's text, before those of the items that follow.
abbrev pub print_before : Items → Checked Text → Checked Text → Checked Text
print_before no_item first rest = first
print_before (item v xs) first rest = do
  start ← first
  behind ← rest
  returned (start ++ b',' ∷ behind)

unfoldable mutual
  pub stable_stringify : Value → Checked Text
  stable_stringify undefined = thrown Refusal.unsupported_value
  stable_stringify null = returned (text "null")
  stable_stringify (bool b) = returned (bool_text b)
  stable_stringify (number n) = finite_text n
  stable_stringify (string t) = returned (quote t)
  stable_stringify (array xs) = print_items xs >>= enclose b'[' b']'
  stable_stringify (object fs) = join_printed (print_fields fs) >>= enclose b'{' b'}'

  pub print_items : Items → Checked Text
  print_items no_item = returned []
  print_items (item v xs) = print_before xs (stable_stringify v) (print_items xs)

  -- The members in the order of their keys.
  pub print_fields : Fields → List Printed
  print_fields no_field = []
  print_fields (field key value fs) =
      insert_printed (record { key = key; entry = as_member key value (stable_stringify value) })
        (print_fields fs)
