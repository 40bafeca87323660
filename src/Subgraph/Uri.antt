-- ===== src/Subgraph/Uri.antt =====
-- packages/subgraph-arc/src/shared/uri.ts: the scheme of a URI, and the payload of a `data:` URI.
pub mod Kinds
pub mod Payloads
use bufi.Base.{
  ℕ, zero, suc, ◌/◌, ◌==◌, ◌≡◌, refl, Bool, true, false, ◌&&◌, ◌||◌, not, Option, none, some, List,
  [], ◌∷◌, ◌++◌, arith, any, All, ◌<◌, if◌then◌else◌,
}
use bufi.Base.Texts.{Text, text, text_eq, to_lower_case, lower_unit}
use bufi.Subgraph.Base64.{base64_decode}
use bufi.Subgraph.Caip.{split}
use bufi.Subgraph.Schema.{UriKind}

-- `value.startsWith(prefix)`
unfoldable pub starts_with : Text → Text → Bool
starts_with value [] = true
starts_with [] (p ∷ prefix) = false
starts_with (c ∷ value) (p ∷ prefix) = c == p && starts_with value prefix

unfoldable pub classify_uri : Text → UriKind
classify_uri [] = UriKind.none_kind
classify_uri (c ∷ cs) =
    let lower = to_lower_case (c ∷ cs) in
    if starts_with lower (text "data:")
    then UriKind.data_kind
    else if starts_with lower (text "ipfs://")
    then UriKind.ipfs
    else if starts_with lower (text "ar://")
    then UriKind.arweave
    else if starts_with lower (text "https://")
    then UriKind.https
    else if starts_with lower (text "http://")
    then UriKind.http
    else UriKind.other

-- `value.slice(n)`
abbrev pub slice : ℕ → Text → Text
slice zero value = value
slice (suc n) [] = []
slice (suc n) (c ∷ value) = slice n value

-- What is before and behind the first comma.
unfoldable pub cut_at_comma : Text → Option (Text × Text)
cut_at_comma [] = none
cut_at_comma (c ∷ cs) = if c == b',' then some ([], cs) else put_before c (cut_at_comma cs)
  where
    put_before : ℕ → Option (Text × Text) → Option (Text × Text)
    put_before c none = none
    put_before c (some p) = some (c ∷ p.0, p.1)

unfoldable pub has_base64_marker : Text → Bool
has_base64_marker meta =
    any (λ segment. text_eq (to_lower_case segment) (text "base64")) (split b';' meta)

-- `String.UTF8.decode`, a function of the runtime, is the first argument.
abbrev pub decoded : (List ℕ → Text) → Option (List ℕ) → Option Text
decoded utf8 none = none
decoded utf8 (some bytes) = some (utf8 bytes)

abbrev pub looks_like_plain_json : Text → Bool
looks_like_plain_json payload = starts_with payload (text "{") || starts_with payload (text "[")

abbrev pub payload_of : (List ℕ → Text) → Option (Text × Text) → Option Text
payload_of utf8 none = none
payload_of utf8 (some (meta, payload)) =
    if has_base64_marker meta && not (looks_like_plain_json payload)
    then decoded utf8 (base64_decode payload)
    else some payload

unfoldable pub decode_data_uri : (List ℕ → Text) → Text → Option Text
decode_data_uri utf8 uri =
    if starts_with (to_lower_case uri) (text "data:")
    then payload_of utf8 (cut_at_comma (slice 5 uri))
    else none
