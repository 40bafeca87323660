-- ===== src/Subgraph/Base64.antt =====
-- packages/subgraph-arc/src/shared/base64.ts: the decoder of base64 payloads, and the encoding that
-- it is judged by.
pub mod Alphabet
pub mod RoundTrip
use bufi.Base.{
  ℕ, zero, suc, ◌+◌, ◌-◌, ◌*◌, ◌/◌, ◌%◌, ◌^◌, ◌==◌, ◌≡◌, Bool, true, false, ◌||◌, not, Option, none,
  some, List, [], ◌∷◌, ◌++◌, length, keep, if◌then◌else◌,
}
use bufi.Base.Texts.{Text, text}

abbrev pub alphabet : Text
alphabet = text "ABCDEFGHIJKLMNOPQRSTUVWXYZabcdefghijklmnopqrstuvwxyz0123456789+/"

abbrev pub is_whitespace : ℕ → Bool
is_whitespace code = code == 32 || code == 9 || code == 10 || code == 13

unfoldable pub without_whitespace : Text → Text
without_whitespace value = keep (λ code. not (is_whitespace code)) value

-- `cleaned` up to `significantLength`: every `=` at the end goes.
abbrev pub padded : ℕ → Text → Text
padded c [] = if c == b'=' then [] else c ∷ []
padded c (d ∷ rest) = c ∷ d ∷ rest

unfoldable pub significant : Text → Text
significant [] = []
significant (c ∷ cs) = padded c (significant cs)

-- `ALPHABET.indexOf(c)`, none for -1.
unfoldable pub index_of : ℕ → ℕ → Text → Option ℕ
index_of c i [] = none
index_of c i (a ∷ rest) = let later = index_of c (suc i) rest in if a == c then some i else later

-- The inner loop: `buffer = (buffer << 6) | value`, where `value` fits in the six bits made free.
unfoldable pub read_chunk : ℕ → Text → Option ℕ
read_chunk buffer [] = some buffer
read_chunk buffer (c ∷ cs) = elim (index_of c 0 alphabet) [
  | none ↦ none
  | some value ↦ read_chunk (buffer * 64 + value) cs
]

-- `(buffer >> (16 - i * 8)) & 0xff`, for `count` rounds from `i` on.
unfoldable pub byte_at : ℕ → ℕ → ℕ
byte_at buffer i = buffer / (2 ^ (16 - i * 8)) % 256

unfoldable pub push_bytes : ℕ → ℕ → ℕ → List ℕ
push_bytes buffer zero i = []
push_bytes buffer (suc count) i = byte_at buffer i ∷ push_bytes buffer count (suc i)

-- The buffer brought to 24 bits, and the whole bytes of its `chunkBits`.
abbrev pub chunk_bytes : ℕ → Option ℕ → Option (List ℕ)
chunk_bytes chunk_bits none = none
chunk_bytes chunk_bits (some buffer) =
    some (push_bytes (buffer * 2 ^ (24 - chunk_bits)) (chunk_bits / 8) 0)

-- The body of the outer loop at a chunk of one to four characters.
unfoldable pub decode_chunk : Text → Option (List ℕ)
decode_chunk chunk = chunk_bytes (length chunk * 6) (read_chunk 0 chunk)

abbrev pub append_to : Option (List ℕ) → Option (List ℕ) → Option (List ℕ)
append_to none back = none
append_to (some front) none = none
append_to (some front) (some back) = some (front ++ back)

unfoldable pub decode_loop : Text → Option (List ℕ)
decode_loop [] = some []
decode_loop (a ∷ []) = decode_chunk (a ∷ [])
decode_loop (a ∷ b ∷ []) = decode_chunk (a ∷ b ∷ [])
decode_loop (a ∷ b ∷ c ∷ []) = decode_chunk (a ∷ b ∷ c ∷ [])
decode_loop (a ∷ b ∷ c ∷ d ∷ rest) =
    append_to (decode_chunk (a ∷ b ∷ c ∷ d ∷ [])) (decode_loop rest)

unfoldable pub base64_decode : Text → Option (List ℕ)
base64_decode input = decode_loop (significant (without_whitespace input))

-- The encoding of RFC 4648, section 4.
unfoldable pub letter : ℕ → Text → ℕ
letter i [] = 0
letter zero (a ∷ rest) = a
letter (suc i) (a ∷ rest) = letter i rest

unfoldable pub sextet : ℕ → ℕ
sextet n = letter (n % 64) alphabet

-- The digits of some bytes, without the padding.
unfoldable pub digits : List ℕ → Text
digits [] = []
digits (x ∷ []) = sextet (x / 4) ∷ sextet (x * 16) ∷ []
digits (x ∷ y ∷ []) = sextet (x / 4) ∷ sextet (x * 16 + y / 16) ∷ sextet (y * 4) ∷ []
digits (x ∷ y ∷ z ∷ rest) =
    sextet (x / 4) ∷ sextet (x * 16 + y / 16) ∷ sextet (y * 4 + z / 64) ∷ sextet z ∷ digits rest

unfoldable pub padding : List ℕ → Text
padding [] = []
padding (x ∷ []) = text "=="
padding (x ∷ y ∷ []) = text "="
padding (x ∷ y ∷ z ∷ rest) = padding rest

unfoldable pub base64_encode : List ℕ → Text
base64_encode bytes = digits bytes ++ padding bytes
