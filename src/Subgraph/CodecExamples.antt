-- ===== src/Subgraph/CodecExamples.antt =====
-- The theorems on the codecs of packages/subgraph-arc/src/shared at texts of their own.
use bufi.Base.{◌≡◌, refl, some, [], ◌∷◌, ◌++◌, arith, inl}
use bufi.Base.Texts.{text}
use bufi.Subgraph.Base64.{
  base64_decode, base64_encode, significant, without_whitespace, decode_loop, decode_chunk,
  read_chunk, index_of, push_bytes, byte_at,
}
use bufi.Subgraph.Base64.RoundTrip.{base64_decode-encode}
use bufi.Subgraph.Caip.{parse_caip10, parse_caip10-parts}
use bufi.Subgraph.Uri.{starts_with, classify_uri, decode_data_uri}
use bufi.Subgraph.Uri.Kinds.{IsOfKind, classify_uri-IsOfKind}
use bufi.Subgraph.Uri.Payloads.{data_uri, decode_data_uri-base64, decode_data_uri-plain}
use bufi.Subgraph.Decimal.{is_decimal_string, is_decimal, unsigned, is_decimal_string_lem}

-- `btoa('ok')`, with a line break in it.
decode_test : base64_decode (text "b2\ns=") ≡ some (111 ∷ 107 ∷ [])
unfolding base64_decode significant without_whitespace decode_loop decode_chunk read_chunk index_of
    push_bytes byte_at
decode_test = refl

base64_decode-encode_example :
    base64_decode (base64_encode (0 ∷ 255 ∷ 16 ∷ 8 ∷ [])) ≡ some (0 ∷ 255 ∷ 16 ∷ 8 ∷ [])
base64_decode-encode_example =
    base64_decode-encode (0 ∷ 255 ∷ 16 ∷ 8 ∷ [])
      (omega arith, (omega arith, (omega arith, (omega arith, tt))))

parse_caip10-parts_example :
    parse_caip10 (text "eip155" ++ 58 ∷ (text "7" ++ 58 ∷ text "0x:1")) ≡ record {
      namespace = some (text "eip155");
      chain_id = some (text "7");
      reference = some (text "0x:1");
    }
parse_caip10-parts_example = parse_caip10-parts (text "eip155") (text "7") (text "0x:1") refl refl

classify_uri-IsOfKind_example : IsOfKind (text "IPFS://x") (classify_uri (text "IPFS://x"))
classify_uri-IsOfKind_example = classify_uri-IsOfKind (text "IPFS://x")

decode_data_uri-base64_example :
    decode_data_uri
      (λ b. b)
      (data_uri
        (text "Data:")
        (text "text/plain;charset=utf8" ++ (text ";" ++ text "Base64"))
        (base64_encode (123 ∷ 125 ∷ [])))
    ≡ some (123 ∷ 125 ∷ [])
decode_data_uri-base64_example =
    decode_data_uri-base64 (λ b. b) (text "Data:") (text "text/plain;charset=utf8") (text "Base64")
      (123 ∷ 125 ∷ []) refl refl refl (omega arith, (omega arith, tt))

decode_data_uri-plain_example :
    decode_data_uri (λ b. b) (data_uri (text "data:") (text "application/json;base64") (text "{}"))
    ≡ some (text "{}")
unfolding starts_with
decode_data_uri-plain_example =
    decode_data_uri-plain (λ b. b) (text "data:") (text "application/json;base64") (text "{}") refl
      refl (inl refl)

is_decimal_string_lem_example :
    is_decimal_string (text "-1.5") ≡ is_decimal (unsigned (text "-1.5"))
is_decimal_string_lem_example = is_decimal_string_lem (text "-1.5")
