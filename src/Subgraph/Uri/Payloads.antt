-- ===== src/Subgraph/Uri/Payloads.antt =====
-- The payloads that `decodeDataUri` of packages/subgraph-arc/src/shared/uri.ts gives, for URIs of the
-- form of RFC 2397: a scheme, a media type, a label, a comma, the data.
use bufi.Base.{
  ℕ, ◌/◌, ◌==◌, ◌≡◌, refl, ap, sym, ◌∙◌, true, false, Bool, ◌&&◌, not, some, List, [], ◌∷◌, ◌++◌,
  arith, any, All, ◌<◌, ◌⊎◌, inl, inr, Bool-cases,
}
use bufi.Base.Texts.{Text, text, text_eq, to_lower_case, lower_unit}
use bufi.Subgraph.Base64.{base64_encode, digits, padding}
use bufi.Subgraph.Base64.Alphabet.{sextet-no_json}
use bufi.Subgraph.Base64.RoundTrip.{base64_decode-encode}
use bufi.Subgraph.Caip.{split, onto_first, lacks, split-other, split-same}
use bufi.Subgraph.Uri.{
  starts_with, slice, cut_at_comma, has_base64_marker, looks_like_plain_json, payload_of,
  decode_data_uri,
}
use bufi.Subgraph.Uri.Kinds.{starts_with-written}

-- The scheme, the header, a comma, and the data.
abbrev pub data_uri : Text → Text → Text → Text
data_uri scheme header payload = scheme ++ (header ++ (text "," ++ payload))

cut_at_comma-header :
    (header payload : Text)
    → lacks b',' header ≡ true
    → cut_at_comma (header ++ (text "," ++ payload)) ≡ some (header, payload)
unfolding cut_at_comma
cut_at_comma-header [] payload h = refl
cut_at_comma-header (c ∷ cs) payload h =
    let here : (c == b',') ≡ false = ground arith in
    rw (here, cut_at_comma-header cs payload (ground arith)) refl

slice-scheme :
    (scheme rest : Text) → to_lower_case scheme ≡ text "data:" → slice 5 (scheme ++ rest) ≡ rest
slice-scheme (a ∷ b ∷ c ∷ d ∷ e ∷ []) rest h = refl
slice-scheme [] rest h = absurd (ground arith)
slice-scheme (a ∷ []) rest h = absurd (ground arith)
slice-scheme (a ∷ b ∷ []) rest h = absurd (ground arith)
slice-scheme (a ∷ b ∷ c ∷ []) rest h = absurd (ground arith)
slice-scheme (a ∷ b ∷ c ∷ d ∷ []) rest h = absurd (ground arith)
slice-scheme (a ∷ b ∷ c ∷ d ∷ e ∷ f ∷ t) rest h = absurd (ground arith)

decode_data_uri-parts :
    (utf8 : List ℕ → Text) (scheme header payload : Text)
    → to_lower_case scheme ≡ text "data:"
    → lacks b',' header ≡ true
    → decode_data_uri utf8 (data_uri scheme header payload)
      ≡ payload_of utf8 (some (header, payload))
unfolding decode_data_uri
decode_data_uri-parts utf8 scheme header payload h comma =
    let rest = header ++ (text "," ++ payload) in
    let prefixed : starts_with (to_lower_case (scheme ++ rest)) (text "data:") ≡ true =
      rw (← h) (starts_with-written scheme rest) in
    rw (prefixed, slice-scheme scheme rest h, cut_at_comma-header header payload comma) refl

-- Lower-casing neither makes nor takes away a semicolon or a comma.
lacks-lower :
    (s : ℕ) (t : Text) → lower_unit s ≡ s → lacks s (to_lower_case t) ≡ true → lacks s t ≡ true
lacks-lower s [] fixed h = refl
lacks-lower s (c ∷ cs) fixed h = elim (Bool-cases (c == s)) [
  | inl e ↦ absurd (ground arith)
  | inr e ↦ rw e (lacks-lower s cs fixed (ground arith))
]

split-whole : (separator : ℕ) (t : Text) → lacks separator t ≡ true → split separator t ≡ t ∷ []
unfolding split
split-whole separator [] h = refl
split-whole separator (c ∷ cs) h =
    split-other separator c cs (ground arith)
    ∙ ap (onto_first c) (split-whole separator cs (ground arith))

-- The parts behind the first one hold what is behind a separator.
split-behind :
    (separator : ℕ) (t rest : Text) (test : Text → Bool)
    → any test (split separator rest) ≡ true
    → (first : Text) × (others : List Text) × (split separator (t ++ separator ∷ rest)
        ≡ first ∷ others)
      × (any test others ≡ true)
unfolding split
split-behind separator [] rest test h =
    ([], split separator rest, split-same separator separator rest (ground arith), h)
split-behind separator (c ∷ cs) rest test h =
    let (first, others, e, behind) = split-behind separator cs rest test h in
    elim (Bool-cases (c == separator)) [
      | inl same ↦ (
        [],
        first ∷ others,
        split-same separator c _ same ∙ ap (λ p. [] ∷ p) e,
        ground (arith, behind),
      )
      | inr other ↦
          (c ∷ first, others, split-other separator c _ other ∙ ap (onto_first c) e, behind)
    ]

-- The first part of a text begins it.
split-begins :
    (separator : ℕ) (t : Text)
    → (first : Text) × (others : List Text) × (after : Text) × (split separator t ≡ first ∷ others)
      × (t ≡ first ++ after)
unfolding split
split-begins separator [] = ([], [], [], refl, refl)
split-begins separator (c ∷ cs) =
    let (first, others, after, e, begins) = split-begins separator cs in
    elim (Bool-cases (c == separator)) [
      | inl same ↦
          ([], first ∷ others, c ∷ cs, split-same separator c cs same ∙ ap (λ p. [] ∷ p) e, refl)
      | inr other ↦ (
        c ∷ first,
        others,
        after,
        split-other separator c cs other ∙ ap (onto_first c) e,
        ap (λ t. c ∷ t) begins,
      )
    ]

-- A text holds another.
abbrev pub Holds : Text → (Text → Bool) → Type 0
Holds t test =
    (before : Text) × (part : Text) × (after : Text) × (t ≡ before ++ (part ++ after))
    × (test part ≡ true)

split-Holds :
    (separator : ℕ) (t : Text) (test : Text → Bool)
    → any test (split separator t) ≡ true
    → Holds t test
unfolding split
split-Holds separator [] test h = ([], [], [], refl, ground arith)
split-Holds separator (c ∷ cs) test h =
    let (first, others, after, e, begins) = split-begins separator cs in
    elim (Bool-cases (c == separator)) [
      | inl same ↦
          let h' : any test ([] ∷ split separator cs) ≡ true =
            sym (ap (any test) (split-same separator c cs same)) ∙ h in
          elim (Bool-cases (test [])) [
            | inl here ↦ ([], [], c ∷ cs, refl, here)
            | inr other ↦ behind c cs test (split-Holds separator cs test (ground arith))
          ]
      | inr other ↦
          let h' : any test (onto_first c (first ∷ others)) ≡ true =
            sym (ap (any test) (split-other separator c cs other ∙ ap (onto_first c) e)) ∙ h in
          elim (Bool-cases (test (c ∷ first))) [
            | inl here ↦ ([], c ∷ first, after, ap (λ t. c ∷ t) begins, here)
            | inr not_here ↦
                let rest : any test (split separator cs) ≡ true = rw e (ground arith) in
                behind c cs test (split-Holds separator cs test rest)
          ]
    ]
  where
    behind : (c : ℕ) (cs : Text) (test : Text → Bool) → Holds cs test → Holds (c ∷ cs) test
    behind c cs test (before, part, after, joined, passes) =
        (c ∷ before, part, after, ap (λ t. c ∷ t) joined, passes)

base64_encode-no_json : (bytes : List ℕ) → looks_like_plain_json (base64_encode bytes) ≡ false
unfolding base64_encode digits padding starts_with
base64_encode-no_json [] = refl
base64_encode-no_json (x ∷ []) = ground (arith, sextet-no_json (x / 4))
base64_encode-no_json (x ∷ y ∷ []) = ground (arith, sextet-no_json (x / 4))
base64_encode-no_json (x ∷ y ∷ z ∷ rest) = ground (arith, sextet-no_json (x / 4))

has_base64_marker-label :
    (mediatype label : Text)
    → to_lower_case label ≡ text "base64"
    → has_base64_marker (mediatype ++ (text ";" ++ label)) ≡ true
unfolding has_base64_marker
has_base64_marker-label mediatype label h =
    let test : Text → Bool = λ segment. text_eq (to_lower_case segment) (text "base64") in
    let whole = split-whole b';' label (lacks-lower b';' label refl (rw h refl)) in
    let last : any test (split b';' label) ≡ true = rw (whole, h) refl in
    let (first, others, e, behind) = split-behind b';' mediatype label test last in
    rw e (ground (arith, behind))

lacks-append : (s : ℕ) (a b : Text) → lacks s a ≡ true → lacks s b ≡ true → lacks s (a ++ b) ≡ true
lacks-append s [] b ha hb = hb
lacks-append s (c ∷ cs) b ha hb = ground (arith, lacks-append s cs b)

-- For a URI whose scheme is data: and whose last label is base64, both in letters of any case, behind
-- any media type without a comma, the payload that encodes bytes is decoded to those bytes.
pub decode_data_uri-base64 :
    (utf8 : List ℕ → Text) (scheme mediatype label : Text) (bytes : List ℕ)
    → to_lower_case scheme ≡ text "data:"
    → lacks b',' mediatype ≡ true
    → to_lower_case label ≡ text "base64"
    → All (λ b. b < 256) bytes
    → decode_data_uri utf8
        (data_uri scheme (mediatype ++ (text ";" ++ label)) (base64_encode bytes))
      ≡ some (utf8 bytes)
decode_data_uri-base64 utf8 scheme mediatype label bytes h comma labelled small =
    let clean : lacks b',' label ≡ true = lacks-lower b',' label refl (rw labelled refl) in
    let header = mediatype ++ (text ";" ++ label) in
    let whole = lacks-append b',' mediatype (text ";" ++ label) comma clean in
    decode_data_uri-parts utf8 scheme header (base64_encode bytes) h whole
    ∙ rw
        (
          has_base64_marker-label mediatype label labelled,
          base64_encode-no_json bytes,
          base64_decode-encode bytes small,
        )
        refl

-- For a URI whose scheme is data:, in letters of any case, the payload is given as it stands when it
-- begins with a bracket or a brace, whatever the labels are, and when the header, which is without a
-- comma, nowhere holds the word base64 in letters of any case.
pub decode_data_uri-plain :
    (utf8 : List ℕ → Text) (scheme header payload : Text)
    → to_lower_case scheme ≡ text "data:"
    → lacks b',' header ≡ true
    → (starts_with payload (text "{") ≡ true)
      ⊎ (starts_with payload (text "[") ≡ true)
      ⊎ (Holds header (λ part. text_eq (to_lower_case part) (text "base64")) → ⊥)
    → decode_data_uri utf8 (data_uri scheme header payload) ≡ some payload
unfolding has_base64_marker
decode_data_uri-plain utf8 scheme header payload h comma plain =
    decode_data_uri-parts utf8 scheme header payload h comma
    ∙ elim (Bool-cases (has_base64_marker header && not (looks_like_plain_json payload))) [
      | inr e ↦ rw e refl
      | inl e ↦
          let marked : has_base64_marker header ≡ true = ground arith in
          let not_json : looks_like_plain_json payload ≡ false = ground arith in
          elim plain [
            | inl brace ↦ absurd (ground arith)
            | inr (inl bracket) ↦ absurd (ground arith)
            | inr (inr unlabelled) ↦ absurd (unlabelled (split-Holds b';' header _ marked))
          ]
    ]
