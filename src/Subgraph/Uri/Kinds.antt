-- ===== src/Subgraph/Uri/Kinds.antt =====
-- What `classifyUri` of packages/subgraph-arc/src/shared/uri.ts says of a URI.
use bufi.Base.{◌≡◌, refl, ap, true, false, [], ◌∷◌, ◌++◌, arith, Bool-cases, inl, inr}
use bufi.Base.Texts.{Text, text, to_lower_case, lower_unit}
use bufi.Subgraph.Schema.{UriKind}
use bufi.Subgraph.Uri.{starts_with, classify_uri}

-- A URI begins with a scheme, given in lower case, in letters of any case.
abbrev pub HasScheme : Text → Text → Type 0
HasScheme uri scheme =
    (written : Text) × (rest : Text) × (uri ≡ written ++ rest) × (to_lower_case written ≡ scheme)

-- The URIs of each kind.
abbrev pub IsOfKind : Text → UriKind → Type 0
IsOfKind uri UriKind.none_kind = uri ≡ []
IsOfKind uri UriKind.data_kind = HasScheme uri (text "data:")
IsOfKind uri UriKind.ipfs = HasScheme uri (text "ipfs://")
IsOfKind uri UriKind.arweave = HasScheme uri (text "ar://")
IsOfKind uri UriKind.https = HasScheme uri (text "https://")
IsOfKind uri UriKind.http = HasScheme uri (text "http://")
IsOfKind uri UriKind.other =
    (uri ≡ [] → ⊥)
    × (HasScheme uri (text "data:") → ⊥)
    × (HasScheme uri (text "ipfs://") → ⊥)
    × (HasScheme uri (text "ar://") → ⊥)
    × (HasScheme uri (text "https://") → ⊥)
    × (HasScheme uri (text "http://") → ⊥)

starts_with-HasScheme :
    (uri scheme : Text) → starts_with (to_lower_case uri) scheme ≡ true → HasScheme uri scheme
unfolding starts_with
starts_with-HasScheme uri [] h = ([], uri, refl, refl)
starts_with-HasScheme [] (p ∷ scheme) h = absurd (ground arith)
starts_with-HasScheme (c ∷ uri) (p ∷ scheme) h =
    let (written, rest, split, lower) = starts_with-HasScheme uri scheme (ground arith) in
    let head : lower_unit c ≡ p = ground arith in
    (c ∷ written, rest, ap (λ t. c ∷ t) split, rw (head, lower) refl)

pub starts_with-written :
    (written rest : Text)
    → starts_with (to_lower_case (written ++ rest)) (to_lower_case written) ≡ true
unfolding starts_with
starts_with-written [] rest = refl
starts_with-written (c ∷ written) rest = ground (arith, starts_with-written written rest)

not_scheme :
    (uri scheme : Text) → starts_with (to_lower_case uri) scheme ≡ false → HasScheme uri scheme → ⊥
not_scheme uri scheme h (written, rest, split, lower) =
    let here : starts_with (to_lower_case uri) scheme ≡ true =
      rw (split, ← lower) (starts_with-written written rest) in
    ground arith

-- Every URI is of the kind that `classifyUri` gives it: the empty one, those that begin with one of
-- the five schemes in letters of any case, and the others, which begin with none of them.
pub classify_uri-IsOfKind : (uri : Text) → IsOfKind uri (classify_uri uri)
unfolding classify_uri
classify_uri-IsOfKind [] = refl
classify_uri-IsOfKind (c ∷ cs) =
    let uri = c ∷ cs in
    elim (Bool-cases (starts_with (to_lower_case uri) (text "data:"))) [
      | inl e ↦ rw e (starts_with-HasScheme uri _ e)
      | inr e₁ ↦ elim (Bool-cases (starts_with (to_lower_case uri) (text "ipfs://"))) [
        | inl e ↦ rw (e₁, e) (starts_with-HasScheme uri _ e)
        | inr e₂ ↦ elim (Bool-cases (starts_with (to_lower_case uri) (text "ar://"))) [
          | inl e ↦ rw (e₁, e₂, e) (starts_with-HasScheme uri _ e)
          | inr e₃ ↦ elim (Bool-cases (starts_with (to_lower_case uri) (text "https://"))) [
            | inl e ↦ rw (e₁, e₂, e₃, e) (starts_with-HasScheme uri _ e)
            | inr e₄ ↦ elim (Bool-cases (starts_with (to_lower_case uri) (text "http://"))) [
              | inl e ↦ rw (e₁, e₂, e₃, e₄, e) (starts_with-HasScheme uri _ e)
              | inr e₅ ↦
                  rw (e₁, e₂, e₃, e₄, e₅)
                    (
                      λ empty. cc,
                      not_scheme uri _ e₁,
                      not_scheme uri _ e₂,
                      not_scheme uri _ e₃,
                      not_scheme uri _ e₄,
                      not_scheme uri _ e₅,
                    )
            ]
          ]
        ]
      ]
    ]
