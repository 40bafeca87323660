-- ===== src/Subgraph/Caip.antt =====
-- packages/subgraph-arc/src/shared/caip.ts: CAIP-10 identifiers.
use bufi.Base.{
  ℕ, ◌==◌, ◌≡◌, refl, ap, sym, ◌∙◌, Bool, true, false, not, Option, none, some, List, [], ◌∷◌, ◌++◌,
  arith, all, ==_iff, Bool-cases, inl, inr, if◌then◌else◌,
}
use bufi.Base.Texts.{Text, text}
use bufi.Subgraph.Table.{Bytes}
use bufi.Subgraph.Runtime.{Host}

-- `value.split(separator)` for one character: never an empty list.
abbrev pub onto_first : ℕ → List Text → List Text
onto_first c [] = (c ∷ []) ∷ []
onto_first c (part ∷ parts) = (c ∷ part) ∷ parts

unfoldable pub split : ℕ → Text → List Text
split separator [] = [] ∷ []
split separator (c ∷ cs) =
    let rest = split separator cs in if c == separator then [] ∷ rest else onto_first c rest

-- `parts.join(separator)`
unfoldable pub join : ℕ → List Text → Text
join separator [] = []
join separator (part ∷ []) = part
join separator (part ∷ next ∷ parts) = part ++ separator ∷ join separator (next ∷ parts)

pub record Caip10 : Type 0 where
  pub namespace : Option Text
  pub chain_id : Option Text
  pub reference : Option Text

abbrev caip10_of : List Text → Caip10
caip10_of (a ∷ b ∷ c ∷ rest) = record {
  namespace = some a;
  chain_id = some b;
  reference = some (join b':' (c ∷ rest));
}
caip10_of _ = record { namespace = none; chain_id = none; reference = none }

unfoldable pub parse_caip10 : Text → Caip10
parse_caip10 value = caip10_of (split b':' value)

unfoldable pub to_eip155_caip10 : Host → ℕ → Bytes → Text
to_eip155_caip10 host chain_id address =
    text "eip155:" ++ host.to_string chain_id ++ b':' ∷ host.to_hex_string address

abbrev pub lacks : ℕ → Text → Bool
lacks separator t = all (λ c. not (c == separator)) t

pub split-other :
    (separator c : ℕ) (cs : Text)
    → (c == separator) ≡ false
    → split separator (c ∷ cs) ≡ onto_first c (split separator cs)
unfolding split
split-other separator c cs h = rw (split, h) refl

pub split-same :
    (separator c : ℕ) (cs : Text)
    → (c == separator) ≡ true
    → split separator (c ∷ cs) ≡ [] ∷ split separator cs
unfolding split
split-same separator c cs h = rw (split, h) refl

split-lacking :
    (separator : ℕ) (t rest : Text)
    → lacks separator t ≡ true
    → split separator (t ++ separator ∷ rest) ≡ t ∷ split separator rest
unfolding split
split-lacking separator [] rest h = ground arith
split-lacking separator (c ∷ cs) rest h =
    split-other separator c (cs ++ separator ∷ rest) (ground arith)
    ∙ ap (onto_first c) (split-lacking separator cs rest (ground arith))

split-first :
    (separator : ℕ) (t : Text)
    → (first : Text) × (others : List Text) × (split separator t ≡ first ∷ others)
unfolding split
split-first separator [] = ([], [], refl)
split-first separator (c ∷ cs) =
    let (first, others, e) = split-first separator cs in
    elim (Bool-cases (c == separator)) [
      | inl same ↦ ([], split separator cs, rw (split, same) refl)
      | inr other ↦ (c ∷ first, others, split-other separator c cs other ∙ ap (onto_first c) e)
    ]

join-onto_first :
    (separator c : ℕ) (parts : List Text)
    → join separator (onto_first c parts) ≡ c ∷ join separator parts
unfolding join
join-onto_first separator c [] = refl
join-onto_first separator c (p ∷ []) = refl
join-onto_first separator c (p ∷ q ∷ rest) = refl

join-empty :
    (separator : ℕ) (first : Text) (others : List Text)
    → join separator ([] ∷ first ∷ others) ≡ separator ∷ join separator (first ∷ others)
unfolding join
join-empty separator first others = refl

join-split : (separator : ℕ) (t : Text) → join separator (split separator t) ≡ t
unfolding join split
join-split separator [] = refl
join-split separator (c ∷ cs) = elim (Bool-cases (c == separator)) [
  | inl same ↦
      let (first, others, e) = split-first separator cs in
      ap (join separator) (split-same separator c cs same ∙ ap (λ p. [] ∷ p) e)
      ∙ join-empty separator first others
      ∙ ap (λ t. separator ∷ t) (ap (join separator) (sym e) ∙ join-split separator cs)
      ∙ ap (λ x. x ∷ cs) (sym ((==_iff c separator).0 same))
  | inr other ↦
      ap (join separator) (split-other separator c cs other)
      ∙ join-onto_first separator c (split separator cs)
      ∙ ap (λ t. c ∷ t) (join-split separator cs)
]

-- A reference may hold colons; a namespace and a chain without one come back as they were.
pub parse_caip10-parts :
    (namespace chain reference : Text)
    → lacks b':' namespace ≡ true
    → lacks b':' chain ≡ true
    → parse_caip10 (namespace ++ b':' ∷ (chain ++ b':' ∷ reference))
      ≡ record { namespace = some namespace; chain_id = some chain; reference = some reference }
unfolding parse_caip10
parse_caip10-parts namespace chain reference p q =
    let (first, others, e) = split-first b':' reference in
    ap caip10_of (
      split-lacking b':' namespace (chain ++ b':' ∷ reference) p
      ∙ ap (λ t. namespace ∷ t) (split-lacking b':' chain reference q ∙ ap (λ t. chain ∷ t) e))
    ∙ ap (λ t. record { namespace = some namespace; chain_id = some chain; reference = some t })
        (ap (join b':') (sym e) ∙ join-split b':' reference)

-- What the formatter writes is what the parser reads, where a decimal number has no colon.
pub parse_caip10-to_eip155_caip10 :
    (host : Host) (chain_id : ℕ) (address : Bytes)
    → lacks b':' (host.to_string chain_id) ≡ true
    → parse_caip10 (to_eip155_caip10 host chain_id address) ≡ record {
      namespace = some (text "eip155");
      chain_id = some (host.to_string chain_id);
      reference = some (host.to_hex_string address);
    }
unfolding to_eip155_caip10
parse_caip10-to_eip155_caip10 host chain_id address h =
    parse_caip10-parts (text "eip155") (host.to_string chain_id) (host.to_hex_string address) refl h
