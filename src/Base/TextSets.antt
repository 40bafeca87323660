-- ===== src/Base/TextSets.antt =====
-- Sets of texts as lists: what a loop that fills a set and refuses repetitions has checked.
use bufi.Base.Lists.{any, In, In→any, any→In}
use bufi.Base.Tests.{Bool-cases, Bool-ext}
use bufi.Base.Texts.{Text, text_eq, text_eq→eq, text_eq_self}
use mathlib.Core.Path.{◌≡◌, refl}
use mathlib.Core.Logic.{inl, inr, ◌↔◌, ◌⊎◌}
use mathlib.Core.Bool.{Bool, true, false}
use mathlib.Core.List.{List, [], ◌∷◌}
use native.Mathlib.Omega.{arith}

-- `set.has(t)`
abbrev pub includes : List Text → Text → Bool
includes ids id = any (text_eq id) ids

pub includes→In : (ids : List Text) (x : Text) → includes ids x ≡ true → In x ids
includes→In ids x h = let r = any→In (text_eq x) ids h in rw (text_eq→eq x r.0 r.2) r.1

pub In→includes : (ids : List Text) (x : Text) → In x ids → includes ids x ≡ true
In→includes ids x i = In→any (text_eq x) x ids i (text_eq_self x)

pub not_included : (ids : List Text) (x : Text) → includes ids x ≡ false → In x ids → ⊥
not_included ids x h i = ground (arith, In→includes ids x i)

-- `[...new Set(texts)]`: the first of equal texts stays.
unfoldable pub distinct_texts : List Text → List Text → List Text
distinct_texts seen [] = []
distinct_texts seen (t ∷ ts) = elim (includes seen t) [
  | true ↦ distinct_texts seen ts
  | false ↦ t ∷ distinct_texts (t ∷ seen) ts
]

pub distinct_texts-In : (seen ts : List Text) (x : Text) → In x (distinct_texts seen ts) → In x ts
unfolding distinct_texts
distinct_texts-In seen [] x i = i
distinct_texts-In seen (t ∷ ts) x i =
    ground (arith, distinct_texts-In seen ts x, distinct_texts-In (t ∷ seen) ts x)

In-distinct_texts :
    (seen ts : List Text) (x : Text) → In x ts → In x seen ⊎ In x (distinct_texts seen ts)
unfolding distinct_texts
In-distinct_texts seen [] x i = elim i [ ]
In-distinct_texts seen (t ∷ ts) x i = elim (Bool-cases (includes seen t)) [
  | inl e ↦ rw (e, In) (old e (In-distinct_texts seen ts x) i)
  | inr e ↦ rw (e, In) (new (In-distinct_texts (t ∷ seen) ts x) i)
]
  where
    old :
        includes seen t ≡ true
        → (In x ts → In x seen ⊎ In x (distinct_texts seen ts))
        → In x (t ∷ ts)
        → In x seen ⊎ In x (distinct_texts seen ts)
    old e ih (inl p) = inl (rw p (includes→In seen t e))
    old e ih (inr j) = ih j

    new :
        (In x ts → In x (t ∷ seen) ⊎ In x (distinct_texts (t ∷ seen) ts))
        → In x (t ∷ ts)
        → In x seen ⊎ In x (t ∷ distinct_texts (t ∷ seen) ts)
    new ih (inl p) = inr (inl p)
    new ih (inr j) = ground (arith, ih j)

-- Making a list a set neither loses nor invents a text.
pub distinct_texts_iff : (ts : List Text) (x : Text) → In x (distinct_texts [] ts) ↔ In x ts
distinct_texts_iff ts x = (distinct_texts-In [] ts x, λ i. from (In-distinct_texts [] ts x i))
  where
    from : In x [] ⊎ In x (distinct_texts [] ts) → In x (distinct_texts [] ts)
    from (inl j) = elim j [ ]
    from (inr j) = j

-- No text stands twice.
abbrev pub Distinct : List Text → Type 0
Distinct [] = Unit
Distinct (t ∷ ts) = (In t ts → ⊥) × Distinct ts

-- The texts are new to a set, and to one another, as a loop meets them.
abbrev pub Fresh : List Text → List Text → Type 0
Fresh [] seen = Unit
Fresh (t ∷ ts) seen = (includes seen t ≡ false) × Fresh ts (t ∷ seen)

Fresh-apart : (ts seen : List Text) (x : Text) → Fresh ts seen → In x seen → In x ts → ⊥
Fresh-apart [] seen x f i j = j
Fresh-apart (t ∷ ts) seen x f i (inl e) = not_included seen t f.0 (rw e at i)
Fresh-apart (t ∷ ts) seen x f i (inr j) = Fresh-apart ts (t ∷ seen) x f.1 (inr i) j

pub Fresh-Distinct : (ts seen : List Text) → Fresh ts seen → Distinct ts
Fresh-Distinct [] seen f = tt
Fresh-Distinct (t ∷ ts) seen f =
    (λ i. Fresh-apart ts (t ∷ seen) t f.1 (inl refl) i, Fresh-Distinct ts (t ∷ seen) f.1)

pub Distinct-Fresh :
    (ts seen : List Text) → Distinct ts → ((x : Text) → In x seen → In x ts → ⊥) → Fresh ts seen
Distinct-Fresh [] seen d apart = tt
Distinct-Fresh (t ∷ ts) seen d apart = (head_fresh, Distinct-Fresh ts (t ∷ seen) d.1 tail_apart)
  where
    head_fresh : includes seen t ≡ false
    head_fresh = elim (Bool-cases (includes seen t)) [
      | inl e ↦ absurd (apart t (includes→In seen t e) (inl refl))
      | inr e ↦ e
    ]

    tail_apart : (x : Text) → In x (t ∷ seen) → In x ts → ⊥
    tail_apart x (inl e) j = d.0 (rw e at j)
    tail_apart x (inr i) j = apart x i (inr j)

pub distinct_texts-Distinct : (seen ts : List Text) → Fresh (distinct_texts seen ts) seen
unfolding distinct_texts
distinct_texts-Distinct seen [] = tt
distinct_texts-Distinct seen (t ∷ ts) = elim (Bool-cases (includes seen t)) [
  | inl e ↦ rw (e, Fresh) (distinct_texts-Distinct seen ts)
  | inr e ↦ rw (e, Fresh) (e, distinct_texts-Distinct (t ∷ seen) ts)
]

pub distinct_texts-includes :
    (ts : List Text) (x : Text) → includes (distinct_texts [] ts) x ≡ includes ts x
distinct_texts-includes ts x =
    Bool-ext _ _
      (λ h. In→includes ts x ((distinct_texts_iff ts x).0 (includes→In (distinct_texts [] ts) x h)))
      (λ h. In→includes (distinct_texts [] ts) x ((distinct_texts_iff ts x).1 (includes→In ts x h)))
