-- ===== src/Treasury/Coalitions/Irredundant.antt =====
-- A listed coalition stops winning when any one of its members leaves.
use bufi.Base.{
  ℕ, ◌+◌, ◌-◌, ◌/◌, ◌%◌, ◌≤◌, ◌<◌, ◌≡◌, refl, ◌⊎◌, inl, inr, Bool, true, false, not, ◌&&◌, List, [],
  ◌∷◌, map, arith, some, ◌==◌, if◌then◌else◌, any, In, any→In, map-In, and_true, lt→leb-false,
}
use bufi.Base.Texts.{Text, text_eq, text_eq→eq, text_eq_self}
use bufi.Base.TextSets.{Distinct}
use bufi.Treasury.Coalitions.{
  WeightedMember, winning_sum, is_winning, weight_of, minimal_from, is_pushed, chosen,
  minimal_winning_coalitions,
}
use bufi.Treasury.Coalitions.Masks.{
  weight_of-cons, minimal_from_shift, chosen-nil, chosen-cons, winning_sum-cons,
}
use bufi.Treasury.Coalitions.Enumeration.{collect-In, sort_masks-In}
use bufi.Treasury.Coalitions.Cover.{listed_masks}

abbrev pub ids : List WeightedMember → List Text
ids = map (λ (m : WeightedMember). m.id)

-- Every member that passes the test has its bit set.
abbrev Within : (Text → Bool) → List WeightedMember → ℕ → Type 0
Within has [] mask = Unit
Within has (m ∷ ms) mask = (has m.id ≡ true → mask % 2 ≡ 1) × Within has ms (mask / 2)

pub chosen-In-ids :
    (ms : List WeightedMember) (mask : ℕ) (y : Text) → In y (chosen ms mask) → In y (ids ms)
chosen-In-ids [] mask y i = elim (rw (chosen-nil mask) at i) [ ]
chosen-In-ids (m ∷ ms) mask y i =
    ground (arith, chosen-cons m ms mask, chosen-In-ids ms (mask / 2) y)

Within-chosen :
    (has : Text → Bool) (ms : List WeightedMember) (mask : ℕ)
    → Distinct (ids ms)
    → ((y : Text) → In y (ids ms) → has y ≡ true → In y (chosen ms mask))
    → Within has ms mask
Within-chosen has [] mask d f = tt
Within-chosen has (m ∷ ms) mask d f = (
  λ h.
      ground
        (arith, chosen-cons m ms mask, chosen-In-ids ms (mask / 2) m.id, f m.id (inl refl) h, d.0),
  Within-chosen has ms (mask / 2) d.1 tail,
)
  where
    tail : (y : Text) → In y (ids ms) → has y ≡ true → In y (chosen ms (mask / 2))
    tail y i h = pick (rw (chosen-cons m ms mask) at (f y (inr i) h))
      where
        out : y ≡ m.id → ⊥
        out e = d.0 (rw e at i)

        pick :
            In y (if mask % 2 == 1 then m.id ∷ chosen ms (mask / 2) else chosen ms (mask / 2))
            → In y (chosen ms (mask / 2))
        pick j = ground (arith, out)

winning_sum-le :
    (has : Text → Bool) (ms : List WeightedMember) (mask : ℕ)
    → Within has ms mask
    → winning_sum ms has 0 ≤ weight_of ms mask
unfolding winning_sum
winning_sum-le has [] mask w = omega arith
winning_sum-le has (m ∷ ms) mask w = ground (
  arith,
  winning_sum-cons m ms has,
  weight_of-cons m ms mask,
  winning_sum-le has ms (mask / 2) w.1,
)

-- Without the chosen member `x` the approvers stay below the threshold.
loses_one :
    (has : Text → Bool) (ms : List WeightedMember) (mask sum t : ℕ) (x : Text)
    → Within has ms mask
    → minimal_from mask sum t ms 0 ≡ true
    → has x ≡ false
    → In x (chosen ms mask)
    → (w : ℕ) × (sum - w < t) × (winning_sum ms has 0 + w ≤ weight_of ms mask)
unfolding minimal_from
loses_one has [] mask sum t x within passes out i = elim (rw (chosen-nil mask) at i) [ ]
loses_one has (m ∷ ms) mask sum t x within passes out i =
    elim (split (rw (chosen-cons m ms mask) at i)) [
      | inl (e, odd) ↦ (
        m.weight,
        ground arith,
        ground (
          arith,
          winning_sum-cons m ms has,
          weight_of-cons m ms mask,
          winning_sum-le has ms (mask / 2) within.1,
          excluded e,
        ),
      )
      | inr j ↦
          let r = loses_one has ms (mask / 2) sum t x within.1 later out j in
          (
            r.0,
            r.1,
            ground (arith, winning_sum-cons m ms has, weight_of-cons m ms mask, r.2, within.0),
          )
    ]
  where
    split :
        In x (if mask % 2 == 1 then m.id ∷ chosen ms (mask / 2) else chosen ms (mask / 2))
        → ((x ≡ m.id) × (mask % 2 ≡ 1)) ⊎ In x (chosen ms (mask / 2))
    split j = ground arith

    excluded : x ≡ m.id → has m.id ≡ false
    excluded e = rw (← e) out

    later : minimal_from (mask / 2) sum t ms 0 ≡ true
    later = ground (arith, minimal_from_shift mask sum t ms 0)

-- The approvers are a coalition `c` without its member `x`.
abbrev pub without : Text → List Text → Text → Bool
without x c y = any (text_eq y) c && not (text_eq y x)

is_pushed_passes :
    (ms : List WeightedMember) (t mask : ℕ)
    → is_pushed ms t mask ≡ true
    → minimal_from mask (weight_of ms mask) t ms 0 ≡ true
unfolding is_pushed
is_pushed_passes ms t mask h = ground arith

-- Owners have distinct ids. Then each listed coalition, with any one of its members taken out,
-- fails to reach the threshold.
pub minimal_winning_coalitions-minimal :
    (ms : List WeightedMember) (t : ℕ) {cs : List (List Text)} (c : List Text) (x : Text)
    → Distinct (ids ms)
    → minimal_winning_coalitions ms t ≡ some cs
    → In c cs
    → In x c
    → is_winning ms t (without x c) ≡ false
unfolding minimal_winning_coalitions is_winning
minimal_winning_coalitions-minimal ms t {cs} c x distinct e i j =
    lt→leb-false _ _ (ground (arith, drop_one))
  where
    listed : cs ≡ map (chosen ms) (listed_masks ms t)
    listed = ground arith

    mask : (a : ℕ) × In a (listed_masks ms t) × (c ≡ chosen ms a)
    mask = map-In (chosen ms) c _ (rw listed at i)

    pushed : is_pushed ms t mask.0 ≡ true
    pushed = collect-In ms t _ 1 mask.0 (sort_masks-In _ _ _ mask.1)

    member : (y : Text) → without x c y ≡ true → In y (chosen ms mask.0)
    member y h =
        let r = any→In (text_eq y) c (and_true _ _ h).0 in
        rw (← mask.2) (rw (text_eq→eq y r.0 r.2) r.1)

    drop_one :
        (w : ℕ) × (weight_of ms mask.0 - w < t)
        × (winning_sum ms (without x c) 0 + w ≤ weight_of ms mask.0)
    drop_one =
        loses_one (without x c) ms mask.0 (weight_of ms mask.0) t x
          (Within-chosen (without x c) ms mask.0 distinct (λ y _ h. member y h))
          (is_pushed_passes ms t mask.0 pushed) (ground (arith, text_eq_self x)) (rw (← mask.2) j)

-- Coalitions hold members only.
pub coalition-In-ids :
    (ms : List WeightedMember) (t : ℕ) (cs : List (List Text)) (c : List Text) (x : Text)
    → minimal_winning_coalitions ms t ≡ some cs
    → In c cs
    → In x c
    → In x (ids ms)
unfolding minimal_winning_coalitions
coalition-In-ids ms t cs c x e i j = chosen-In-ids ms mask.0 x (rw mask.2 at j)
  where
    listed : cs ≡ map (chosen ms) (listed_masks ms t)
    listed = ground arith

    mask : (a : ℕ) × In a (listed_masks ms t) × (c ≡ chosen ms a)
    mask = map-In (chosen ms) c _ (rw listed at i)
