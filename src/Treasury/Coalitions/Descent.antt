-- ===== src/Treasury/Coalitions/Descent.antt =====
-- Every winning mask contains a minimal winning one.
use bufi.Base.{
  ℕ, zero, suc, ◌+◌, ◌-◌, ◌*◌, ◌/◌, ◌%◌, ◌≤◌, ◌<◌, ◌≡◌, inl, inr, Bool, true, false, ◌&&◌, List, [],
  ◌∷◌, arith, leb, ◌==◌, all, Bool-cases,
}
use bufi.Base.Texts.{Text}
use bufi.Treasury.Coalitions.{WeightedMember, weight_of, minimal_from, chosen}
use bufi.Treasury.Coalitions.Masks.{weight_of-cons, minimal_from_shift, chosen-cons}

-- A mask that fails the minimality loop stays winning without one of its members.
record Smaller (ms : List WeightedMember) (threshold sum mask : ℕ) : Type 0 where
  next : ℕ
  below : next < mask
  weight : ℕ
  lighter : weight_of ms next + weight ≡ weight_of ms mask
  wins : threshold ≤ sum - weight
  subset : (has : Text → Bool) → all has (chosen ms mask) ≡ true → all has (chosen ms next) ≡ true

smaller :
    (ms : List WeightedMember) (threshold sum mask : ℕ)
    → minimal_from mask sum threshold ms 0 ≡ false
    → Smaller ms threshold sum mask
unfolding minimal_from
smaller [] threshold sum mask h = absurd (ground arith)
smaller (m ∷ ms) threshold sum mask h =
    elim (Bool-cases ((mask % 2 == 1) && leb threshold (sum - m.weight))) [
      | inl e ↦ record {
        next = mask - 1;
        below = ground arith;
        weight = m.weight;
        lighter =
            ground (arith, weight_of-cons m ms mask, weight_of-cons m ms (mask - 1), half_pred e);
        wins = ground arith;
        subset = λ has a.
            ground (arith, chosen-cons m ms mask, chosen-cons m ms (mask - 1), half_pred e);
      }
      | inr e ↦ extend e (smaller ms threshold sum (mask / 2) (rest e))
    ]
  where
    half_pred :
        ((mask % 2 == 1) && leb threshold (sum - m.weight)) ≡ true → (mask - 1) / 2 ≡ mask / 2
    half_pred e = ground arith

    rest :
        ((mask % 2 == 1) && leb threshold (sum - m.weight)) ≡ false
        → minimal_from (mask / 2) sum threshold ms 0 ≡ false
    rest e = ground (arith, minimal_from_shift mask sum threshold ms 0)

    extend :
        ((mask % 2 == 1) && leb threshold (sum - m.weight)) ≡ false
        → Smaller ms threshold sum (mask / 2)
        → Smaller (m ∷ ms) threshold sum mask
    extend e s =
        let next = mask % 2 + 2 * s.next in
        record {
          next = next;
          below = omega (arith, s.below);
          weight = s.weight;
          lighter =
              ground
                (arith, weight_of-cons m ms mask, weight_of-cons m ms next, s.lighter, half_next s);
          wins = s.wins;
          subset = λ has a.
              ground
                (arith, chosen-cons m ms mask, chosen-cons m ms next, s.subset has, half_next s);
        }
      where
        half_next :
            (s : Smaller ms threshold sum (mask / 2))
            → ((mask % 2 + 2 * s.next) / 2 ≡ s.next) × ((mask % 2 + 2 * s.next) % 2 ≡ mask % 2)
        half_next s = omega arith

-- Taking members out as long as the rest wins ends at a mask that passes the loop.
pub record Minimal (ms : List WeightedMember) (threshold mask : ℕ) : Type 0 where
  pub least : ℕ
  pub below : least ≤ mask
  pub wins : threshold ≤ weight_of ms least
  pub passes : minimal_from least (weight_of ms least) threshold ms 0 ≡ true
  pub subset :
      (has : Text → Bool) → all has (chosen ms mask) ≡ true → all has (chosen ms least) ≡ true

pub minimal :
    (fuel : ℕ) (ms : List WeightedMember) (threshold mask : ℕ)
    → mask < fuel
    → threshold ≤ weight_of ms mask
    → Minimal ms threshold mask
minimal zero ms threshold mask f w = absurd (omega arith)
minimal (suc fuel) ms threshold mask f w =
    elim (Bool-cases (minimal_from mask (weight_of ms mask) threshold ms 0)) [
      | inl e ↦ record {
        least = mask;
        below = omega arith;
        wins = w;
        passes = e;
        subset = λ has a. a;
      }
      | inr e ↦
          let s = smaller ms threshold (weight_of ms mask) mask e in
          shrink s (
            minimal fuel ms threshold s.next (omega (arith, s.below))
              (omega (arith, s.lighter, s.wins)))
    ]
  where
    shrink :
        (s : Smaller ms threshold (weight_of ms mask) mask)
        → Minimal ms threshold s.next
        → Minimal ms threshold mask
    shrink s m = record {
      least = m.least;
      below = omega (arith, s.below, m.below);
      wins = m.wins;
      passes = m.passes;
      subset = λ has a. m.subset has (s.subset has a);
    }
