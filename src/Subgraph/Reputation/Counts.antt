-- ===== src/Subgraph/Reputation/Counts.antt =====
-- A count that a table keeps of the ratings, compared with their sum: what one save of an entity and
-- one of a rating do to both. For packages/subgraph-arc/src/identity/reputation-registry.ts.
use bufi.Base.{
  ℕ, ◌+◌, ◌≡◌, refl, sym, ap, Option, none, some, List, arith, true, false, if◌then◌else◌,
  Bool-cases, Option-cases, inl, inr,
}
use bufi.Base.Int.{ℤ, pos, ◌+ℤ◌, +ℤ_parts, eq_of_parts, pos_part, neg_part}
use bufi.Base.Texts.{text_eq, text_eq→eq, text_eq_self}
use bufi.Subgraph.Table.{
  Bytes, load, save, total, load-save, load-save_other, total-save, total-save_fresh,
}
use bufi.Subgraph.Schema.{Feedback}

abbrev pub save_rating : Feedback → List Feedback → List Feedback
save_rating f fs = save (λ f. f.id) f fs

abbrev pub load_rating : Bytes → List Feedback → Option Feedback
load_rating id fs = load (λ f. f.id) id fs

abbrev pub size_of : (Feedback → ℕ) → Option Feedback → ℕ
size_of size none = 0
size_of size (some f) = size f

abbrev pub read_of : {V : Type 0} → (V → ℤ) → Option V → ℤ
read_of read none = pos 0
read_of read (some v) = read v

abbrev pub HasOwner : (Feedback → Bytes) → Bytes → Option Feedback → Type 0
HasOwner owner id none = Unit
HasOwner owner id (some f) = owner f ≡ id

module _ (owner : Feedback → Bytes) (size : Feedback → ℕ) where
  abbrev weigh : Bytes → Feedback → ℕ
  weigh id f = if text_eq (owner f) id then size f else 0

  -- The sum of a measure over the ratings of one owner.
  unfoldable pub tally : Bytes → List Feedback → ℕ
  tally id fs = total (weigh id) fs

  tally-save :
      (f : Feedback) (fs : List Feedback) (id : Bytes)
      → HasOwner owner (owner f) (load_rating f.id fs)
      → owner f ≡ id
      → tally id (save_rating f fs) + size_of size (load_rating f.id fs) ≡ tally id fs + size f
  unfolding tally
  tally-save f fs id owned this =
      let here : text_eq (owner f) id ≡ true = rw this (text_eq_self id) in
      elim (Option-cases (load_rating f.id fs)) [
        | inl e ↦
            rw e (omega (arith, total-save_fresh (λ f. f.id) (weigh id) f fs e, weigh_here f here))
        | inr e ↦
            let old : owner e.0 ≡ owner f = rw e.1 at owned in
            rw e.1 (
              omega (
                arith,
                total-save (λ f. f.id) (weigh id) f e.0 fs e.1,
                weigh_here f here,
                weigh_here e.0 (rw old here),
              ))
      ]
    where
      weigh_here : (g : Feedback) → text_eq (owner g) id ≡ true → weigh id g ≡ size g
      weigh_here g h = rw h refl

  tally-save_other :
      (f : Feedback) (fs : List Feedback) (id : Bytes)
      → HasOwner owner (owner f) (load_rating f.id fs)
      → text_eq (owner f) id ≡ false
      → tally id (save_rating f fs) ≡ tally id fs
  unfolding tally
  tally-save_other f fs id owned apart = elim (Option-cases (load_rating f.id fs)) [
    | inl e ↦ omega (arith, total-save_fresh (λ f. f.id) (weigh id) f fs e, weigh_elsewhere f apart)
    | inr e ↦
        let old : owner e.0 ≡ owner f = rw e.1 at owned in
        omega (
          arith,
          total-save (λ f. f.id) (weigh id) f e.0 fs e.1,
          weigh_elsewhere f apart,
          weigh_elsewhere e.0 (rw old apart),
        )
  ]
    where
      weigh_elsewhere : (g : Feedback) → text_eq (owner g) id ≡ false → weigh id g ≡ 0
      weigh_elsewhere g h = rw h refl

  module _ {V : Type 0} (key : V → Bytes) (read : V → ℤ) where
    -- The count that is kept under each id is the sum.
    abbrev pub IsCount : List V → List Feedback → Type 0
    IsCount vs fs = (id : Bytes) → read_of read (load key id vs) ≡ pos (tally id fs)

    -- A save of a rating and one of its owner, whose count moves as the measure of the rating.
    pub IsCount-save :
        (v : V) (f : Feedback) (vs : List V) (fs : List Feedback)
        → key v ≡ owner f
        → HasOwner owner (owner f) (load_rating f.id fs)
        → read v +ℤ pos (size_of size (load_rating f.id fs))
          ≡ read_of read (load key (owner f) vs) +ℤ pos (size f)
        → IsCount vs fs
        → IsCount (save key v vs) (save_rating f fs)
    IsCount-save v f vs fs keyed owned moved counted id = elim (Bool-cases (text_eq (key v) id)) [
      | inl e ↦
          let this : key v ≡ id = text_eq→eq (key v) id e in
          let sum = tally-save f fs (key v) owned (sym keyed) in
          let before : read_of read (load key (owner f) vs) ≡ pos (tally (key v) fs) =
            rw keyed (counted (owner f)) in
          rw (← this, load-save key v vs)
            (balanced (read v) (size_of size (load_rating f.id fs)) _ (size f) (tally (key v) fs)
              (tally (key v) (save_rating f fs)) moved before sum)
      | inr e ↦
          rw (load-save_other key id v vs e, tally-save_other f fs id owned (rw (← keyed) e))
            (counted id)
    ]
      where
        balanced :
            (r : ℤ) (g : ℕ) (o : ℤ) (n t u : ℕ)
            → r +ℤ pos g ≡ o +ℤ pos n
            → o ≡ pos t
            → u + g ≡ t + n
            → r ≡ pos u
        balanced r g o n t u moved before sum = eq_of_parts r (pos u) (
            omega (
              arith,
              +ℤ_parts r (pos g),
              +ℤ_parts o (pos n),
              ap pos_part moved,
              ap neg_part moved,
              ap pos_part before,
              ap neg_part before,
              sum,
            ))
