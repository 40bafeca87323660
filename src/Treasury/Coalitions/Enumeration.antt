-- ===== src/Treasury/Coalitions/Enumeration.antt =====
-- What the enumeration loop and the sort list.
use bufi.Base.{
  ℕ, zero, suc, ◌+◌, ◌≤◌, ◌<◌, ◌≡◌, inl, inr, true, List, [], ◌∷◌, arith, In, Bool-cases,
}
use native.Mathlib.Decide.{dec_lt}
use bufi.Treasury.Coalitions.{
  WeightedMember, weight_of, is_pushed, collect, insert_mask, sort_masks,
}

pub In-collect :
    (ms : List WeightedMember) (threshold rounds start mask : ℕ)
    → start ≤ mask
    → mask < start + rounds
    → is_pushed ms threshold mask ≡ true
    → In mask (collect ms threshold rounds start)
unfolding collect
In-collect ms t zero start mask lo hi p = absurd (omega arith)
In-collect ms t (suc rounds) start mask lo hi p = elim (dec_lt start mask) [
  | yes later ↦ elim (Bool-cases (is_pushed ms t start)) [
    | inl e ↦ rw e (inr (In-collect ms t rounds (start + 1) mask (omega arith) (omega arith) p))
    | inr e ↦ rw e (In-collect ms t rounds (start + 1) mask (omega arith) (omega arith) p)
  ]
  | no now ↦
      let same : mask ≡ start = omega arith in
      let pushed : is_pushed ms t start ≡ true = rw (← same) p in rw pushed (inl same)
]

pub collect-In :
    (ms : List WeightedMember) (threshold rounds start mask : ℕ)
    → In mask (collect ms threshold rounds start)
    → is_pushed ms threshold mask ≡ true
unfolding collect
collect-In ms t zero start mask i = elim i [ ]
collect-In ms t (suc rounds) start mask i = ground (arith, collect-In ms t rounds (start + 1) mask)

insert_mask-In : (n a b : ℕ) (bs : List ℕ) → In a (insert_mask n b bs) → In a (b ∷ bs)
unfolding insert_mask
insert_mask-In n a b [] i = i
insert_mask-In n a b (c ∷ cs) i = ground (arith, insert_mask-In n a b cs)

In-insert_mask : (n a b : ℕ) (bs : List ℕ) → In a (b ∷ bs) → In a (insert_mask n b bs)
unfolding insert_mask
In-insert_mask n a b [] i = i
In-insert_mask n a b (c ∷ cs) i = ground (arith, In-insert_mask n a b cs)

-- Sorting neither loses nor invents a mask.
pub sort_masks-In : (n a : ℕ) (bs : List ℕ) → In a (sort_masks n bs) → In a bs
unfolding sort_masks
sort_masks-In n a [] i = i
sort_masks-In n a (b ∷ bs) i =
    ground (arith, insert_mask-In n a b (sort_masks n bs), sort_masks-In n a bs)

pub In-sort_masks : (n a : ℕ) (bs : List ℕ) → In a bs → In a (sort_masks n bs)
unfolding sort_masks
In-sort_masks n a [] i = i
In-sort_masks n a (b ∷ bs) i =
    ground (arith, In-insert_mask n a b (sort_masks n bs), In-sort_masks n a bs)

pub is_pushed_wins :
    (ms : List WeightedMember) (t mask : ℕ) → is_pushed ms t mask ≡ true → t ≤ weight_of ms mask
unfolding is_pushed
is_pushed_wins ms t mask h = ground arith

pub collect_bounds :
    (ms : List WeightedMember) (threshold rounds start mask : ℕ)
    → In mask (collect ms threshold rounds start)
    → (start ≤ mask) × (mask < start + rounds)
unfolding collect
collect_bounds ms t zero start mask i = elim i [ ]
collect_bounds ms t (suc rounds) start mask i =
    ground (arith, collect_bounds ms t rounds (start + 1) mask)
