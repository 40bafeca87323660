-- ===== src/Treasury/Coalitions/Order.antt =====
-- The coalitions come in order of size.
use bufi.Base.{
  ℕ, ◌≤◌, ◌<◌, ◌^◌, ◌≡◌, refl, inl, inr, true, false, List, [], ◌∷◌, map, arith, some, length, In,
}
use bufi.Base.Texts.{Text}
use bufi.Treasury.Coalitions.{
  WeightedMember, popcount, sorts_before, insert_mask, sort_masks, chosen,
  minimal_winning_coalitions,
}
use bufi.Treasury.Coalitions.Bits.{popcount-chosen}
use bufi.Treasury.Coalitions.Enumeration.{sort_masks-In, collect_bounds}
use bufi.Treasury.Coalitions.Cover.{listed_masks}

-- Each number is at most the next.
abbrev pub Ascending : List ℕ → Type 0
Ascending [] = Unit
Ascending (a ∷ []) = Unit
Ascending (a ∷ b ∷ bs) = (a ≤ b) × Ascending (b ∷ bs)

Ascending-tail : (a : ℕ) (bs : List ℕ) → Ascending (a ∷ bs) → Ascending bs
Ascending-tail a [] h = tt
Ascending-tail a (b ∷ bs) h = h.1

before_le : (n a b : ℕ) → sorts_before n a b ≡ true → popcount a ≤ popcount b
unfolding sorts_before
before_le n a b h = ground arith

after_le : (n a b : ℕ) → sorts_before n a b ≡ false → popcount b ≤ popcount a
unfolding sorts_before
after_le n a b h = ground arith

insert_mask-Ascending :
    (n a : ℕ) (bs : List ℕ)
    → Ascending (map popcount bs)
    → Ascending (map popcount (insert_mask n a bs))
unfolding insert_mask
insert_mask-Ascending n a [] h = tt
insert_mask-Ascending n a (b ∷ []) h = ground (arith, before_le n a b, after_le n a b)
insert_mask-Ascending n a (b ∷ c ∷ bs) h =
    ground (arith, before_le n a b, after_le n a b, insert_mask-Ascending n a (c ∷ bs) h.1)

sort_masks-Ascending : (n : ℕ) (as' : List ℕ) → Ascending (map popcount (sort_masks n as'))
unfolding sort_masks
sort_masks-Ascending n [] = tt
sort_masks-Ascending n (a ∷ as') =
    insert_mask-Ascending n a (sort_masks n as') (sort_masks-Ascending n as')

sizes-chosen :
    (ms : List WeightedMember) (as' : List ℕ)
    → ((a : ℕ) → In a as' → a < 2 ^ length ms)
    → map popcount as' ≡ map length (map (chosen ms) as')
sizes-chosen ms [] f = refl
sizes-chosen ms (a ∷ as') f =
    ground (arith, popcount-chosen ms a (f a (inl refl)), sizes-chosen ms as' (λ b i. f b (inr i)))

-- Smaller coalitions stand first.
pub minimal_winning_coalitions-Ascending :
    (ms : List WeightedMember) (t : ℕ) {cs : List (List Text)}
    → minimal_winning_coalitions ms t ≡ some cs
    → Ascending (map length cs)
unfolding minimal_winning_coalitions
minimal_winning_coalitions-Ascending ms t {cs} e =
    rw listed (rw (← sizes) (sort_masks-Ascending _ _))
  where
    listed : cs ≡ map (chosen ms) (listed_masks ms t)
    listed = ground arith

    sizes : map popcount (listed_masks ms t) ≡ map length (map (chosen ms) (listed_masks ms t))
    sizes =
        sizes-chosen ms (listed_masks ms t)
          (λ a i. let r = collect_bounds ms t _ 1 a (sort_masks-In _ _ _ i) in omega (arith, r))
