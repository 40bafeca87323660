-- ===== src/Treasury/Approvers.antt =====
-- Both compilers replace owner ids by addresses. With one address to an owner, the owners that
-- approve and the addresses that approve are the same.
use bufi.Base.{
  ℕ, ◌+◌, ◌≡◌, refl, inl, inr, Bool, true, false, ◌&&◌, ◌||◌, Option, none, some, List, [], ◌∷◌,
  arith, In, Bool-cases, if◌then◌else◌,
}
use bufi.Base.Texts.{Text, text_eq, text_eq→eq, text_eq_self}
use bufi.Treasury.Coalitions.{WeightedMember, winning_sum}
use bufi.Treasury.Spec.{whole, TreasuryOwner}

-- An owner list where a list of members is expected.
unfoldable pub members : List TreasuryOwner → List WeightedMember
members [] = []
members (o ∷ os) = record { id = o.id; weight = whole o.weight } ∷ members os

-- The same members under other names.
unfoldable pub renamed : (TreasuryOwner → Text) → List TreasuryOwner → List WeightedMember
renamed f [] = []
renamed f (o ∷ os) = record { id = f o; weight = whole o.weight } ∷ renamed f os

abbrev is_some_text : Option Text → Text → Bool
is_some_text none a = false
is_some_text (some b) a = text_eq b a

some_text : (o : Option Text) (a : Text) → is_some_text o a ≡ true → o ≡ some a
some_text none a h = absurd (ground arith)
some_text (some b) a h = ground (arith, text_eq→eq b a)

module _ (address : TreasuryOwner → Option Text) where
  abbrev pub HasAddress : Text → List TreasuryOwner → Type 0
  HasAddress a os = (o : TreasuryOwner) × In o os × (address o ≡ some a)

  -- No address stands at two owners.
  abbrev pub DistinctAddresses : List TreasuryOwner → Type 0
  DistinctAddresses [] = Unit
  DistinctAddresses (o ∷ os) =
      ((a : Text) → address o ≡ some a → HasAddress a os → ⊥) × DistinctAddresses os

  -- An approving owner has the address.
  pub approves : List TreasuryOwner → (Text → Bool) → Text → Bool
  approves [] has a = false
  approves (o ∷ os) has a = has o.id && is_some_text (address o) a || approves os has a

  approves-HasAddress :
      (os : List TreasuryOwner) (has : Text → Bool) (a : Text)
      → approves os has a ≡ true
      → HasAddress a os
  unfolding approves
  approves-HasAddress [] has a h = absurd (ground arith)
  approves-HasAddress (o ∷ os) has a h =
      elim (Bool-cases (has o.id && is_some_text (address o) a)) [
        | inl e ↦ (o, inl refl, some_text (address o) a (ground arith))
        | inr e ↦ let r = approves-HasAddress os has a (ground arith) in (r.0, inr r.1, r.2)
      ]

  -- Where no two owners share an address, an owner's address approves exactly when its id does.
  pub approves_owner :
      (os : List TreasuryOwner) (has : Text → Bool) (o : TreasuryOwner) (a : Text)
      → DistinctAddresses os
      → In o os
      → address o ≡ some a
      → approves os has a ≡ has o.id
  unfolding approves
  approves_owner [] has o a d i e = elim i [ ]
  approves_owner (p ∷ os) has o a d (inl s) e =
      let e' : address p ≡ some a = rw (← s) e in
      rw (e', s) (ground (arith, text_eq_self a, rest e'))
    where
      rest : address p ≡ some a → approves os has a ≡ false
      rest e' = elim (Bool-cases (approves os has a)) [
        | inl h ↦ absurd (d.0 a e' (approves-HasAddress os has a h))
        | inr h ↦ h
      ]
  approves_owner (p ∷ os) has o a d (inr i) e =
      ground (arith, other, approves_owner os has o a d.1 i e)
    where
      other : is_some_text (address p) a ≡ false
      other = elim (Bool-cases (is_some_text (address p) a)) [
        | inl h ↦ absurd (d.0 a (some_text (address p) a h) (o, i, e))
        | inr h ↦ h
      ]

-- Renaming the members and the approvers alike keeps the weight.
pub winning_sum-renamed :
    (f : TreasuryOwner → Text) (os : List TreasuryOwner) (q has : Text → Bool) (sum : ℕ)
    → ((o : TreasuryOwner) → In o os → q (f o) ≡ has o.id)
    → winning_sum (renamed f os) q sum ≡ winning_sum (members os) has sum
unfolding winning_sum renamed members
winning_sum-renamed f [] q has sum agree = refl
winning_sum-renamed f (o ∷ os) q has sum agree =
    rw (agree o (inl refl), winning_sum)
      (winning_sum-renamed f os q has (if has o.id then sum + whole o.weight else sum)
        (λ p i. agree p (inr i)))
