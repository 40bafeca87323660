-- ===== src/Treasury/Evm/Listed.antt =====
-- What the loops of `compileEvm` establish.
use bufi.Base.{
  ℕ, suc, ◌≡◌, refl, inl, inr, Option, none, some, List, [], ◌∷◌, map, arith, All, In, Option-cases,
}
use bufi.Base.Texts.{Text}
use bufi.Base.TextSets.{includes, Distinct, Fresh}
use bufi.Treasury.Coalitions.{WeightedMember}
use bufi.Treasury.Spec.{
  whole, TreasuryOwner, AllowedRecipient, TreasuryAsset, ok, fail_if, >>=-eq-ok, >>-eq-ok,
  ok-injective, fail_if-eq-ok,
}
use bufi.Treasury.Approvers.{renamed, HasAddress, DistinctAddresses}
use bufi.Treasury.Evm.{
  EvmOwner, truthy, evm_owner, evm_owners, check_addresses, evm_recipients, check_budgets,
}

abbrev pub or_empty : Option Text → Text
or_empty none = []
or_empty (some a) = a

abbrev pub as_member : List EvmOwner → List WeightedMember
as_member [] = []
as_member (o ∷ os) = record { id = o.address; weight = o.weight } ∷ as_member os

abbrev pub addresses : List EvmOwner → List Text
addresses [] = []
addresses (o ∷ os) = o.address ∷ addresses os

pub check_addresses-Fresh :
    (es : List EvmOwner) (seen : List Text)
    → check_addresses es seen ≡ ok tt
    → Fresh (addresses es) seen
unfolding check_addresses
check_addresses-Fresh [] seen h = tt
check_addresses-Fresh (e ∷ es) seen h =
    let first = >>-eq-ok (fail_if (includes seen e.address) _ _) _ h in
    (fail_if-eq-ok _ _ _ first.0, check_addresses-Fresh es (e.address ∷ seen) first.1)

pub check_budgets-none :
    (as' : List TreasuryAsset)
    → check_budgets as' ≡ ok tt
    → All (λ (a : TreasuryAsset). a.budget ≡ none) as'
unfolding check_budgets
check_budgets-none [] h = tt
check_budgets-none (a ∷ as') h = ground (arith, check_budgets-none as')

module _ (to_lower_case : Text → Text) where
  -- An owner's address as the compiler writes it.
  abbrev pub lowered : Option Text → Option Text
  lowered none = none
  lowered (some a) = some (to_lower_case a)

  abbrev pub evm_address : TreasuryOwner → Option Text
  evm_address o = lowered o.evm

  -- The configuration lists every owner once, under its address.
  abbrev pub Listed : List TreasuryOwner → List EvmOwner → Type 0
  Listed [] [] = Unit
  Listed [] (e ∷ es) = ⊥
  Listed (o ∷ os) [] = ⊥
  Listed (o ∷ os) (e ∷ es) =
      (evm_address o ≡ some e.address) × (e.weight ≡ whole o.weight) × Listed os es

  evm_owner_lem :
      (o : TreasuryOwner) {e : EvmOwner}
      → evm_owner to_lower_case o ≡ ok e
      → (evm_address o ≡ some e.address) × (e.weight ≡ whole o.weight)
  unfolding evm_owner
  evm_owner_lem o h = ground arith

  pub evm_owners-Listed :
      (os : List TreasuryOwner) (es : List EvmOwner)
      → evm_owners to_lower_case os ≡ ok es
      → Listed os es
  unfolding evm_owners
  evm_owners-Listed [] es h = rw (ok-injective [] es h) tt
  evm_owners-Listed (o ∷ os) es h =
      let one = >>=-eq-ok (evm_owner to_lower_case o) _ h in
      let rest = >>=-eq-ok (evm_owners to_lower_case os) _ one.2 in
      let whole_list : es ≡ one.0 ∷ rest.0 = ok-injective _ _ rest.2 in
      let head = evm_owner_lem o one.1 in
      rw whole_list (head.0, head.1, evm_owners-Listed os rest.0 rest.1)

  Listed-address :
      (os : List TreasuryOwner) (es : List EvmOwner) (a : Text)
      → Listed os es
      → HasAddress evm_address a os
      → In a (addresses es)
  Listed-address [] [] a l h = h.1
  Listed-address [] (e ∷ es) a l h = absurd l
  Listed-address (o ∷ os) [] a l h = absurd l
  Listed-address (o ∷ os) (e ∷ es) a l (p, inl s, q) = inl (ground arith)
  Listed-address (o ∷ os) (e ∷ es) a l (p, inr i, q) = inr (Listed-address os es a l.2 (p, i, q))

  pub Listed-DistinctAddresses :
      (os : List TreasuryOwner) (es : List EvmOwner)
      → Listed os es
      → Distinct (addresses es)
      → DistinctAddresses evm_address os
  Listed-DistinctAddresses [] es l d = tt
  Listed-DistinctAddresses (o ∷ os) [] l d = absurd l
  Listed-DistinctAddresses (o ∷ os) (e ∷ es) l d = (
    λ a p h. apart a (same a p) (Listed-address os es a l.2 h),
    Listed-DistinctAddresses os es l.2 d.1,
  )
    where
      same : (a : Text) → evm_address o ≡ some a → a ≡ e.address
      same a p = ground (arith, l.0)

      apart : (a : Text) → a ≡ e.address → In a (addresses es) → ⊥
      apart a p i = d.0 (rw p at i)

  abbrev pub name_of : TreasuryOwner → Text
  name_of o = or_empty (evm_address o)

  pub Listed-renamed :
      (os : List TreasuryOwner) (es : List EvmOwner)
      → Listed os es
      → as_member es ≡ renamed name_of os
  unfolding renamed
  Listed-renamed [] [] l = refl
  Listed-renamed [] (e ∷ es) l = absurd l
  Listed-renamed (o ∷ os) [] l = absurd l
  Listed-renamed (o ∷ os) (e ∷ es) l = ground (arith, Listed-renamed os es l.2)

  pub Listed-name :
      (os : List TreasuryOwner) (es : List EvmOwner) (o : TreasuryOwner)
      → Listed os es
      → In o os
      → evm_address o ≡ some (name_of o)
  Listed-name [] es o l i = elim i [ ]
  Listed-name (p ∷ os) [] o l i = absurd l
  Listed-name (p ∷ os) (e ∷ es) o l (inl s) = ground arith
  Listed-name (p ∷ os) (e ∷ es) o l (inr i) = Listed-name os es o l.2 i

  abbrev pub recipient_address : AllowedRecipient → Option Text
  recipient_address r = lowered r.evm

  pub evm_recipients_lem :
      (rs : List AllowedRecipient) (i : ℕ) (ts : List Text)
      → evm_recipients to_lower_case rs i ≡ ok ts
      → (ts ≡ map (λ r. or_empty (recipient_address r)) rs)
        × All (λ r. recipient_address r ≡ some (or_empty (recipient_address r))) rs
  unfolding evm_recipients
  evm_recipients_lem [] i ts h = (ground arith, tt)
  evm_recipients_lem (r ∷ rs) i ts h = elim (Option-cases (truthy r.evm)) [
    | inl e ↦ absurd (ground arith)
    | inr (t, e) ↦
        let rest =
          >>=-eq-ok (evm_recipients to_lower_case rs (suc i)) _ (rw (e, evm_recipients) at h) in
        let tail = evm_recipients_lem rs (suc i) rest.0 rest.1 in
        let list : ts ≡ to_lower_case t ∷ rest.0 = ok-injective _ _ rest.2 in
        let address : recipient_address r ≡ some (to_lower_case t) = ground arith in
        (ground (arith, tail.0), (ground arith, tail.1))
  ]
