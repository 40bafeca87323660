-- ===== src/Treasury/Validate/Owners.antt =====
-- The loop of `validateSpec` over the owners.
use bufi.Base.{ℕ, ◌+◌, ◌≡◌, ◌↔◌, refl, Bool, false, Option, none, some, List, [], ◌∷◌, arith, All}
use bufi.Base.Int.{pos, negsuc}
use bufi.Base.Texts.{Text}
use bufi.Base.TextSets.{includes, Fresh}
use bufi.Treasury.Spec.{
  Number, integer, fractional, is_outside, whole, max_weight, TreasuryOwner, Backend, Reason, ok,
  ◌>>◌, fail_if, >>=-eq-ok,
}
use bufi.Treasury.Validate.{
  is_evm_address, is_solana_key, is_present_but_not, validate_owner, validate_owners,
}
use bufi.Treasury.Validate.Valid.{InRange, Present, IsValidOwner, owner_ids, total_weight}

pub outside_InRange :
    (lo hi : ℕ) (n : Number) → is_outside (pos lo) (pos hi) n ≡ false → InRange lo hi n
outside_InRange lo hi (integer (pos w)) h = (w, refl, ground arith, ground arith)
outside_InRange lo hi (integer (negsuc w)) h = absurd (ground arith)
outside_InRange lo hi fractional h = absurd (ground arith)

pub InRange-outside :
    (lo hi : ℕ) (n : Number) → InRange lo hi n → is_outside (pos lo) (pos hi) n ≡ false
InRange-outside lo hi n r = rw (r.1) (ground (arith, r.2, r.3))

Present-iff :
    (test : Text → Bool) (o : Option Text) → (is_present_but_not test o ≡ false) ↔ Present test o
Present-iff test none = (λ h. tt, λ h. refl)
Present-iff test (some a) = (λ h. ground arith, λ h. ground arith)

-- Four guards in a row, all passed.
four_guards {ℓ} :
    {A : Type ℓ} (a b c d : Bool) (bk : Backend) (p q r s : Reason) {v w : A}
    → (fail_if a bk p >> (fail_if b bk q >> (fail_if c bk r >> (fail_if d bk s >> ok v)))) ≡ ok w
    → (a ≡ false) × (b ≡ false) × (c ≡ false) × (d ≡ false) × (w ≡ v)
four_guards a b c d bk p q r s h = ground arith

owner_sound :
    (o : TreasuryOwner) (ids : List Text) (total : ℕ) {r : List Text × ℕ}
    → validate_owner o ids total ≡ ok r
    → (r ≡ (o.id ∷ ids, total + whole o.weight)) × (includes ids o.id ≡ false) × IsValidOwner o
unfolding validate_owner
owner_sound o ids total h =
    let g =
      four_guards (includes ids o.id) (is_outside (pos 1) (pos max_weight) o.weight)
        (is_present_but_not is_evm_address o.evm) (is_present_but_not is_solana_key o.solana)
        Backend.spec _ _ _ _ h in
    (
      g.4,
      g.0,
      (
        outside_InRange 1 max_weight o.weight g.1,
        (Present-iff is_evm_address o.evm).0 g.2,
        (Present-iff is_solana_key o.solana).0 g.3,
      ),
    )

owner_complete :
    (o : TreasuryOwner) (ids : List Text) (total : ℕ)
    → includes ids o.id ≡ false
    → IsValidOwner o
    → validate_owner o ids total ≡ ok (o.id ∷ ids, total + whole o.weight)
unfolding validate_owner
owner_complete o ids total fresh v = rw (
  fresh,
  InRange-outside 1 max_weight o.weight v.0,
  (Present-iff is_evm_address o.evm).1 v.1,
  (Present-iff is_solana_key o.solana).1 v.2,
)

pub owners_sound :
    (os : List TreasuryOwner) (ids : List Text) (total : ℕ) {r : ℕ}
    → validate_owners os ids total ≡ ok r
    → (r ≡ total + total_weight os) × Fresh (owner_ids os) ids × All IsValidOwner os
unfolding validate_owners
owners_sound [] ids total h = (ground arith, tt, tt)
owners_sound (o ∷ os) ids total h =
    let m = >>=-eq-ok (validate_owner o ids total) _ h in
    let one = owner_sound o ids total m.1 in
    let rest = owners_sound os (m.0).0 (m.0).1 m.2 in
    let seen : (m.0).0 ≡ o.id ∷ ids = ground arith in
    (ground arith, (one.1, rw (← seen) rest.1), (one.2, rest.2))

pub owners_complete :
    (os : List TreasuryOwner) (ids : List Text) (total : ℕ)
    → Fresh (owner_ids os) ids
    → All IsValidOwner os
    → validate_owners os ids total ≡ ok (total + total_weight os)
unfolding validate_owners
owners_complete [] ids total f v = ground arith
owners_complete (o ∷ os) ids total f v =
    rw (owner_complete o ids total f.0 v.0)
      (ground (arith, owners_complete os (o.id ∷ ids) (total + whole o.weight) f.1 v.1))
