-- ===== src/Treasury/Squads/Keys.antt =====
-- The map from owner ids to Solana keys that `compileSquads` builds.
use bufi.Base.{
  ◌≡◌, refl, sym, inl, inr, true, false, Option, none, some, List, [], ◌∷◌, arith, In, Bool-cases,
  Option-cases, if◌then◌else◌,
}
use bufi.Base.Texts.{Text, text_eq, text_eq→eq, text_eq_self, text_eq_iff}
use bufi.Base.TextSets.{Distinct}
use bufi.Treasury.Spec.{TreasuryOwner, ok, >>-eq-ok, fail_if-eq-ok}
use bufi.Treasury.Validate.Valid.{owner_ids}
use bufi.Treasury.Approvers.{HasAddress, DistinctAddresses}
use bufi.Treasury.Evm.{truthy}
use bufi.Treasury.Squads.{KeyMap, map_set, map_get, has_value, key_of_owners}

abbrev pub solana_key : TreasuryOwner → Option Text
solana_key o = o.solana

map_get-map_set :
    (i j k : Text) (m : KeyMap)
    → map_get j (map_set i k m) ≡ (if text_eq i j then some k else map_get j m)
unfolding map_get map_set
map_get-map_set i j k [] = refl
map_get-map_set i j k ((a, b) ∷ m) =
    ground (arith, map_get-map_set i j k m, text_eq_iff a i, text_eq_iff a j, text_eq_iff i j)

has_value-map_set :
    (i k v : Text) (m : KeyMap)
    → map_get i m ≡ none
    → has_value (map_set i k m) v ≡ (if text_eq v k then true else has_value m v)
unfolding map_get map_set has_value
has_value-map_set i k v [] h = refl
has_value-map_set i k v ((a, b) ∷ m) h = ground (arith, has_value-map_set i k v m)

abbrev pub IsNew : KeyMap → List Text → Type 0
IsNew m ids = (id : Text) → In id ids → map_get id m ≡ none

pub IsNew-nil : (ids : List Text) → IsNew [] ids
unfolding map_get
IsNew-nil ids id i = refl

-- What the loop has established when it ends without a refusal.
pub record Keyed (os : List TreasuryOwner) (m keys : KeyMap) : Type 0 where
  pub found :
      (o : TreasuryOwner)
      → In o os
      → (k : Text) × (o.solana ≡ some k) × (map_get o.id keys ≡ some k)
  pub kept : (id : Text) → (In id (owner_ids os) → ⊥) → map_get id keys ≡ map_get id m
  pub unused : (o : TreasuryOwner) (k : Text) → In o os → o.solana ≡ some k → has_value m k ≡ false
  pub distinct : DistinctAddresses solana_key os

truthy-some : (o : Option Text) (k : Text) → truthy o ≡ some k → o ≡ some k
truthy-some o k h = ground arith

-- One more owner in front, with a key that the map does not hold yet.
module _ (o : TreasuryOwner) (os : List TreasuryOwner) (m keys : KeyMap) (key : Text)
    (has_key : o.solana ≡ some key) (fresh : has_value m key ≡ false) (new : map_get o.id m ≡ none)
    (first : In o.id (owner_ids os) → ⊥) (r : Keyed os (map_set o.id key m) keys) where
  kept_apart : (id : Text) → (id ≡ o.id → ⊥) → text_eq o.id id ≡ false
  kept_apart id a = elim (Bool-cases (text_eq o.id id)) [
    | inl q ↦ absurd (a (sym (text_eq→eq o.id id q)))
    | inr q ↦ q
  ]

  cons_found :
      (p : TreasuryOwner)
      → In p (o ∷ os)
      → (k : Text) × (p.solana ≡ some k) × (map_get p.id keys ≡ some k)
  cons_found p (inl s) = rw s (
    key,
    has_key,
    ground (arith, r.kept o.id first, map_get-map_set o.id o.id key m, text_eq_self o.id),
  )
  cons_found p (inr i) = r.found p i

  cons_unused :
      (p : TreasuryOwner) (k : Text) → In p (o ∷ os) → p.solana ≡ some k → has_value m k ≡ false
  cons_unused p k (inl s) q =
      let q' : o.solana ≡ some k = rw (← s) q in let same : k ≡ key = ground arith in rw same fresh
  cons_unused p k (inr i) q = ground (arith, r.unused p k i q, has_value-map_set o.id key k m new)

  clash : (a : Text) → o.solana ≡ some a → HasAddress solana_key a os → ⊥
  clash a p (x, i, q) =
      ground (arith, r.unused x a i q, has_value-map_set o.id key a m new, text_eq_iff a key)

  Keyed-cons : Keyed (o ∷ os) m keys
  Keyed-cons = record {
    found = cons_found;
    kept = λ id a. ground (
      arith,
      r.kept id (λ i. a (inr i)),
      map_get-map_set o.id id key m,
      kept_apart id (λ s. a (inl s)),
    );
    unused = cons_unused;
    distinct = (clash, r.distinct);
  }

IsNew-map_set :
    (m : KeyMap) (i key : Text) (ids : List Text)
    → IsNew m (i ∷ ids)
    → (In i ids → ⊥)
    → IsNew (map_set i key m) ids
IsNew-map_set m i key ids n d id j = ground (arith, map_get-map_set i id key m, other, n id (inr j))
  where
    other : text_eq i id ≡ false
    other = elim (Bool-cases (text_eq i id)) [
      | inl e ↦ absurd (d (rw (← text_eq→eq i id e) at j))
      | inr e ↦ e
    ]

pub key_of_owners-Keyed :
    (os : List TreasuryOwner) (m keys : KeyMap)
    → key_of_owners os m ≡ ok keys
    → Distinct (owner_ids os)
    → IsNew m (owner_ids os)
    → Keyed os m keys
unfolding key_of_owners
key_of_owners-Keyed [] m keys h d n = record {
  found = λ o i. elim i [ ];
  kept = λ id a. ground arith;
  unused = λ o k i e. elim i [ ];
  distinct = tt;
}
key_of_owners-Keyed (o ∷ os) m keys h d n = elim (Option-cases (truthy o.solana)) [
  | inl e ↦ absurd (ground arith)
  | inr (key, e) ↦
      let step = >>-eq-ok _ _ (rw (e, key_of_owners) at h) in
      Keyed-cons o os m keys key (truthy-some o.solana key e) (fail_if-eq-ok _ _ _ step.0)
        (n o.id (inl refl)) d.0
        (key_of_owners-Keyed os (map_set o.id key m) keys step.1 d.1
          (IsNew-map_set m o.id key (owner_ids os) n d.0))
]
