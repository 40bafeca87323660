-- ===== src/Subgraph/Table.antt =====
-- The entity store under one entity type: the `load`, `save` and `remove` of the generated schema
-- classes, and sums over the entities kept.
use bufi.Base.{
  ℕ, ◌+◌, ◌≤◌, ◌≡◌, sym, ap, ◌∙◌, refl, false, Option, none, some, List, [], ◌∷◌, arith,
  if◌then◌else◌, Bool-cases, inl, inr, ◌⊎◌,
}
use bufi.Base.Texts.{text_eq, text_eq_self, text_eq→eq}

-- `Bytes` and `Address`; the bytes of an ASCII text are its code units.
abbrev pub Bytes : Type 0
Bytes = List ℕ

-- `Address.zero()`
abbrev pub zero_address : Bytes
zero_address = 0 ∷ 0 ∷ 0 ∷ 0 ∷ 0 ∷ 0 ∷ 0 ∷ 0 ∷ 0 ∷ 0 ∷ 0 ∷ 0 ∷ 0 ∷ 0 ∷ 0 ∷ 0 ∷ 0 ∷ 0 ∷ 0 ∷ 0 ∷ []

-- An entity is kept under its own id, which `key` reads.
module _ {V : Type 0} (key : V → Bytes) where
  unfoldable pub load : Bytes → List V → Option V
  load id [] = none
  load id (v ∷ table) = if text_eq (key v) id then some v else load id table

  unfoldable pub save : V → List V → List V
  save v [] = v ∷ []
  save v (w ∷ table) =
      let rest = save v table in if text_eq (key w) (key v) then v ∷ table else w ∷ rest

  -- `store.remove`
  unfoldable pub remove : Bytes → List V → List V
  remove id [] = []
  remove id (v ∷ table) =
      let rest = remove id table in if text_eq (key v) id then rest else v ∷ rest

  pub load-key : (id : Bytes) (v : V) (t : List V) → load id t ≡ some v → key v ≡ id
  unfolding load
  load-key id v [] h = cc
  load-key id v (w ∷ t) h = elim (Bool-cases (text_eq (key w) id)) [
    | inl same ↦ grind (arith, text_eq→eq (key w) id)
    | inr other ↦ ground (arith, load-key id v t)
  ]

  -- A loaded entity is also kept under the id that it has.
  pub load-own : (id : Bytes) (v : V) (t : List V) → load id t ≡ some v → load (key v) t ≡ some v
  load-own id v t h = ap (λ i. load i t) (load-key id v t h) ∙ h

  pub load-save : (v : V) (t : List V) → load (key v) (save v t) ≡ some v
  unfolding load save
  load-save v [] = rw (text_eq_self (key v)) refl
  load-save v (w ∷ t) = ground (arith, load-save v t, text_eq_self (key v))

  pub load-save_other :
      (id : Bytes) (v : V) (t : List V)
      → text_eq (key v) id ≡ false
      → load id (save v t) ≡ load id t
  unfolding load save
  load-save_other id v [] h = ground arith
  load-save_other id v (w ∷ t) h = elim (Bool-cases (text_eq (key w) (key v))) [
    | inl same ↦ rw (same, h, text_eq→eq (key w) (key v) same, h) refl
    | inr other ↦ ground (arith, load-save_other id v t h)
  ]

  pub load-save_cases :
      (id : Bytes) (v w : V) (t : List V)
      → load id (save v t) ≡ some w
      → (w ≡ v) ⊎ (load id t ≡ some w)
  load-save_cases id v w t h = elim (Bool-cases (text_eq (key v) id)) [
    | inl same ↦
        let this : key v ≡ id = text_eq→eq (key v) id same in
        let saved : load id (save v t) ≡ some v = rw (← this) (load-save v t) in inl (cc (h, saved))
    | inr other ↦ inr (sym (load-save_other id v t other) ∙ h)
  ]

  pub load-remove :
      (id j : Bytes) (t : List V) → load j (remove id t) ≡ (if text_eq id j then none else load j t)
  unfolding load remove
  load-remove id j [] = ground arith
  load-remove id j (v ∷ t) = elim (Bool-cases (text_eq (key v) id)) [
    | inl same ↦ rw (same, text_eq→eq (key v) id same) (ground (arith, load-remove id j t))
    | inr other ↦ elim (Bool-cases (text_eq id j)) [
      | inl found ↦
          ground
            (arith, load-remove id j t, ap (text_eq (key v)) (sym (text_eq→eq id j found)) ∙ other)
      | inr apart ↦ ground (arith, load-remove id j t)
    ]
  ]

-- The sum of a measure over the entities kept.
unfoldable pub total : {V : Type 0} → (V → ℕ) → List V → ℕ
total size [] = 0
total size (v ∷ table) = size v + total size table

module _ {V : Type 0} (key : V → Bytes) (size : V → ℕ) where
  -- A save trades the measure of the entity it replaces for that of the new one.
  pub total-save :
      (v w : V) (t : List V)
      → load key (key v) t ≡ some w
      → total size (save key v t) + size w ≡ total size t + size v
  unfolding load save total
  total-save v w [] h = cc
  total-save v w (u ∷ t) h = elim (Bool-cases (text_eq (key u) (key v))) [
    | inl same ↦ grind arith
    | inr other ↦ ground (arith, total-save v w t)
  ]

  pub total-save_fresh :
      (v : V) (t : List V)
      → load key (key v) t ≡ none
      → total size (save key v t) ≡ total size t + size v
  unfolding load save total
  total-save_fresh v [] h = omega arith
  total-save_fresh v (u ∷ t) h = ground (arith, total-save_fresh v t)

  pub total-load :
      (id : Bytes) (v : V) (t : List V) → load key id t ≡ some v → size v ≤ total size t
  unfolding load total
  total-load id v [] h = cc
  total-load id v (u ∷ t) h = elim (Bool-cases (text_eq (key u) id)) [
    | inl same ↦ grind arith
    | inr other ↦ ground (arith, total-load id v t)
  ]
