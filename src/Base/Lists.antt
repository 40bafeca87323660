-- ===== src/Base/Lists.antt =====
-- Lists measured by native numbers, with Boolean quantifiers and the laws that join these to
-- membership.
use Prim.Native.Nat.{ℕ, suc, ◌+◌}
use mathlib.Core.Path.{◌≡◌, refl}
use mathlib.Core.Logic.{◌⊎◌, inl, inr}
use mathlib.Core.Bool.{Bool, true, false, ◌&&◌, ◌||◌}
use mathlib.Core.List.{List, [], ◌∷◌, ◌++◌, map}
use native.Mathlib.Omega.{arith}
use bufi.Base.Tests.{and_true, true_and, or_true}

module _ {ℓ} {A : Type ℓ} where
  abbrev pub length : List A → ℕ
  length [] = 0
  length (x ∷ xs) = suc (length xs)

  abbrev pub any : (A → Bool) → List A → Bool
  any p [] = false
  any p (x ∷ xs) = p x || any p xs

  abbrev pub all : (A → Bool) → List A → Bool
  all p [] = true
  all p (x ∷ xs) = p x && all p xs

  -- `Array.prototype.filter`
  abbrev pub keep : (A → Bool) → List A → List A
  keep p [] = []
  keep p (x ∷ xs) = let rest = keep p xs in elim (p x) [ true ↦ x ∷ rest | false ↦ rest ]

  abbrev pub All {κ} : (A → Type κ) → List A → Type κ
  All P [] = Unit
  All P (x ∷ xs) = P x × All P xs

-- Membership as a sum that is matched.
abbrev pub In : {A : Type 0} → A → List A → Type 0
In a [] = ⊥
In a (x ∷ xs) = (a ≡ x) ⊎ In a xs

module _ {A : Type 0} where
  pub In→any : (p : A → Bool) (a : A) (xs : List A) → In a xs → p a ≡ true → any p xs ≡ true
  In→any p a [] i h = elim i [ ]
  In→any p a (x ∷ xs) (inl e) h = ground arith
  In→any p a (x ∷ xs) (inr i) h = ground (arith, In→any p a xs i h)

  pub any→In : (p : A → Bool) (xs : List A) → any p xs ≡ true → (a : A) × In a xs × (p a ≡ true)
  any→In p [] h = absurd (ground arith)
  any→In p (x ∷ xs) h = elim (or_true (p x) (any p xs) h) [
    | inl e ↦ (x, inl refl, e)
    | inr e ↦ let r = any→In p xs e in (r.0, inr r.1, r.2)
  ]

  pub all-In : (p : A → Bool) (a : A) (xs : List A) → all p xs ≡ true → In a xs → p a ≡ true
  all-In p a [] h i = elim i [ ]
  all-In p a (x ∷ xs) h (inl e) = ground arith
  all-In p a (x ∷ xs) h (inr i) = all-In p a xs (and_true (p x) (all p xs) h).1 i

  pub In-all : (p : A → Bool) (xs : List A) → ((a : A) → In a xs → p a ≡ true) → all p xs ≡ true
  In-all p [] f = refl
  In-all p (x ∷ xs) f =
      true_and (p x) (all p xs) (f x (inl refl)) (In-all p xs (λ a i. f a (inr i)))

  pub In-keep : (p : A → Bool) (a : A) (xs : List A) → In a xs → p a ≡ true → In a (keep p xs)
  In-keep p a [] i h = elim i [ ]
  In-keep p a (x ∷ xs) (inl e) h = ground arith
  In-keep p a (x ∷ xs) (inr i) h = ground (arith, In-keep p a xs i h)

  pub keep-In : (p : A → Bool) (a : A) (xs : List A) → In a (keep p xs) → In a xs × (p a ≡ true)
  keep-In p a [] i = elim i [ ]
  keep-In p a (x ∷ xs) i = ground (arith, keep-In p a xs)

module _ {A B : Type 0} where
  pub In-map : (f : A → B) (a : A) (xs : List A) → In a xs → In (f a) (map f xs)
  In-map f a [] i = elim i [ ]
  In-map f a (x ∷ xs) (inl e) = inl (ground arith)
  In-map f a (x ∷ xs) (inr i) = inr (In-map f a xs i)

  pub map-In : (f : A → B) (b : B) (xs : List A) → In b (map f xs) → (a : A) × In a xs × (b ≡ f a)
  map-In f b [] i = elim i [ ]
  map-In f b (x ∷ xs) (inl e) = (x, inl refl, e)
  map-In f b (x ∷ xs) (inr i) = let r = map-In f b xs i in (r.0, inr r.1, r.2)

module _ {ℓ} {A : Type ℓ} where
  pub length-append : (xs ys : List A) → length (xs ++ ys) ≡ length xs + length ys
  length-append [] ys = omega arith
  length-append (x ∷ xs) ys = omega (arith, length-append xs ys)

  pub length-map {κ} : {B : Type κ} (f : A → B) (xs : List A) → length (map f xs) ≡ length xs
  length-map f [] = refl
  length-map f (x ∷ xs) = omega (arith, length-map f xs)
