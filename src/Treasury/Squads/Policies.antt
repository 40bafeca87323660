-- ===== src/Treasury/Squads/Policies.antt =====
-- The policies of a plan: one for each asset and each coalition.
use bufi.Base.{
  ℕ, suc, ◌≡◌, ◌⊎◌, refl, inl, inr, Bool, false, ◌&&◌, ◌||◌, none, some, List, [], ◌∷◌, ◌++◌, map,
  arith, In, all, any, leb, length, In-map, map-In, Option-cases,
}
use bufi.Base.Int.{ℤ, pos, leb_ℤ}
use bufi.Base.Texts.{Text, text_eq}
use bufi.Base.TextSets.{includes}
use bufi.Treasury.Spec.{AllowedRecipient, TreasuryAsset, ok, >>=-eq-ok, >>-eq-ok, ok-injective}
use bufi.Treasury.Validate.{is_empty}
use bufi.Treasury.Squads.{
  KeyMap, SquadsSigner, SpendingLimit, SquadsPolicy, SquadsTreasuryPlan, policy_of, mint_of,
  asset_policies, squads_recipients,
}

In-append : {A : Type 0} (a : A) (xs ys : List A) → In a (xs ++ ys) → In a xs ⊎ In a ys
In-append a [] ys i = inr i
In-append a (x ∷ xs) ys (inl e) = inl (inl e)
In-append a (x ∷ xs) ys (inr i) = elim (In-append a xs ys i) [ inl j ↦ inl (inr j) | inr j ↦ inr j ]

append-In_left : {A : Type 0} (a : A) (xs ys : List A) → In a xs → In a (xs ++ ys)
append-In_left a [] ys i = elim i [ ]
append-In_left a (x ∷ xs) ys (inl e) = inl e
append-In_left a (x ∷ xs) ys (inr i) = inr (append-In_left a xs ys i)

append-In_right : {A : Type 0} (a : A) (xs ys : List A) → In a ys → In a (xs ++ ys)
append-In_right a [] ys i = i
append-In_right a (x ∷ xs) ys i = inr (append-In_right a xs ys i)

-- Where a policy of the plan comes from.
module _ (keys : KeyMap) (destinations : List Text) (source : ℕ)
    (coalitions : List (List Text)) where
  abbrev pub Origin : List TreasuryAsset → SquadsPolicy → Type 0
  Origin as' p =
      (a : TreasuryAsset) × (mint : Text) × (c : List Text) × In a as'
      × (mint_of a ≡ ok mint)
      × In c coalitions
      × (p ≡ policy_of keys destinations source a mint c)

  pub asset_policies-Origin :
      (as' : List TreasuryAsset) (ps : List SquadsPolicy) (p : SquadsPolicy)
      → asset_policies keys destinations source coalitions as' ≡ ok ps
      → In p ps
      → Origin as' p
  unfolding asset_policies
  asset_policies-Origin [] ps p h i = elim (rw (ok-injective [] ps h) at i) [ ]
  asset_policies-Origin (a ∷ as') ps p h i =
      let mint = >>=-eq-ok (mint_of a) _ h in
      let nine = >>-eq-ok _ _ mint.2 in
      let rest = >>=-eq-ok (asset_policies keys destinations source coalitions as') _ nine.1 in
      let list = ok-injective _ _ rest.2 in
      elim (In-append p _ _ (rw list at i)) [
        | inl j ↦
            let c = map-In (policy_of keys destinations source a mint.0) p coalitions j in
            (a, mint.0, c.0, inl refl, mint.1, c.1, c.2)
        | inr j ↦
            let o = asset_policies-Origin as' rest.0 p rest.1 j in
            (o.0, o.1, o.2, inr o.3, o.4, o.5, o.6)
      ]

  pub asset_policies-In :
      (as' : List TreasuryAsset) (ps : List SquadsPolicy) (a : TreasuryAsset)
      → asset_policies keys destinations source coalitions as' ≡ ok ps
      → In a as'
      → (mint : Text) × (mint_of a ≡ ok mint)
        × ((c : List Text) → In c coalitions → In (policy_of keys destinations source a mint c) ps)
  unfolding asset_policies
  asset_policies-In [] ps a h i = elim i [ ]
  asset_policies-In (b ∷ as') ps a h i =
      let mint = >>=-eq-ok (mint_of b) _ h in
      let nine = >>-eq-ok _ _ mint.2 in
      let rest = >>=-eq-ok (asset_policies keys destinations source coalitions as') _ nine.1 in
      let list = ok-injective _ _ rest.2 in
      pick mint.0 rest.0 list mint.1 i (λ j. asset_policies-In as' rest.0 a rest.1 j)
    where
      Result : List SquadsPolicy → Type 0
      Result ps =
          (mint : Text) × (mint_of a ≡ ok mint)
          × ((c : List Text)
              → In c coalitions
              → In (policy_of keys destinations source a mint c) ps)

      pick :
          (m : Text) (qs : List SquadsPolicy)
          → ps ≡ map (policy_of keys destinations source b m) coalitions ++ qs
          → mint_of b ≡ ok m
          → In a (b ∷ as')
          → (In a as' → Result qs)
          → Result ps
      pick m qs list e (inl s) ih =
          (m, rw s e, λ c j. rw (s, list) (append-In_left _ _ _ (In-map _ c coalitions j)))
      pick m qs list e (inr j) ih =
          let r = ih j in (r.0, r.1, λ c k. rw list (append-In_right _ _ _ (r.2 c k)))

-- The reading of a spending limit: signers that approve, as many as the threshold asks, a listed
-- destination (an empty list is any), and an amount within the period and, unless it is 0, the use.
abbrev pub approved : (Text → Bool) → SquadsSigner → Bool
approved approves s = elim s.key [ none ↦ false | some k ↦ approves k ]

abbrev pub within_limit : SpendingLimit → ℤ → Bool
within_limit l amount =
    leb_ℤ amount l.max_per_period && (leb_ℤ l.max_per_use (pos 0) || leb_ℤ amount l.max_per_use)

abbrev pub to_destination : SpendingLimit → Text → Bool
to_destination l dest = is_empty l.destinations || includes l.destinations dest

unfoldable pub policy_admits : SquadsPolicy → Text → Text → ℤ → (Text → Bool) → Bool
policy_admits p mint dest amount approves =
    text_eq p.payload.mint mint
    && (to_destination p.payload dest
        && (within_limit p.payload amount
            && (all (approved approves) p.signers && leb p.threshold (length p.signers))))

unfoldable pub plan_admits : SquadsTreasuryPlan → Text → Text → ℤ → (Text → Bool) → Bool
plan_admits plan mint dest amount approves =
    any (λ p. policy_admits p mint dest amount approves) plan.policies

-- `recipient.solana === wallet`
abbrev pub allows : Text → AllowedRecipient → Bool
allows w r = elim r.solana [ none ↦ false | some t ↦ text_eq w t ]

-- The wallets are those of the allowlist, in order.
pub squads_recipients-includes :
    (rs : List AllowedRecipient) (i : ℕ) (ts : List Text) (w : Text)
    → squads_recipients rs i ≡ ok ts
    → includes ts w ≡ any (allows w) rs
unfolding squads_recipients
squads_recipients-includes [] i ts w h = rw (ok-injective [] ts h)
squads_recipients-includes (r ∷ rs) i ts w h = elim (Option-cases r.solana) [
  | inl e ↦ absurd (ground arith)
  | inr (t, e) ↦
      let rest = >>=-eq-ok (squads_recipients rs (suc i)) _ (rw (e, squads_recipients) at h) in
      let list : ts ≡ t ∷ rest.0 = ok-injective _ _ rest.2 in
      ground (arith, squads_recipients-includes rs (suc i) rest.0 w rest.1)
]
