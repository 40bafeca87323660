-- ===== src/Wallets/Presets/Yield.antt =====
-- What `spendFromYieldGrant` of packages/modular-wallets-core/src/cascade/agentGrantPresets.ts allows.
use bufi.Base.{
  ◌≡◌, ◌∙◌, refl, sym, true, ap, Bool, true, false, ◌&&◌, List, [], ◌∷◌, any, arith, Bool-cases,
  or-true, inl, inr,
}
use bufi.Base.Texts.{Text, text_eq, text_eq→eq, text_eq_self, to_lower_case}
use bufi.Base.TextSets.{includes}
use bufi.Wallets.Failures.{done, and_then-done}
use bufi.Wallets.Grant.{BufiGrantScopeEntry, is_same, is_same_right}
use bufi.Wallets.Updates.Access.{is_allowed, HasDistinctTargets}
use bufi.Wallets.Presets.{entry, vault_entries}

-- Whether one of some entries, or of some addresses, has a target.
abbrev has_target : Text → List BufiGrantScopeEntry → Bool
has_target t es = any (λ e. is_same e.target t) es

abbrev pub names : Text → List Text → Bool
names t vs = any (λ v. is_same v t) vs

-- What holds of the entries that the loop over the vaults pushes, given the set of those seen.
abbrev IsVaultList : Text → List Text → List Text → List Text → List BufiGrantScopeEntry → Type 0
IsVaultList token selectors vaults seen es =
    HasDistinctTargets es
    × (has_target token es ≡ false)
    × ((t : Text) → includes seen (to_lower_case t) ≡ true → has_target t es ≡ false)
    × ((t : Text) → includes seen (to_lower_case t) ≡ false → has_target t es ≡ names t vaults)
    × ((t s : Text) (ok : Bool)
        → is_allowed es t s ok ≡ (has_target t es && (any (λ x. is_same x s) selectors && ok)))

-- A text in the set of those seen stands for each text of its address.
seen_same :
    (seen : List Text) (v t : Text)
    → is_same v t ≡ true
    → includes seen (to_lower_case v) ≡ includes seen (to_lower_case t)
unfolding is_same
seen_same seen v t h = ap (includes seen) (text_eq→eq (to_lower_case v) (to_lower_case t) h)

other_text :
    (v t : Text) → is_same v t ≡ false → text_eq (to_lower_case t) (to_lower_case v) ≡ false
unfolding is_same
other_text v t h = elim (Bool-cases (text_eq (to_lower_case t) (to_lower_case v))) [
  | inl e ↦ absurd (
      ground (
        arith,
        text_eq→eq (to_lower_case t) (to_lower_case v) e,
        text_eq_self (to_lower_case v),
        same_lower e,
      ))
  | inr e ↦ e
]
  where
    same_lower :
        text_eq (to_lower_case t) (to_lower_case v) ≡ true
        → text_eq (to_lower_case v) (to_lower_case t) ≡ true
    same_lower e =
        rw (text_eq→eq (to_lower_case t) (to_lower_case v) e) (text_eq_self (to_lower_case v))

pub vault_entries-IsVaultList :
    (token : Text) (x : Text) (xs vaults seen : List Text) (es : List BufiGrantScopeEntry)
    → vault_entries token (x ∷ xs) vaults seen ≡ done es
    → IsVaultList token (x ∷ xs) vaults seen es
unfolding vault_entries
vault_entries-IsVaultList token x xs [] seen es h =
    let nothing : es ≡ [] = cc h in rw nothing (tt, refl, λ t i. refl, λ t i. refl, λ t s ok. refl)
vault_entries-IsVaultList token x xs (vault ∷ vaults) seen es h =
    elim (Bool-cases (is_same vault token)) [
      | inl e ↦ absurd (ground arith)
      | inr apart ↦ elim (Bool-cases (includes seen (to_lower_case vault))) [
        | inl old ↦
            let (distinct, off_token, off_seen, on_new, allowed) =
              vault_entries-IsVaultList token x xs vaults seen es (rw (apart, old) at h) in
            (
              distinct,
              off_token,
              off_seen,
              λ t fresh. ground (arith, seen_same seen vault t, on_new t fresh),
              allowed,
            )
        | inr new ↦
            let (rest, run, pushed) =
              and_then-done (vault_entries token (x ∷ xs) vaults (to_lower_case vault ∷ seen)) _
                (rw (apart, new) at h) in
            let (distinct, off_token, off_seen, on_new, allowed) =
              vault_entries-IsVaultList token x xs vaults (to_lower_case vault ∷ seen) rest run in
            let same : es ≡ entry vault (x ∷ xs) ∷ rest = cc pushed in
            rw same (
              (off_seen vault (rw (text_eq_self (to_lower_case vault)) refl), distinct),
              ground (arith, off_token),
              λ t i. ground (arith, seen_same seen vault t, off_seen t (rw i (or-true _))),
              λ t fresh. elim (Bool-cases (is_same vault t)) [
                | inl e ↦ rw e refl
                | inr e ↦ rw e (on_new t (rw (other_text vault t e, fresh) refl))
              ],
              λ t s ok. ground (arith, allowed t s ok),
            )
      ]
    ]

has_target_same :
    (es : List BufiGrantScopeEntry) (t u : Text)
    → is_same t u ≡ true
    → has_target t es ≡ has_target u es
has_target_same [] t u h = refl
has_target_same (e ∷ es) t u h = rw (is_same_right t u e.target h, has_target_same es t u h) refl

-- No vault is the token.
pub IsVaultList-apart :
    (token : Text) (selectors vaults : List Text) (es : List BufiGrantScopeEntry) (t : Text)
    → IsVaultList token selectors vaults [] es
    → is_same token t ≡ true
    → names t vaults ≡ false
IsVaultList-apart token selectors vaults es t (distinct, off_token, off_seen, on_new, allowed) h =
    sym (on_new t refl) ∙ sym (has_target_same es token t h) ∙ off_token
