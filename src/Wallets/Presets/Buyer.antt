-- ===== src/Wallets/Presets/Buyer.antt =====
-- The buyer's grant of packages/modular-wallets-core/src/cascade/agentGrantPresets.ts.
use bufi.Base.{
  ◌≡◌, true, refl, ◌∙◌, Bool, false, ◌&&◌, ◌||◌, List, [], ◌∷◌, any, Bool-cases, inl, inr, arith,
}
use bufi.Base.Texts.{Text}
use bufi.Wallets.Failures.{done}
use bufi.Wallets.Grant.{is_same, is_same_apart}
use bufi.Wallets.Updates.{PermissionUpdate, build_bufi_grant}
use bufi.Wallets.Updates.Access.{permits}
use bufi.Wallets.Updates.Exact.{build_bufi_grant-permits}
use bufi.Wallets.Presets.{
  Erc8183BuyerGrantParameters, grant, or_default, arc_testnet_erc8183_jobs, approve_signature,
  transfer_signature, job_selectors, erc8183_buyer_grant,
}

module _ (to_function_selector : Text → Text) (p : Erc8183BuyerGrantParameters) where
  abbrev pub jobs_of : Text
  jobs_of = or_default p.job_contract arc_testnet_erc8183_jobs

  -- The functions of the buyer's side.
  abbrev pub buys : Text → Text → Bool
  buys target selector =
      (is_same p.token target
        && any (λ s. is_same s selector)
            (to_function_selector approve_signature ∷ to_function_selector transfer_signature ∷ []))
      || (is_same jobs_of target
          && any (λ s. is_same s selector) (job_selectors to_function_selector p.include_complete))

  apart_from_token :
      (target : Text)
      → is_same jobs_of p.token ≡ false
      → is_same jobs_of target ≡ true
      → is_same p.token target ≡ false
  apart_from_token target apart h = is_same_apart jobs_of p.token target apart h

  -- A buyer whose jobs contract is not its token may approve and transfer the token, and create, fund
  -- and reject jobs; it may complete them only where this is included.
  pub erc8183_buyer_grant-permits :
      (updates : List PermissionUpdate)
      → is_same jobs_of p.token ≡ false
      → build_bufi_grant (erc8183_buyer_grant to_function_selector p) ≡ done updates
      → (target selector : Text)
      → permits to_function_selector updates target selector ≡ buys target selector
  unfolding erc8183_buyer_grant grant
  erc8183_buyer_grant-permits updates apart built target selector =
      build_bufi_grant-permits to_function_selector (erc8183_buyer_grant to_function_selector p)
        updates (rw apart (refl, (refl, tt))) built target selector
      ∙ elim (Bool-cases (is_same jobs_of target)) [
        | inl e ↦ rw (e, apart_from_token target apart e) (ground arith)
        | inr e ↦ rw e (ground arith)
      ]
