-- ===== src/Treasury/Evm.antt =====
-- packages/weighted-treasury/src/evm.ts. `toLowerCase`, which it calls on texts of any letters, is a
-- parameter.
pub mod Listed
pub mod Exact
use bufi.Base.{
  ℕ, zero, suc, ◌+◌, ◌≡◌, Bool, true, false, Option, none, some, List, [], ◌∷◌, map, ltb, length,
}
use bufi.Base.Texts.{Text}
use bufi.Treasury.Spec.{
  Number, whole, max_evm_owners, TreasuryOwner, AllowedRecipient, TreasuryAsset,
  WeightedTreasurySpec, Backend, Reason, Outcome, ok, ◌>>=◌, ◌>>◌, fail_if, fail,
}
use bufi.Base.TextSets.{includes, distinct_texts}
use bufi.Treasury.Validate.{validate_spec}

pub record EvmOwner : Type 0 where
  pub address : Text
  pub weight : ℕ

-- The note on a timelock, with the seconds that it shows.
pub data EvmNote : Type 0 where
  timelock_on_squads_only : ℕ → EvmNote

pub record EvmTreasuryConfig : Type 0 where
  pub owners : List EvmOwner
  pub threshold_weight : ℕ
  pub allowlist : List Text
  pub notes : List EvmNote

-- A text that is `undefined` or empty counts as false.
abbrev pub truthy : Option Text → Option Text
truthy none = none
truthy (some []) = none
truthy (some (c ∷ cs)) = some (c ∷ cs)

-- The loop over `seen`.
unfoldable pub check_addresses : List EvmOwner → List Text → Outcome (Unit {0})
check_addresses [] seen = ok tt
check_addresses (o ∷ os) seen = do
  fail_if (includes seen o.address) Backend.evm (Reason.evm_address_twice o.address)
  check_addresses os (o.address ∷ seen)

unfoldable pub check_budgets : List TreasuryAsset → Outcome (Unit {0})
check_budgets [] = ok tt
check_budgets (a ∷ as') = elim a.budget [
  | none ↦ check_budgets as'
  | some b ↦ fail Backend.evm (Reason.budget_not_enforced a.symbol)
]

abbrev evm_notes : ℕ → List EvmNote
evm_notes zero = []
evm_notes (suc n) = EvmNote.timelock_on_squads_only (suc n) ∷ []

module _ (to_lower_case : Text → Text) where
  unfoldable pub evm_owner : TreasuryOwner → Outcome EvmOwner
  evm_owner owner = elim (truthy owner.evm) [
    | none ↦ fail Backend.evm (Reason.owner_without_evm owner.id)
    | some evm ↦ ok (record { address = to_lower_case evm; weight = whole owner.weight })
  ]

  unfoldable pub evm_owners : List TreasuryOwner → Outcome (List EvmOwner)
  evm_owners [] = ok []
  evm_owners (o ∷ os) = do owner ← evm_owner o; owners ← evm_owners os; ok (owner ∷ owners)

  unfoldable pub evm_recipients : List AllowedRecipient → ℕ → Outcome (List Text)
  evm_recipients [] i = ok []
  evm_recipients (r ∷ rs) i = elim (truthy r.evm) [
    | none ↦ fail Backend.evm (Reason.recipient_without_evm r.label i)
    | some evm ↦ do addresses ← evm_recipients rs (suc i); ok (to_lower_case evm ∷ addresses)
  ]

  unfoldable pub compile_evm : WeightedTreasurySpec → Outcome EvmTreasuryConfig
  compile_evm s = do
    validate_spec s
    fail_if (ltb max_evm_owners (length s.owners)) Backend.evm Reason.too_many_owners
    owners ← evm_owners s.owners
    check_addresses owners []
    recipients ← evm_recipients s.allowlist 0
    let allowlist = distinct_texts [] recipients
    check_budgets s.assets
    ok (record {
      owners = owners;
      threshold_weight = whole s.threshold_weight;
      allowlist = allowlist;
      notes = evm_notes (whole s.admin_timelock_seconds);
    })
