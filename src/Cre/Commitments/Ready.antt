-- ===== src/Cre/Commitments/Ready.antt =====
-- The states of an agreement that packages/cre/src/evidence.ts lets an event attest.
use bufi.Base.{
  ◌≡◌, true, false, not, ◌||◌, ◌≢◌, ◌⊎◌, inl, inr, List, [], ◌∷◌, all, arith, In, Bool-cases,
}
use bufi.Base.Texts.{Text, text, text_eq, text_eq→eq, text_eq_self}
use bufi.Cre.Checked.{Checked, returned, Refusal, Gives, Gives-unless}
use bufi.Cre.Decimal.{canonical_decimal}
use bufi.Cre.Reference.{
  ContractLifecycleEvidenceEvent, contract_deploy, contract_sign, contract_fund, contract_complete,
  contract_cancel,
}
use bufi.Cre.Records.{ContractLifecycleEvidenceRecord}
use bufi.Cre.Commitments.{is_present}
use bufi.Cre.Commitments.Contract.{check_ready}

-- A status that is not unlike every one of some.
listed :
    (status : Text) (ts : List Text) → all (λ t. not (text_eq status t)) ts ≡ false → In status ts
listed status [] h = absurd (ground arith)
listed status (t ∷ ts) h = elim (Bool-cases (text_eq status t)) [
  | inl e ↦ inl (text_eq→eq status t e)
  | inr e ↦ inr (listed status ts (ground arith))
]

-- The state of the agreement that each event asks for.
abbrev pub IsReady : ContractLifecycleEvidenceEvent → ContractLifecycleEvidenceRecord → Type 0
IsReady contract_fund r =
    (is_present r.funded_at ≡ true) × (canonical_decimal r.funded_amount ≢ returned (text "0"))
IsReady contract_sign r = In r.status (text "pending_sign" ∷ text "active" ∷ text "completed" ∷ [])
IsReady contract_complete r = r.status ≡ text "completed"
IsReady contract_cancel r = In r.status (text "cancelled" ∷ text "canceled" ∷ [])
IsReady contract_deploy r =
    (is_present r.escrow_address ≡ true)
    ⊎ In r.status (text "deploying" ∷ text "active" ∷ text "completed" ∷ [])

same_amount : {run : Checked Text} {s t : Text} → run ≡ returned s → run ≡ returned t → s ≡ t
same_amount p q = cc

pub check_ready-Gives :
    (event : ContractLifecycleEvidenceEvent) (r : ContractLifecycleEvidenceRecord)
    (status funded_amount : Text)
    → status ≡ r.status
    → canonical_decimal r.funded_amount ≡ returned funded_amount
    → Gives
        (λ done. IsReady event r)
        (check_ready event status funded_amount r.funded_at r.escrow_address)
unfolding check_ready
check_ready-Gives contract_fund r status funded_amount p q =
    Gives-unless (not (is_present r.funded_at) || text_eq funded_amount (text "0"))
      Refusal.funding_not_ready
      λ h.
        (ground arith, λ zero. absurd (ground (arith, text_eq_self (text "0"), same_amount q zero)))
check_ready-Gives contract_sign r status funded_amount p q =
    Gives-unless _ Refusal.signing_not_ready λ h.
      rw (← p)
        (listed status (text "pending_sign" ∷ text "active" ∷ text "completed" ∷ []) (ground arith))
check_ready-Gives contract_complete r status funded_amount p q =
    Gives-unless (not (text_eq status (text "completed"))) Refusal.completion_not_ready
      λ h. rw (← p) (text_eq→eq status (text "completed") (ground arith))
check_ready-Gives contract_cancel r status funded_amount p q =
    Gives-unless _ Refusal.cancellation_not_ready
      λ h. rw (← p) (listed status (text "cancelled" ∷ text "canceled" ∷ []) (ground arith))
check_ready-Gives contract_deploy r status funded_amount p q =
    Gives-unless _ Refusal.deployment_not_ready λ h.
      elim (Bool-cases (is_present r.escrow_address)) [
        | inl e ↦ inl e
        | inr e ↦ inr (
            rw (← p) (
              listed status (text "deploying" ∷ text "active" ∷ text "completed" ∷ [])
                (ground arith)))
      ]
