-- ===== src/Wallets/SpendFromYield.antt =====
-- packages/modular-wallets-core/src/cascade/buildSpendFromYieldCalls.ts. A call's data is the
-- function and the arguments that are encoded. A `Map` is read through its keys in lower case.
pub mod Covered
use bufi.Base.{Bool, true, false, Option, none, some, List, [], ◌∷◌, ◌++◌, map, if◌then◌else◌}
use bufi.Base.Int.{ℤ, pos, ◌+ℤ◌, ◌-ℤ◌, ltb_ℤ, leb_ℤ}
use bufi.Base.Texts.{Text, text_eq, to_lower_case}
use bufi.Wallets.Failures.{Fallible, done, failed, Failure, and_then, fail_when}

pub record YieldPayment : Type 0 where
  pub token : Text
  pub to : Text
  pub amount : ℤ

pub record TokenBalance : Type 0 where
  pub token : Text
  pub balance : ℤ

pub record VaultConfig : Type 0 where
  pub token : Text
  pub vault : Text

-- `encodeFunctionData`, before it is encoded.
pub data FunctionData : Type 0 where
  withdraw : ℤ → Text → Text → FunctionData
  transfer : Text → ℤ → FunctionData

pub record Call : Type 0 where
  pub target : Text
  pub value : ℤ
  pub call_data : FunctionData

pub record Sourced : Type 0 where
  pub token : Text
  pub vault : Text
  pub amount : ℤ

pub record SpendFromYieldCalls : Type 0 where
  pub withdrawals : List Call
  pub transfers : List Call
  pub calls : List Call
  pub sourced : List Sourced

-- `Map.get` after the entries were set one after the other: the last one of a key.
module _ {A B : Type 0} (key_of : A → Text) (value_of : A → B) where
  unfoldable pub last_set : Text → List A → Option B
  last_set key [] = none
  last_set key (a ∷ as') =
      let first = if text_eq (to_lower_case (key_of a)) key then some (value_of a) else none in
      elim (last_set key as') [ some b ↦ some b | none ↦ first ]

-- An entry of `needed`; its key is its token's, in lower case.
pub record Needed : Type 0 where
  pub token : Text
  pub amount : ℤ

-- `needed.set` for a new key, at the end, or `entry.amount += ...`.
unfoldable pub add_needed : Text → ℤ → List Needed → List Needed
add_needed token amount [] = record { token = token; amount = amount } ∷ []
add_needed token amount (n ∷ ns) =
    let rest = add_needed token amount ns in
    if text_eq (to_lower_case n.token) (to_lower_case token)
    then record n { amount = n.amount +ℤ amount } ∷ ns
    else n ∷ rest

-- The loop over the payments.
unfoldable pub collect_needed : List YieldPayment → List Needed → Fallible (List Needed)
collect_needed [] needed = done needed
collect_needed (p ∷ ps) needed =
    let rest = collect_needed ps (add_needed p.token p.amount needed) in
    if ltb_ℤ p.amount (pos 0) then failed (Failure.negative_amount p.token) else rest

abbrev pub or_no_balance : Option ℤ → ℤ
or_no_balance none = pos 0
or_no_balance (some z) = z

-- What one round of the loop over `needed` pushes for a shortfall, before what the later rounds push.
unfoldable pub source_short :
    Text → ℤ → Option Text → Fallible (List Sourced) → Fallible (List Sourced)
source_short token shortfall none rest = failed (Failure.short shortfall token)
source_short token shortfall (some vault) rest =
    and_then rest
      (λ later. done (record { token = token; vault = vault; amount = shortfall } ∷ later))

module _ (balances : List TokenBalance) (vaults : List VaultConfig) where
  abbrev pub liquid : Text → ℤ
  liquid key = or_no_balance (last_set (λ b. b.token) (λ b. b.balance) key balances)

  abbrev pub vault_of : Text → Option Text
  vault_of key = last_set (λ c. c.token) (λ c. c.vault) key vaults

  -- The loop over `needed`.
  unfoldable pub source_needed : List Needed → Fallible (List Sourced)
  source_needed [] = done []
  source_needed (n ∷ ns) =
      let rest = source_needed ns in
      let shortfall = n.amount -ℤ liquid (to_lower_case n.token) in
      if leb_ℤ shortfall (pos 0)
      then rest
      else source_short n.token shortfall (vault_of (to_lower_case n.token)) rest

abbrev pub withdrawal : Text → Sourced → Call
withdrawal account s = record {
  target = s.vault;
  value = pos 0;
  call_data = withdraw s.amount account account;
}

abbrev pub payment_call : YieldPayment → Call
payment_call p = record { target = p.token; value = pos 0; call_data = transfer p.to p.amount }

unfoldable pub build_spend_from_yield_calls :
    Text → List YieldPayment → List TokenBalance → List VaultConfig → Fallible SpendFromYieldCalls
build_spend_from_yield_calls account payments balances vaults =
    and_then (collect_needed payments []) (λ needed.
      and_then (source_needed balances vaults needed) (λ sourced.
        let withdrawals = map (withdrawal account) sourced in
        let transfers = map payment_call payments in
        done (record {
          withdrawals = withdrawals;
          transfers = transfers;
          calls = withdrawals ++ transfers;
          sourced = sourced;
        })))
