-- ===== src/Wallets/Grant.antt =====
-- The grant of packages/modular-wallets-core/src/types/bufi.ts. Addresses and selectors are texts of
-- hexadecimal digits, a `bigint` and a number of seconds are signed integers.
use bufi.Base.{◌≡◌, refl, Option, List, Bool, true, false, arith}
use bufi.Base.Int.{ℤ}
use bufi.Base.Texts.{Text, text_eq, text_eq→eq, text_eq_self, text_eq_comm, to_lower_case}

pub record BufiGrantScopeEntry : Type 0 where
  pub target : Text
  pub selectors : Option (List Text)

pub record BufiGrantScope : Type 0 where
  pub allow : List BufiGrantScopeEntry

pub record BufiGrantErc20Budget : Type 0 where
  pub token : Text
  pub limit : ℤ
  pub refresh_interval_seconds : ℤ

pub record BufiGrantSpendBudget : Type 0 where
  pub limit : ℤ
  pub refresh_interval_seconds : ℤ

pub record BufiGrantBudget : Type 0 where
  pub erc20 : Option (List BufiGrantErc20Budget)
  pub native : Option BufiGrantSpendBudget
  pub gas : Option BufiGrantSpendBudget

pub record BufiGrantExpiry : Type 0 where
  pub valid_after : Option ℤ
  pub valid_until : ℤ

pub record BufiGrant : Type 0 where
  pub scope : BufiGrantScope
  pub budget : Option BufiGrantBudget
  pub expiry : BufiGrantExpiry
  pub required_paymaster : Option Text

-- Two texts of one address, or of one selector.
unfoldable pub is_same : Text → Text → Bool
is_same a b = text_eq (to_lower_case a) (to_lower_case b)

pub is_same_self : (t : Text) → is_same t t ≡ true
unfolding is_same
is_same_self t = text_eq_self (to_lower_case t)

-- Texts of one address are the same as the same texts.
pub is_same_right : (t u v : Text) → is_same t u ≡ true → is_same v t ≡ is_same v u
unfolding is_same
is_same_right t u v h = rw (text_eq→eq (to_lower_case t) (to_lower_case u) h) refl

is_same_comm : (a b : Text) → is_same a b ≡ is_same b a
unfolding is_same
is_same_comm a b = text_eq_comm (to_lower_case a) (to_lower_case b)

-- What is the same as one of two addresses is not the other.
pub is_same_apart : (t u v : Text) → is_same t u ≡ false → is_same t v ≡ true → is_same u v ≡ false
is_same_apart t u v apart h = ground (arith, is_same_right t v u h, is_same_comm t u)
