-- ===== src/Subgraph/Runtime.antt =====
-- What packages/subgraph-arc/src takes from @graphprotocol/graph-ts and the generated bindings: the
-- data source's context, the conversions, the hash, and the calls of a contract's views, all of
-- them values given to the handlers. With it the event that a handler is given, and
-- packages/subgraph-arc/src/shared/{account,timestamp}.ts.
use bufi.Base.{ℕ, Option, none, some, if◌then◌else◌}
use bufi.Base.Int.{ℤ, pos, ltb_ℤ}
use bufi.Base.Texts.{Text}
use bufi.Subgraph.Table.{Bytes}
use bufi.Subgraph.Schema.{Timestamp, Account, BigDecimal, Store}
use bufi.Subgraph.Access.{load_account, save_account}

-- The answer of `getJob` that the handlers read.
pub record JobView : Type 0 where
  pub description : Text
  pub budget : ℕ

-- The escrow's views at a block; none is a call that reverted.
pub record Contract : Type 0 where
  pub try_get_job : ℕ → Option JobView
  pub try_platform_treasury : Option Bytes
  pub try_platform_fee_bp : Option ℕ
  pub try_evaluator_fee_bp : Option ℕ

-- `bind` takes the address and the block at which the views are called.
pub record Host : Type 0 where
  pub network : Text
  pub context_chain_id : ℕ
  pub context_payment_token : Bytes
  pub context_identity_registry : Bytes
  pub to_i64 : ℤ → ℤ
  pub to_string : ℕ → Text
  pub to_hex_string : Bytes → Text
  pub concat_i32 : Bytes → ℕ → Bytes
  pub keccak256 : Bytes → Bytes
  pub to_big_decimal : ℕ → BigDecimal
  pub div_decimal : ℤ → BigDecimal → BigDecimal
  pub neg : BigDecimal → BigDecimal
  pub bind : Bytes → ℕ → Contract

-- An `ethereum.Event` with its decoded parameters.
pub record Event (P : Type 0) : Type 0 where
  pub address : Bytes
  pub log_index : ℕ
  pub block_number : ℕ
  pub block_timestamp : ℕ
  pub transaction_hash : Bytes
  pub params : P

-- `event.block.timestamp.toI64()`
unfoldable pub block_time : {P : Type 0} → Host → Event P → Timestamp
block_time host event = host.to_i64 (pos event.block_timestamp)

-- 9999-12-31T23:59:59Z
abbrev pub max_timestamp_seconds : ℤ
max_timestamp_seconds = pos 253402300799

unfoldable pub to_timestamp_seconds : Host → ℤ → Timestamp
to_timestamp_seconds host value =
    if ltb_ℤ value (pos 0)
    then pos 0
    else if ltb_ℤ max_timestamp_seconds value
    then max_timestamp_seconds
    else host.to_i64 value

unfoldable pub get_or_create_account : Bytes → Store → Account × Store
get_or_create_account address s =
    let new : Account = record { id = address } in
    elim (load_account address s) [ none ↦ (new, save_account new s) | some account ↦ (account, s) ]
