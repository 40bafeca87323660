-- ===== src/Subgraph/Timestamps.antt =====
-- packages/subgraph-arc/src/shared/timestamp.ts: what is stored of a time that a contract gives.
use bufi.Base.{ℕ, ◌≡◌, ◌<◌, arith, Bool-cases, inl, inr}
use Prim.Native.Nat.{min}
use bufi.Base.Int.{ℤ, pos, negsuc, ltb_ℤ}
use bufi.Subgraph.Runtime.{Host, to_timestamp_seconds, max_timestamp_seconds}

-- A value brought between 0 and the last second of the year 9999.
abbrev pub clamped : ℤ → ℤ
clamped (negsuc n) = pos 0
clamped (pos n) = pos (min n 253402300799)

-- With a conversion that keeps what an i64 holds, a contract's time of any size is stored as the
-- nearest one between 0 and 9999-12-31T23:59:59Z.
pub to_timestamp_seconds-clamped :
    (host : Host) (value : ℤ)
    → ((n : ℕ) → n < 9223372036854775808 → host.to_i64 (pos n) ≡ pos n)
    → to_timestamp_seconds host value ≡ clamped value
unfolding to_timestamp_seconds
to_timestamp_seconds-clamped host (negsuc n) keeps = ground arith
to_timestamp_seconds-clamped host (pos n) keeps =
    elim (Bool-cases (ltb_ℤ max_timestamp_seconds (pos n))) [
      | inl e ↦ ground arith
      | inr e ↦ ground (arith, keeps n)
    ]
