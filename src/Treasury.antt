-- ===== src/Treasury.antt =====
-- packages/weighted-treasury: one treasury specification and its two compilers.
pub mod Coalitions
mod Tests
mod Examples
pub mod Spec
pub mod Validate
pub mod Approvers
pub mod Judge
pub mod Encoding
pub mod Evm
pub mod Squads
pub mod SdkArgs
