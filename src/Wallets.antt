-- ===== src/Wallets.antt =====
-- packages/modular-wallets-core/src: the grants of session keys and the calls of an agent.
pub mod Failures
pub mod Grant
pub mod Updates
pub mod Presets
pub mod SpendFromYield
mod Examples
