-- ===== src/Cre.antt =====
-- packages/cre/src/evidence.ts: the evidence of the CRE workflows, as sealed references and as
-- commitments.
pub mod Checked
pub mod Json
pub mod Decimal
pub mod Reference
pub mod Token
pub mod Records
pub mod Commitments
pub mod Response
mod Examples
