-- ===== src/Subgraph.antt =====
-- packages/subgraph-arc/src: the handlers that index the escrow and the registries. The entities
-- and the store they are kept in, the values the runtime gives, and the escrow's handlers.
pub mod Table
pub mod Schema
pub mod Access
pub mod Runtime
pub mod Commerce
pub mod Reputation
pub mod Timestamps
pub mod Base64
pub mod Caip
pub mod Uri
pub mod Decimal
mod Examples
mod RatingExamples
mod CodecExamples
