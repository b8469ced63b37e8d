-- ===== src/Risk.antt =====
-- packages/compiler/risk: from the facts of an intent to signals, from signals to a score and a
-- decision.
pub mod Types
pub mod Doubles
pub mod Scoring
pub mod Verdict
pub mod Input
pub mod Signals
pub mod Engine
pub mod Reputation
pub mod Fixed
pub mod Calldata
pub mod Addresses
pub mod Assembly
pub mod History
mod Tests
