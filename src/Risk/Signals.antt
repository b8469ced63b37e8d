-- ===== src/Risk/Signals.antt =====
-- packages/compiler/risk/signals.ts: the nine assessors, and their run in the engine.
pub mod Value
pub mod Parties
pub mod Conduct
pub mod Checks
