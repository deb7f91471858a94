-- ===== src/Balance.antt =====
-- Pattern 02, patterns/02-per-user-balance: balances in one map under one ledger key, and one
-- ledger key for each account.
pub mod Naive
pub mod PerUser
pub mod Transfer
pub mod Refinement
pub mod Footprints
pub mod Stages
pub mod Solvency
pub mod Interleaved
mod Tests
