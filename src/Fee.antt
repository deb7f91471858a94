-- ===== src/Fee.antt =====
-- Pattern 03, patterns/03-lazy-fee-accrual: a fee for each operation, paid into one pool at once,
-- or accrued for each account and swept into the pool later.
pub mod Naive
pub mod Lazy
pub mod Accrual
pub mod Bounds
pub mod Pool
pub mod Refinement
pub mod Footprints
pub mod Stages
pub mod Answers
pub mod Settlement
pub mod Interleaved
mod Tests
