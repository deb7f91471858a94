-- ===== src/Counter.antt =====
-- Pattern 01, patterns/01-sharded-counter: a counter under one ledger key, and one spread over
-- shards.
pub mod Naive
pub mod Sharded
pub mod Footprints
pub mod Stages
pub mod Answers
pub mod Interleaved
pub mod Refinement
mod Tests
