-- ===== src/Admin.antt =====
-- Pattern 05, patterns/05-batched-admin-writes: a configuration under one ledger key for each
-- field, and under a single key.
pub mod Naive
pub mod Batched
pub mod Settings
pub mod Refinement
mod Tests
