-- ===== src/Nonce.antt =====
-- Pattern 04, patterns/04-temporary-nonce: replay-protection nonces from one persistent counter,
-- and from a temporary counter for each account.
pub mod Naive
pub mod PerUser
pub mod Freshness
pub mod Footprints
pub mod Stages
pub mod Answers
pub mod Refinement
mod Tests
