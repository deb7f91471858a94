-- ===== src/EventLog.antt =====
-- Pattern 06, patterns/06-event-log: an append-only log with one tail, and one split into segments
-- with a tail each.
pub mod Naive
pub mod Segmented
pub mod History
pub mod Segments
pub mod Total
pub mod Footprints
pub mod Stages
pub mod Interleaved
pub mod Answers
mod Tests
