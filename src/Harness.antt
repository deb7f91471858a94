-- ===== src/Harness.antt =====
-- The harness, harness/src: it drives the external analyser `slipstream` over the pattern pairs.
pub mod Text
pub mod Model
pub mod Runner
pub mod Patterns
pub mod Batch
pub mod Bench
pub mod Table
pub mod Provenance
pub mod Cli
pub mod Commands
mod Tests
