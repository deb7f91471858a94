-- ===== src/Lib.antt =====
-- The Slipstream contract corpus. Its six patterns, patterns/NN-<name>/, are pairs of Soroban
-- contracts: a naive one whose calls contend for one ledger entry, and an optimized one that spreads
-- the entries. Its harness, harness/src, runs the external analyser `slipstream` over each pair,
-- prints a table and records the measured deltas in each pattern's BENCH.md.
--
-- A contract function is a `Call` of Host.antt: a program of storage reads and writes, signature
-- checks and conditions that may panic, over the keys and values of its contract. `run` gives a call
-- its meaning on any `Ledger`, the interface to the SDK's storage: the answer and the new state, or
-- the panic, which leaves the state as it was. Host/Memory.antt fills the interface with a concrete
-- ledger. Host/Words.antt has the overflow checks of u64 and i128, on which the contracts panic
-- (`overflow-checks = true` in the profile); the values themselves are native numbers and the integers
-- of Common/Int.antt. The accounts that have signed are one fixed set over a run: an account that has
-- signed one call of it has signed all its calls.
-- Host/Footprint.antt and the files below it are about what a call reads and writes, conflicts, the
-- stages of docs/PLAYBOOK.md ("Background"), which are batches of calls of which no two conflict
-- (Stage, Schedule), a stage that runs at once, each call on the ledger that the stage starts from
-- (Together), and a stage whose calls run at the same time, one host access of one call after the
-- other in any order (Interleave). There a call that would panic makes no further access: the host's
-- undoing of its writes in the midst of other calls is not modelled. Interleave lets any calls run at
-- the same time, but the host does so only with the calls of a stage, and the theorems are about
-- stages.
--
--   - Counter: 01-sharded-counter, `increment`, `total`, `shard_total` and `shards`.
--   - Balance: 02-per-user-balance, `deposit`, `transfer` and `balance`; the SDK's Map is a parameter
--     with its laws.
--   - Fee: 03-lazy-fee-accrual, `operate`, `sweep`, `fee_pool`, `accrued` and `op_count`.
--   - Nonce: 04-temporary-nonce, `next` and `current`; the eviction of a temporary entry is a step of
--     the host.
--   - Admin: 05-batched-admin-writes, `set_config` and the getters; the naive variant's loop runs over
--     the list of the values that it is given.
--   - EventLog: 06-event-log, `append`, `get`, `entry_count`, `segment_len` and `total_len`; a message
--     is any type, since the code only stores and returns it.
--
-- In each of these, Naive.antt is naive/src/lib.rs, and the other model (Sharded, PerUser, Lazy,
-- Batched, Segmented) is optimized/src/lib.rs; the functions keep their names. The files beside them
-- are about one subject each: Refinement about the two contracts of a pattern, Stages about calls in
-- stages, Interleaved about the calls of a stage that run at the same time, Answers about runs of any calls,
-- errors included, Settlement about sweeps of all accounts, Solvency about balances below zero. The loops over shards and segments run over a count that is the
-- constant 8 of the source, so no fuel is needed.
--
--   - Harness/Model: harness/src/model.rs and the contention delta.
--   - Harness/Runner, Patterns, Batch, Table, Bench: harness/src/lib.rs, in its order: the runners,
--     the discovery of the patterns, `run_all`, `render_table`, and the block that `update_bench_md`
--     keeps in a BENCH.md.
--   - Harness/Provenance, Cli, Commands: harness/src/main.rs; a command gives its exit code, what it
--     prints and the disk it leaves.
--   - Harness/Text: a Rust string as its bytes. Decimal digits are produced on fuel `n + 1` for the
--     number `n`, which is enough since each step divides by ten.
--
-- Parameters, since their code is not in the repository: the SDK's storage, Map and signatures, the
-- analyser's processes, `serde_json`, the file system and the disk, the clock and the environment.
-- Paths are UTF-8 here, so a path and its display are one text, and two texts are two files. Not
-- modelled: the tests and the build files. Ledger time and the rent of entries are not modelled
-- either, but for the eviction in Nonce.
pub mod Common
pub mod Host
pub mod Counter
pub mod Balance
pub mod Fee
pub mod Nonce
pub mod Admin
pub mod EventLog
pub mod Harness
