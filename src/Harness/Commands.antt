-- ===== src/Harness/Commands.antt =====
-- `run`, `run_all_cmd`, `bench_cmd` and `main` of harness/src/main.rs. The JSON parser, the machine,
-- the directories, the disk and the texts of its errors are parameters.
pub mod Counting
pub mod ExitCodes
pub mod Failures
pub mod Files
pub mod Kept
pub mod Twice
pub mod OnePattern
use slipstream_contracts.Common.{
  ℕ, suc, ◌+◌, Bool, true, false, Option, none, some, List, [], ◌∷◌, ◌++◌, Result, ok, err, ltb,
  unwrap_or, if◌then◌else◌,
}
use slipstream_contracts.Harness.Text.{Text, lit, text_eq, join_path, show_nat}
use slipstream_contracts.Harness.Model.{ContentionDelta}
use slipstream_contracts.Harness.Runner.{
  HarnessError, show_error, CoreRunner, Parser, analyze_pair, available, subprocess_runner,
  runner_from_env,
}
use slipstream_contracts.Harness.Patterns.{Pattern, FileSystem, discover_patterns}
use slipstream_contracts.Harness.Batch.{PatternResult, run_all}
use slipstream_contracts.Harness.Bench.{
  BenchProvenance, render_bench_block, IoError, Disk, update_bench_md,
}
use slipstream_contracts.Harness.Table.{render_table}
use slipstream_contracts.Harness.Provenance.{Machine, collect_provenance}
use slipstream_contracts.Harness.Cli.{
  Exit, summarize, any_incomplete, is_empty, usage, Counts, report, spawn_hint, no_patterns,
}

abbrev pub no_counts : Counts
no_counts = record { updated = 0; unchanged = 0; skipped = 0; failed = 0 }

-- The counters after one update, and the line it prints.
abbrev pub count : Result Bool IoError → Counts → Counts
count (ok true) c = record {
  updated = c.updated + 1;
  unchanged = c.unchanged;
  skipped = c.skipped;
  failed = c.failed;
}
count (ok false) c = record {
  updated = c.updated;
  unchanged = c.unchanged + 1;
  skipped = c.skipped;
  failed = c.failed;
}
count (err _) c = record {
  updated = c.updated;
  unchanged = c.unchanged;
  skipped = c.skipped;
  failed = c.failed + 1;
}

abbrev pub skip : Counts → Counts
skip c = record {
  updated = c.updated;
  unchanged = c.unchanged;
  skipped = c.skipped + 1;
  failed = c.failed;
}

module _ {D : Type 0} (S : Disk D) (io_message : IoError → Text) where
  abbrev pub complaint : Text → Result Bool IoError → List Text
  complaint path (ok _) = []
  complaint path (err e) = (lit "error: could not update " ++ path ++ lit ": " ++ io_message e) ∷ []

  -- The body of the loop of `bench_cmd`.
  unfoldable pub bench_step :
      BenchProvenance → Pattern → Option ContentionDelta → Counts → D → Counts × List Text × D
  unfolding render_bench_block update_bench_md
  bench_step prov p none c d = (skip c, [], d)
  bench_step prov p (some delta) c d =
      let path = join_path p.dir (lit "BENCH.md") in
      let r = update_bench_md S path (render_bench_block p.name delta prov) d in
      (count r.0 c, complaint path r.0, r.1)

  -- The loop over the patterns and their results.
  unfoldable pub bench_loop :
      BenchProvenance → List Pattern → List PatternResult → Counts → D → Counts × List Text × D
  unfolding bench_step
  bench_loop prov [] results c d = (c, [], d)
  bench_loop prov (p ∷ patterns) [] c d = (c, [], d)
  bench_loop prov (p ∷ patterns) (r ∷ results) c d =
      let s = bench_step prov p r.delta c d in
      let rest = bench_loop prov patterns results s.0 s.2 in (rest.0, s.1 ++ rest.1, rest.2)

abbrev pub bench_line : Counts → Text
bench_line c =
    lit "bench: "
    ++ show_nat c.updated
    ++ lit " BENCH.md updated, "
    ++ show_nat c.unchanged
    ++ lit " already current, "
    ++ show_nat c.skipped
    ++ lit " skipped (incomplete), "
    ++ show_nat c.failed
    ++ lit " failed"

abbrev pub provenance_line : BenchProvenance → Text
provenance_line prov =
    lit "provenance: contracts@"
    ++ prov.contracts_sha
    ++ lit ", core@"
    ++ prov.core_sha
    ++ lit ", slipstream="
    ++ prov.slipstream_version
    ++ lit ", run="
    ++ prov.run_time

module _ {D : Type 0} (from_str : Parser) (M : Machine) (fs : FileSystem) (S : Disk D)
    (io_message : IoError → Text) where
  unfoldable pub run : Text → Result ContentionDelta HarnessError
  unfolding analyze_pair runner_from_env
  run pattern_dir =
      analyze_pair from_str (runner_from_env M.platform M.slipstream_bin)
        (join_path pattern_dir (lit "naive")) (join_path pattern_dir (lit "optimized"))

  abbrev pub bin_of : Text
  bin_of = unwrap_or M.slipstream_bin (lit "slipstream")

  abbrev pub no_binary : Text → Text → Exit
  no_binary shown hint = record {
    code = 2;
    stdout = [];
    stderr =
        (lit "error: the `slipstream` binary was not found on PATH (or at SLIPSTREAM_BIN="
          ++ shown
          ++ lit ")")
        ∷ hint
        ∷ [];
  }

  unfoldable pub all_exit : List PatternResult → Exit
  unfolding any_incomplete summarize render_table
  all_exit results = record {
    code = if any_incomplete results then 1 else 0;
    stdout = render_table results ∷ [];
    stderr = summarize results ∷ [];
  }

  abbrev pub all_patterns : Text → CoreRunner → List Pattern → Exit
  all_patterns patterns_dir runner [] = no_patterns patterns_dir
  all_patterns patterns_dir runner (p ∷ ps) = all_exit (run_all from_str runner (p ∷ ps))

  unfoldable pub run_all_cmd : Text → Exit
  unfolding available subprocess_runner discover_patterns
  run_all_cmd patterns_dir =
      if available M.platform bin_of
      then all_patterns patterns_dir (subprocess_runner M.platform bin_of)
          (discover_patterns fs patterns_dir)
      else no_binary (unwrap_or M.slipstream_bin (lit "<unset>")) (
          lit "hint: build it from slipstream-core, e.g. `cargo build -p slipstream-cli` in "
          ++ lit "slipstream-core, then set SLIPSTREAM_BIN to the binary.")

  abbrev pub bench_exit : BenchProvenance → Counts × List Text × D → Exit × D
  bench_exit prov end = (
    record {
      code = if ltb 0 (end.0).updated then 0 else 1;
      stdout = [];
      stderr = end.1 ++ bench_line end.0 ∷ provenance_line prov ∷ [];
    },
    end.2,
  )

  abbrev pub bench_patterns : Text → List Pattern → D → Exit × D
  bench_patterns patterns_dir [] d = (no_patterns patterns_dir, d)
  bench_patterns patterns_dir (p ∷ ps) d =
      let results = run_all from_str (subprocess_runner M.platform bin_of) (p ∷ ps) in
      let prov = collect_provenance M bin_of patterns_dir in
      bench_exit prov (bench_loop S io_message prov (p ∷ ps) results no_counts d)

  unfoldable pub bench_cmd : Text → D → Exit × D
  unfolding available subprocess_runner discover_patterns
  bench_cmd patterns_dir d =
      if available M.platform bin_of
      then bench_patterns patterns_dir (discover_patterns fs patterns_dir) d
      else (
        no_binary bin_of (
            lit "hint: build it from slipstream-core, then set SLIPSTREAM_BIN; tables stay TBD "
            ++ lit "until then."),
        d,
      )

  abbrev pub pair_exit : Text → Result ContentionDelta HarnessError → Exit
  pair_exit pattern_dir (ok delta) = record {
    code = 0;
    stdout = report pattern_dir delta;
    stderr = [];
  }
  pair_exit pattern_dir (err e) = record {
    code = 1;
    stdout = [];
    stderr = (lit "error: " ++ show_error e) ∷ spawn_hint e;
  }

  abbrev pub patterns_arg : List Text → Text
  patterns_arg [] = lit "patterns"
  patterns_arg (dir ∷ _) = dir

  abbrev pub dispatch : Text → List Text → D → Exit × D
  dispatch first args d =
      if text_eq first (lit "all")
      then (run_all_cmd (patterns_arg args), d)
      else if text_eq first (lit "bench")
      then bench_cmd (patterns_arg args) d
      else (pair_exit first (run first), d)

  -- `main`, on the arguments after the program's name.
  unfoldable pub main : List Text → D → Exit × D
  unfolding run_all_cmd bench_cmd run text_eq
  main [] d = (record { code = 2; stdout = []; stderr = usage }, d)
  main (first ∷ args) d = dispatch first args d
