-- ===== src/Harness/Cli.antt =====
-- The commands of harness/src/main.rs. A command gives its exit code, what it prints and the disk
-- that it leaves.
use slipstream_contracts.Common.{
  ℕ, suc, ◌+◌, Bool, true, false, not, ◌||◌, Option, none, some, List, [], ◌∷◌, ◌++◌, ltb,
  if◌then◌else◌,
}
use slipstream_contracts.Harness.Text.{Text, lit, show_int, show_nat}
use slipstream_contracts.Harness.Model.{ContentionDelta, is_improvement}
use slipstream_contracts.Harness.Runner.{HarnessError, spawn, command, parse}
use slipstream_contracts.Harness.Patterns.{is_some}
use slipstream_contracts.Harness.Batch.{PatternResult}

-- An exit code, the lines on the standard output and those on the standard error.
pub record Exit : Type 0 where
  pub code : ℕ
  pub stdout : List Text
  pub stderr : List Text

-- The fold of `summarize`: analyzed, missing sides, failed.
pub record Summary : Type 0 where
  pub analyzed : ℕ
  pub missing : ℕ
  pub failed : ℕ

abbrev pub is_empty : {A : Type 0} → List A → Bool
is_empty [] = true
is_empty (_ ∷ _) = false

abbrev pub tally : Option ContentionDelta → List Text → Summary → Summary
tally (some _) sides s = record {
  analyzed = s.analyzed + 1;
  missing = s.missing;
  failed = s.failed;
}
tally none (_ ∷ _) s = record { analyzed = s.analyzed; missing = s.missing + 1; failed = s.failed }
tally none [] s = record { analyzed = s.analyzed; missing = s.missing; failed = s.failed + 1 }

unfoldable pub tally_all : Summary → List PatternResult → Summary
tally_all s [] = s
tally_all s (r ∷ results) = tally_all (tally r.delta r.missing_sides s) results

unfoldable pub improves : Option ContentionDelta → Bool
unfolding is_improvement
improves none = false
improves (some d) = is_improvement d

unfoldable pub count_improved : List PatternResult → ℕ
unfolding improves
count_improved [] = 0
count_improved (r ∷ results) =
    let rest = count_improved results in if improves r.delta then suc rest else rest

abbrev pub no_results : Summary
no_results = record { analyzed = 0; missing = 0; failed = 0 }

unfoldable pub summarize : List PatternResult → Text
unfolding tally_all count_improved show_nat
summarize results =
    let s = tally_all no_results results in
    if ltb 0 s.analyzed
    then lit "summary: "
      ++ show_nat s.analyzed
      ++ lit " analyzed ("
      ++ show_nat (count_improved results)
      ++ lit " improvements), "
      ++ show_nat s.missing
      ++ lit " missing sides, "
      ++ show_nat s.failed
      ++ lit " failed"
    else lit "summary: nothing was analyzed"

unfoldable pub any_incomplete : List PatternResult → Bool
any_incomplete [] = false
any_incomplete (r ∷ results) =
    (not (is_empty r.missing_sides) || is_some r.error) || any_incomplete results

abbrev pub usage : List Text
usage =
    lit "usage: slipstream-harness <pattern-dir>"
    ∷ lit "       slipstream-harness all [patterns-dir]"
    ∷ lit "       slipstream-harness bench [patterns-dir]"
    ∷ lit "  <pattern-dir> expects <pattern-dir>/naive and <pattern-dir>/optimized"
    ∷ []

-- The counters of the loop of `bench_cmd`.
pub record Counts : Type 0 where
  pub updated : ℕ
  pub unchanged : ℕ
  pub skipped : ℕ
  pub failed : ℕ

unfoldable pub report : Text → ContentionDelta → List Text
unfolding is_improvement show_int
report pattern_dir delta =
    (lit "pattern: " ++ pattern_dir)
    ∷ (lit "  storage_writes_delta:    " ++ show_int delta.storage_writes_delta)
    ∷ (lit "  storage_reads_delta:     " ++ show_int delta.storage_reads_delta)
    ∷ (lit "  detector_findings_delta: " ++ show_int delta.detector_findings_delta)
    ∷ (lit "  verdict: "
        ++ (if is_improvement delta
            then lit "IMPROVEMENT (optimized reduces write contention)"
            else lit "NO IMPROVEMENT"))
    ∷ []

abbrev pub spawn_hint : HarnessError → List Text
spawn_hint (spawn _) =
    (lit "hint: the `slipstream` binary must be on PATH or set via SLIPSTREAM_BIN; "
      ++ lit "slipstream-core is not vendored in this repo.")
    ∷ []
spawn_hint (command _ _) = []
spawn_hint (parse _) = []

unfoldable pub no_patterns : Text → Exit
no_patterns patterns_dir = record {
  code = 2;
  stdout = [];
  stderr = (lit "error: no `NN-<name>` pattern directories found under " ++ patterns_dir) ∷ [];
}
