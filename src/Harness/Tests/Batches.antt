-- ===== src/Harness/Tests/Batches.antt =====
-- Runs of the discovery, of a batch and of the commands, with one complete pattern, one without its
-- naive side and one whose analysis fails.
use mathlib.Core.List.{filter_map}
use slipstream_contracts.Common.{
  ◌≡◌, refl, ◌≢◌, ◌↔◌, Bool, true, ◌&&◌, and_parts, not, Option, none, some, unwrap_or, List, [],
  ◌∷◌, ◌++◌, In, All, ok, err, if◌then◌else◌,
}
use slipstream_contracts.Common.Int.{pos, negsuc}
use slipstream_contracts.Harness.Text.{Text, lit, text_eq, text_le, join, join_path, lacks}
use slipstream_contracts.Harness.Model.{SideReport, DiffReport, contention_delta, is_improvement}
use slipstream_contracts.Harness.Runner.{
  spawn, show_error, analyze_pair, CoreRunner, Parser, available,
}
use slipstream_contracts.Harness.Patterns.{
  Pattern, is_complete, DirEntry, FileSystem, discover_patterns, is_pattern_name, pattern_at,
}
use slipstream_contracts.Harness.Patterns.Sorting.{IsSorted, with_name}
use slipstream_contracts.Harness.Patterns.Discovery.{IsListed, pattern_of, discover_patterns_lem}
use slipstream_contracts.Harness.Batch.{PatternResult, verdict, analyze_pattern, run_all}
use slipstream_contracts.Harness.Batch.Outcomes.{AreOutcomes, run_all-AreOutcomes}
use slipstream_contracts.Harness.Bench.{IoError}
use slipstream_contracts.Harness.Bench.Merge.{lacks-NotIn}
use slipstream_contracts.Harness.Table.{char_count, widths_of, render_table}
use slipstream_contracts.Harness.Table.Widths.{line_width}
use slipstream_contracts.Harness.Table.Lines.{
  IsOneLine, lines_of, table_lines, render_table-table_lines,
}
use slipstream_contracts.Harness.Provenance.{Machine}
use slipstream_contracts.Harness.Commands.{bin_of, run_all_cmd}
use slipstream_contracts.Harness.Commands.ExitCodes.{IsPair, runner_of, run_all_cmd-code}
use slipstream_contracts.Harness.Tests.Files.{disk}

abbrev side : Text → SideReport
side path = record {
  path = path;
  files = 1;
  functions = 2;
  storage_reads = 2;
  storage_writes = 2;
  detector_findings = 0;
  detectors = [];
}

abbrev report : DiffReport
report = record {
  left = side (lit "naive");
  right = side (lit "optimized");
  per_function_deltas = [];
  summary = record {
    detector_findings_delta = pos 0;
    storage_reads_delta = pos 3;
    storage_writes_delta = negsuc 1;
  };
}

abbrev pub from_str : Parser
from_str raw = if text_eq raw (lit "{}") then ok report else err (lit "expected value")

abbrev entry : Text → Option DirEntry
entry name = some (record { path = lit "p/" ++ name; file_name = some name })

abbrev entries : List (Option DirEntry)
entries = entry (lit "02-b") ∷ none ∷ entry (lit "notes") ∷ entry (lit "01-a") ∷ []

-- All paths but one are directories.
abbrev files : FileSystem
files = record {
  read_dir = λ dir. if text_eq dir (lit "p") then some entries else none;
  is_dir = λ path. not (text_eq path (lit "p/02-b/naive"));
}

discover_patterns_lem_example :
    IsSorted (discover_patterns files (lit "p"))
    × ((p : Pattern)
        → In p (discover_patterns files (lit "p"))
          ↔ IsListed files (unwrap_or (files.read_dir (lit "p")) []) p)
    × ((name : Text)
        → with_name name (discover_patterns files (lit "p"))
          ≡ with_name name
              (filter_map (pattern_of files) (unwrap_or (files.read_dir (lit "p")) [])))
discover_patterns_lem_example = discover_patterns_lem files (lit "p")

abbrev patterns : List Pattern
patterns =
    record {
      name = lit "01-a";
      dir = lit "p/01-a";
      naive = some (lit "p/01-a/naive");
      optimized = some (lit "p/01-a/optimized");
    }
    ∷ record {
      name = lit "02-b";
      dir = lit "p/02-b";
      naive = none;
      optimized = some (lit "p/02-b/optimized");
    }
    ∷ []

discover_patterns_test : discover_patterns files (lit "p") ≡ patterns
unfolding discover_patterns text_eq is_pattern_name text_le pattern_at join_path
discover_patterns_test = refl

-- The analyser answers with a report, but not on the second pattern.
abbrev pub runner : CoreRunner
runner = record {
  diff = λ naive optimized.
      if text_eq naive (lit "p/03-c/naive") then err (spawn (lit "gone")) else ok (lit "{}");
  scan = λ path. ok (lit "{}");
}

abbrev pub batch : List Pattern
batch =
    record {
      name = lit "03-c";
      dir = lit "p/03-c";
      naive = some (lit "p/03-c/naive");
      optimized = some (lit "p/03-c/optimized");
    }
    ∷ patterns

run_all-AreOutcomes_example : AreOutcomes from_str runner batch (run_all from_str runner batch)
run_all-AreOutcomes_example = run_all-AreOutcomes from_str runner batch

abbrev results : List PatternResult
results = run_all from_str runner batch

all_one_line : List PatternResult → Bool
unfolding lacks verdict
all_one_line [] = true
all_one_line (r ∷ rs) = lacks b'\n' r.pattern && lacks b'\n' (verdict r) && all_one_line rs

all_one_line-IsOneLine : (rs : List PatternResult) → all_one_line rs ≡ true → All IsOneLine rs
unfolding all_one_line
all_one_line-IsOneLine [] h = tt
all_one_line-IsOneLine (r ∷ rs) h =
    let parts = and_parts (lacks b'\n' r.pattern && lacks b'\n' (verdict r)) (all_one_line rs) h in
    let both = and_parts (lacks b'\n' r.pattern) (lacks b'\n' (verdict r)) parts.0 in
    (
      (lacks-NotIn b'\n' r.pattern both.0, lacks-NotIn b'\n' (verdict r) both.1),
      all_one_line-IsOneLine rs parts.1,
    )

results-IsOneLine : All IsOneLine results
unfolding all_one_line run_all analyze_pattern analyze_pair text_eq show_error contention_delta
    is_improvement join is_complete
results-IsOneLine = all_one_line-IsOneLine results refl

render_table-table_lines_example :
    (lines_of (render_table results) ≡ table_lines results)
    × All (λ l. char_count l ≡ line_width (widths_of results)) (table_lines results)
render_table-table_lines_example = render_table-table_lines results results-IsOneLine

abbrev pub io_message : IoError → Text
io_message e = lit "not found"

abbrev pub machine : Machine
machine = record {
  platform = record {
    output = λ bin args.
        ok (record { success = true; code = some (pos 0); stdout = lit "{}"; stderr = [] });
    from_utf8 = λ bytes. ok bytes;
    from_utf8_lossy = λ bytes. bytes;
  };
  os = lit "linux";
  arch = lit "x86_64";
  slipstream_bin = none;
  slipstream_core_dir = none;
  args = lit "slipstream-harness" ∷ lit "bench" ∷ [];
  seconds = some 1700000000;
  trim = λ s. s;
}

run_all_cmd-code_example :
    (run_all_cmd from_str machine files disk io_message (lit "p")).code ≡ 0
    ↔ (available machine.platform (bin_of from_str machine files disk io_message) ≡ true)
      × (discover_patterns files (lit "p") ≢ [])
      × All
          (λ p.
            IsPair from_str (runner_of from_str machine files disk io_message) p.naive p.optimized)
          (discover_patterns files (lit "p"))
run_all_cmd-code_example = run_all_cmd-code from_str machine files disk io_message (lit "p")

-- A corpus of one pattern with both sides.
abbrev pub one_pattern : FileSystem
one_pattern = record { read_dir = λ dir. some (entry (lit "01-a") ∷ []); is_dir = λ path. true }

pub one_pattern_found : discover_patterns one_pattern (lit "p") ≢ []
unfolding discover_patterns is_pattern_name
one_pattern_found h = cc
