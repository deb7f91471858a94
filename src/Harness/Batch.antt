-- ===== src/Harness/Batch.antt =====
-- `PatternResult`, `verdict` and `run_all` of harness/src/lib.rs.
pub mod Outcomes
use slipstream_contracts.Common.{
  Bool, Option, none, some, List, [], ◌∷◌, ◌++◌, map, Result, ok, err, if◌then◌else◌,
}
use slipstream_contracts.Harness.Text.{Text, lit, join}
use slipstream_contracts.Harness.Model.{ContentionDelta, is_improvement}
use slipstream_contracts.Harness.Runner.{HarnessError, show_error, CoreRunner, Parser, analyze_pair}
use slipstream_contracts.Harness.Patterns.{Pattern}

pub record PatternResult : Type 0 where
  pub pattern : Text
  pub delta : Option ContentionDelta
  pub missing_sides : List Text
  pub error : Option Text

abbrev pub verdict_of : List Text → Option Text → Option ContentionDelta → Text
verdict_of (m ∷ ms) error delta = lit "missing " ++ join (lit " and ") (m ∷ ms)
verdict_of [] (some e) delta = lit "error: " ++ e
verdict_of [] none (some d) = if is_improvement d then lit "IMPROVEMENT" else lit "NO IMPROVEMENT"
verdict_of [] none none = lit "unknown"

-- `PatternResult::verdict`
unfoldable pub verdict : PatternResult → Text
unfolding is_improvement join
verdict r = verdict_of r.missing_sides r.error r.delta

-- The sides that are missing, naive first.
abbrev pub missing : Option Text → Option Text → List Text
missing none none = lit "naive" ∷ lit "optimized" ∷ []
missing none (some _) = lit "naive" ∷ []
missing (some _) none = lit "optimized" ∷ []
missing (some _) (some _) = []

abbrev pub outcome : Text → Result ContentionDelta HarnessError → PatternResult
outcome name (ok d) = record { pattern = name; delta = some d; missing_sides = []; error = none }
outcome name (err e) = record {
  pattern = name;
  delta = none;
  missing_sides = [];
  error = some (show_error e);
}

abbrev pub incomplete : Text → List Text → PatternResult
incomplete name ms = record { pattern = name; delta = none; missing_sides = ms; error = none }

module _ (from_str : Parser) (runner : CoreRunner) where
  abbrev pub analyze_sides : Text → Option Text → Option Text → PatternResult
  analyze_sides name (some naive) (some optimized) =
      outcome name (analyze_pair from_str runner naive optimized)
  analyze_sides name (some naive) none = incomplete name (missing (some naive) none)
  analyze_sides name none optimized = incomplete name (missing none optimized)

  -- The closure of `run_all`.
  unfoldable pub analyze_pattern : Pattern → PatternResult
  analyze_pattern p = analyze_sides p.name p.naive p.optimized

  unfoldable pub run_all : List Pattern → List PatternResult
  run_all patterns = map analyze_pattern patterns
