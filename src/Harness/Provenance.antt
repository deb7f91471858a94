-- ===== src/Harness/Provenance.antt =====
-- `sh`, `unix_ts` and `collect_provenance` of harness/src/main.rs.
use slipstream_contracts.Common.{
  ℕ, Option, none, some, List, [], ◌∷◌, Result, ok, err, unwrap_or, if◌then◌else◌,
}
use slipstream_contracts.Harness.Text.{Text, lit, join, show_nat}
use slipstream_contracts.Harness.Runner.{Output, Platform}
use slipstream_contracts.Harness.Bench.{BenchProvenance}

-- What the process sees of its machine: the constants of `std::env::consts`, the environment, its
-- arguments, the seconds since the epoch where the clock is past it, and `str::trim`.
pub record Machine : Type 0 where
  pub platform : Platform
  pub os : Text
  pub arch : Text
  pub slipstream_bin : Option Text
  pub slipstream_core_dir : Option Text
  pub args : List Text
  pub seconds : Option ℕ
  pub trim : Text → Text

abbrev pub stdout_of : Machine → Result Output Text → Option Text
stdout_of M (err _) = none
stdout_of M (ok out) =
    if out.success then some (M.trim (M.platform.from_utf8_lossy out.stdout)) else none

unfoldable pub sh : Machine → Text → List Text → Option Text
sh M prog args = stdout_of M (M.platform.output prog args)

unfoldable pub unix_ts : Machine → Text
unfolding show_nat
unix_ts M = elim M.seconds [ some n ↦ show_nat n | none ↦ lit "unknown" ]

abbrev pub unknown : Text
unknown = lit "unknown"

-- `git -C dir rev-parse HEAD`
unfoldable pub head_of : Machine → Text → Text
unfolding sh
head_of M dir =
    unwrap_or (sh M (lit "git") (lit "-C" ∷ dir ∷ lit "rev-parse" ∷ lit "HEAD" ∷ [])) unknown

abbrev pub core_head : Machine → Text → Text
core_head M [] = lit "unknown (set SLIPSTREAM_CORE_DIR)"
core_head M (b ∷ dir) = head_of M (b ∷ dir)

unfoldable pub collect_provenance : Machine → Text → Text → BenchProvenance
unfolding sh unix_ts join
collect_provenance M bin patterns_dir = record {
  os = M.os;
  arch = M.arch;
  rustc = unwrap_or (sh M (lit "rustc") (lit "--version" ∷ [])) unknown;
  slipstream_version = unwrap_or (sh M bin (lit "--version" ∷ [])) unknown;
  contracts_sha = head_of M patterns_dir;
  core_sha = core_head M (unwrap_or M.slipstream_core_dir []);
  run_time = unix_ts M;
  command = join (lit " ") M.args;
}
