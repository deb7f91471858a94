-- ===== src/Harness/Commands/OnePattern.antt =====
-- `main` of harness/src/main.rs on one pattern directory.
use slipstream_contracts.Common.{
  ◌≡◌, refl, ◌↔◌, false, Option, some, none, List, ◌∷◌, Result, ok, err, arith, unwrap_or,
}
use slipstream_contracts.Harness.Text.{Text, lit, text_eq, join_path}
use slipstream_contracts.Harness.Model.{ContentionDelta}
use slipstream_contracts.Harness.Runner.{
  HarnessError, Output, Parser, subprocess_runner, runner_from_env,
}
use slipstream_contracts.Harness.Runner.Causes.{IsMeasured, diff_output, analyze_pair_causes}
use slipstream_contracts.Harness.Patterns.{FileSystem}
use slipstream_contracts.Harness.Bench.{IoError, Disk}
use slipstream_contracts.Harness.Provenance.{Machine}
use slipstream_contracts.Harness.Commands.{bin_of, run, pair_exit, main}

module _ {D : Type 0} (from_str : Parser) (M : Machine) (fs : FileSystem) (S : Disk D)
    (io_message : IoError → Text) where
  -- What `slipstream diff` gives for the two sides of a pattern directory.
  abbrev pub sides_output : Text → Result Output Text
  sides_output dir =
      diff_output from_str M.platform (bin_of from_str M fs S io_message)
        (join_path dir (lit "naive")) (join_path dir (lit "optimized"))

  runner_lem :
      (o : Option Text)
      → runner_from_env M.platform o ≡ subprocess_runner M.platform (unwrap_or o (lit "slipstream"))
  unfolding runner_from_env
  runner_lem none = refl
  runner_lem (some bin) = refl

  run_iff :
      (dir : Text) (delta : ContentionDelta)
      → run from_str M fs S io_message dir ≡ ok delta
        ↔ IsMeasured from_str M.platform (sides_output dir) delta
  unfolding run
  run_iff dir delta = rw (runner_lem M.slipstream_bin) (
      (analyze_pair_causes from_str M.platform (bin_of from_str M fs S io_message)
          (join_path dir (lit "naive")) (join_path dir (lit "optimized"))).0
        delta)

  pair_code :
      (dir : Text) (r : Result ContentionDelta HarnessError)
      → ((pair_exit from_str M fs S io_message dir r).code ≡ 0)
        ↔ ((d : ContentionDelta) × (r ≡ ok d))
  pair_code dir (ok d) = ((λ _. (d, refl)), (λ _. refl))
  pair_code dir (err x) = ((λ h. absurd (omega arith)), (λ h. absurd (no h.0 h.1)))
    where
      no : (d : ContentionDelta) → ◌≡◌ {A = Result ContentionDelta HarnessError} (err x) (ok d) → ⊥
      no d h = cc

  -- `harness <pattern-dir>` leaves the disk as it is, and it exits with 0 exactly when `slipstream
  -- diff` on the two sides could be launched and ended with success, and its output is the JSON of a
  -- report.
  pub main-one_pattern :
      (dir : Text) (args : List Text) (d : D)
      → text_eq dir (lit "all") ≡ false
      → text_eq dir (lit "bench") ≡ false
      → let end = main from_str M fs S io_message (dir ∷ args) d in
        (end.1 ≡ d)
        × (end.0.code ≡ 0
            ↔ ((delta : ContentionDelta) × IsMeasured from_str M.platform (sides_output dir) delta))
  unfolding main
  main-one_pattern dir args d all bench =
      rw (all, bench)
        (
          refl,
          (
            (λ h.
                let r = (pair_code dir (run from_str M fs S io_message dir)).0 h in
                (r.0, (run_iff dir r.0).0 r.1)),
            (λ (delta, h).
                (pair_code dir (run from_str M fs S io_message dir)).1
                  (delta, (run_iff dir delta).1 h)),
          ),
        )
