-- ===== src/Harness/Commands/Kept.antt =====
-- Whole runs of `bench_cmd` and `main` of harness/src/main.rs on a disk of many files.
use slipstream_contracts.Common.{
  ◌≤◌, ◌≡◌, refl, ◌≢◌, List, [], ◌∷◌, map, All, All-in, All-of, Distinct, if_of, arith,
}
use slipstream_contracts.Harness.Text.{Text, lit, text_eq}
use slipstream_contracts.Harness.Runner.{CoreRunner, Parser, available, subprocess_runner}
use slipstream_contracts.Harness.Patterns.{Pattern, FileSystem, discover_patterns}
use slipstream_contracts.Harness.Batch.{analyze_pattern, run_all}
use slipstream_contracts.Harness.Bench.{BenchProvenance, IoError, Disk}
use slipstream_contracts.Harness.Bench.Update.{IsFaithful}
use slipstream_contracts.Harness.Provenance.{Machine, collect_provenance}
use slipstream_contracts.Harness.Cli.{Exit}
use slipstream_contracts.Harness.Commands.{
  no_counts, bench_loop, bench_patterns, bin_of, bench_cmd, patterns_arg, main,
}
use slipstream_contracts.Harness.Commands.Failures.{bench_loop-IsReported}
use slipstream_contracts.Common.{inl, inr, In, length}
use slipstream_contracts.Harness.Commands.Files.{IsLocal, bench_path, bench_loop-other, IsKept}

module _ {D : Type 0} (S : Disk D) (io_message : IoError → Text) (prov : BenchProvenance)
    (from_str : Parser) (runner : CoreRunner) where
  -- The block of the pattern's analysis is in its file.
  abbrev pub IsBenched : D → D → Pattern → Type 0
  IsBenched d d' p = IsKept S io_message prov p (analyze_pattern from_str runner p).delta d d'

  -- On a disk that reads back what it has written, and where a write leaves other files alone: a
  -- run of the loop of `bench_cmd` over patterns with different files, which counts no failure,
  -- leaves in the file of every analyzed pattern the earlier text, or none where there was no file,
  -- with the block of the pattern merged in, and every other pattern's file as it was.
  pub bench_loop-IsBenched :
      (ps : List Pattern) (d : D)
      → IsFaithful S
      → IsLocal S
      → Distinct (map bench_path ps)
      → (bench_loop S io_message prov ps (run_all from_str runner ps) no_counts d).0.failed ≡ 0
      → All
          (IsBenched d (bench_loop S io_message prov ps (run_all from_str runner ps) no_counts d).2)
          ps
  bench_loop-IsBenched ps d faithful local h f =
      let r = bench_loop-IsReported S io_message prov from_str runner ps d faithful local h in
      All-of _ ps λ p m. elim (All-in _ ps r.1 m) [
        | inl k ↦ k
        | inr (e, i) ↦ absurd (omega (arith, some_line _ _ i, r.0, f))
      ]
    where
      some_line : (t : Text) (lines : List Text) → In t lines → 1 ≤ length lines
      some_line t [] i = absurd i
      some_line t (u ∷ lines) i = omega arith

module _ {D : Type 0} (from_str : Parser) (M : Machine) (fs : FileSystem) (S : Disk D)
    (io_message : IoError → Text) where
  bench_cmd-other :
      IsLocal S
      → (path dir : Text) (d : D) → All (λ p. path ≢ bench_path p) (discover_patterns fs dir)
      → S.read_to_string path (bench_cmd from_str M fs S io_message dir d).1
        ≡ S.read_to_string path d
  unfolding bench_cmd
  bench_cmd-other local path dir d h =
      if_of (λ (x : Exit × D). S.read_to_string path x.1 ≡ S.read_to_string path d)
        (available M.platform (bin_of from_str M fs S io_message))
        (λ _. of (discover_patterns fs dir) h) (λ _. refl)
    where
      of :
          (ps : List Pattern)
          → All (λ p. path ≢ bench_path p) ps
          → S.read_to_string path (bench_patterns from_str M fs S io_message dir ps d).1
            ≡ S.read_to_string path d
      of [] k = refl
      of (p ∷ ps) k =
          bench_loop-other S io_message
            (collect_provenance M (bin_of from_str M fs S io_message) dir) local path (p ∷ ps)
            (run_all from_str (subprocess_runner M.platform (bin_of from_str M fs S io_message))
              (p ∷ ps))
            no_counts d k

  -- On a disk where a write leaves other files alone, the program, whatever its arguments, leaves
  -- every file as it is but the BENCH.md files in the directories of the patterns that discovery
  -- finds under its second argument, or under `patterns` where there is none.
  pub main-other :
      (args : List Text) (path : Text) (first : Text) (d : D)
      → IsLocal S
      → All
          (λ p. path ≢ bench_path p)
          (discover_patterns fs (patterns_arg from_str M fs S io_message args))
      → S.read_to_string path (main from_str M fs S io_message (first ∷ args) d).1
        ≡ S.read_to_string path d
  unfolding main
  main-other args path first d local h =
      if_of (λ (x : Exit × D). S.read_to_string path x.1 ≡ S.read_to_string path d)
        (text_eq first (lit "all")) (λ _. refl)
        (λ _.
          if_of (λ (x : Exit × D). S.read_to_string path x.1 ≡ S.read_to_string path d)
            (text_eq first (lit "bench"))
            (λ _. bench_cmd-other local path (patterns_arg from_str M fs S io_message args) d h)
            (λ _. refl))
