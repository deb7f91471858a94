-- ===== src/Harness/Commands/Failures.antt =====
-- The updates of the loop of `bench_cmd`, harness/src/main.rs, that fail among others.
use slipstream_contracts.Common.{
  ◌+◌, ◌≡◌, refl, sym, ◌≢◌, ◌⊎◌, inl, inr, Bool, true, false, Option, none, some, List, [], ◌∷◌,
  ◌++◌, map, length, length-append, All, All-in, All-of, map-All, Distinct, In, In-append_left,
  In-append_right, Result, ok, err, arith,
}
use slipstream_contracts.Harness.Text.{Text, lit}
use slipstream_contracts.Harness.Model.{ContentionDelta}
use slipstream_contracts.Harness.Runner.{CoreRunner, Parser}
use slipstream_contracts.Harness.Patterns.{Pattern}
use slipstream_contracts.Harness.Batch.{PatternResult, analyze_pattern, run_all}
use slipstream_contracts.Harness.Bench.{
  BenchProvenance, IoError, Disk, render_bench_block, update_bench_md,
}
use slipstream_contracts.Harness.Bench.Update.{IsFaithful}
use slipstream_contracts.Harness.Cli.{Counts}
use slipstream_contracts.Harness.Commands.{no_counts, count, complaint, bench_step, bench_loop}
use slipstream_contracts.Harness.Commands.Files.{
  IsLocal, bench_path, bench_step-other, bench_loop-other, IsKept, IsKept-same,
  update_bench_md-IsMerged,
}

module _ {D : Type 0} (S : Disk D) (io_message : IoError → Text) (prov : BenchProvenance) where
  -- An error line names the pattern's file.
  abbrev pub IsTold : Pattern → List Text → Type 0
  IsTold p lines =
      (e : IoError) × In
        (lit "error: could not update " ++ bench_path p ++ lit ": " ++ io_message e) lines

  bench_step-IsKept_or_IsTold :
      IsFaithful S
      → (p : Pattern) (o : Option ContentionDelta) (c : Counts) (d : D)
      → let s = bench_step S io_message prov p o c d in
        IsKept S io_message prov p o d s.2 ⊎ IsTold p s.1
  unfolding bench_step
  bench_step-IsKept_or_IsTold faithful p none c d = inl refl
  bench_step-IsKept_or_IsTold faithful p (some delta) c d = of _ refl
    where
      block : Text
      block = render_bench_block p.name delta prov

      of :
          (r : Result Bool IoError)
          → (update_bench_md S (bench_path p) block d).0 ≡ r
          → IsKept S io_message prov p (some delta) d (update_bench_md S (bench_path p) block d).1
            ⊎ IsTold p
                (complaint S io_message (bench_path p) (update_bench_md S (bench_path p) block d).0)
      of (ok b) h = inl (update_bench_md-IsMerged S (bench_path p) block d faithful b h)
      of (err e) h = inr (e, rw h (inl refl))

  length-complaint :
      (path : Text) (r : Result Bool IoError) (c : Counts)
      → length (complaint S io_message path r) + c.failed ≡ (count r c).failed
  length-complaint path (ok true) c = omega arith
  length-complaint path (ok false) c = omega arith
  length-complaint path (err e) c = omega arith

  step_lines :
      (p : Pattern) (o : Option ContentionDelta) (c : Counts) (d : D)
      → let s = bench_step S io_message prov p o c d in length s.1 + c.failed ≡ s.0.failed
  unfolding bench_step
  step_lines p none c d = omega arith
  step_lines p (some delta) c d =
      length-complaint (bench_path p)
        (update_bench_md S (bench_path p) (render_bench_block p.name delta prov) d).0 c

  loop_lines :
      (ps : List Pattern) (results : List PatternResult) (c : Counts) (d : D)
      → let s = bench_loop S io_message prov ps results c d in length s.1 + c.failed ≡ s.0.failed
  unfolding bench_loop
  loop_lines [] results c d = omega arith
  loop_lines (p ∷ ps) [] c d = omega arith
  loop_lines (p ∷ ps) (r ∷ results) c d =
      let s = bench_step S io_message prov p r.delta c d in
      let rest = bench_loop S io_message prov ps results s.0 s.2 in
      omega
        (arith, length-append s.1 rest.1, step_lines p r.delta c d, loop_lines ps results s.0 s.2)

  module _ (from_str : Parser) (runner : CoreRunner) where
    -- The block of the pattern's analysis is in its file, or an error line names the file.
    abbrev pub IsReported : D → D → List Text → Pattern → Type 0
    IsReported d d' lines p =
        IsKept S io_message prov p (analyze_pattern from_str runner p).delta d d' ⊎ IsTold p lines

    reported :
        IsFaithful S
        → IsLocal S
        → (ps : List Pattern) (c : Counts) (d : D) → Distinct (map bench_path ps)
        → let s = bench_loop S io_message prov ps (run_all from_str runner ps) c d in
          All (IsReported d s.2 s.1) ps
    unfolding bench_loop run_all
    reported faithful local [] c d h = tt
    reported faithful local (p ∷ ps) c d h =
        let o = (analyze_pattern from_str runner p).delta in
        let s = bench_step S io_message prov p o c d in
        let end = bench_loop S io_message prov ps (run_all from_str runner ps) s.0 s.2 in
        let others = map-All (λ path. bench_path p ≢ path) bench_path ps h.0 in
        let kept_after =
          bench_loop-other S io_message prov local (bench_path p) ps (run_all from_str runner ps)
            s.0 s.2 others in
        (
          elim (bench_step-IsKept_or_IsTold faithful p o c d) [
            | inl k ↦ inl (IsKept-same S io_message prov p o d s.2 d end.2 refl kept_after k)
            | inr (e, i) ↦ inr (e, In-append_left s.1 end.1 _ i)
          ],
          All-of _ ps λ q m. elim (All-in _ ps (reported faithful local ps s.0 s.2 h.1) m) [
            | inl k ↦
                let before =
                  bench_step-other S io_message prov local (bench_path q) p o c d
                    (λ e. All-in _ ps others m (sym e)) in
                inl (
                  IsKept-same S io_message prov q (analyze_pattern from_str runner q).delta s.2
                    end.2 d end.2 (sym before) refl k)
            | inr (e, i) ↦ inr (e, In-append_right s.1 end.1 _ i)
          ],
        )

    -- On a disk that reads back what it has written, and where a write, failed or not, leaves other
    -- files alone, a run of the loop of `bench_cmd` over patterns with different files: it counts
    -- a failure for each error line, and for every pattern an error line names its file, or else the
    -- file holds what it should, whatever happened to the other patterns. For an analyzed pattern
    -- that is the earlier text, or none where there was no file, with the block of the pattern
    -- merged in; for any other it is the file as it was.
    pub bench_loop-IsReported :
        (ps : List Pattern) (d : D)
        → IsFaithful S
        → IsLocal S
        → Distinct (map bench_path ps)
        → let s = bench_loop S io_message prov ps (run_all from_str runner ps) no_counts d in
          (length s.1 ≡ s.0.failed) × All (IsReported d s.2 s.1) ps
    bench_loop-IsReported ps d faithful local h = (
      omega (arith, loop_lines ps (run_all from_str runner ps) no_counts d),
      reported faithful local ps no_counts d h,
    )
