-- ===== src/Harness/Commands/Counting.antt =====
-- The counters of `summarize` and of the loop of `bench_cmd`, harness/src/main.rs.
use slipstream_contracts.Common.{
  ℕ, suc, ◌+◌, ◌≤◌, ◌≡◌, refl, ap, Bool, true, false, Option, none, some, List, [], ◌∷◌, length,
  Result, ok, err, if_of, if◌then◌else◌, arith,
}
use slipstream_contracts.Harness.Text.{Text, lit, join_path}
use slipstream_contracts.Harness.Model.{ContentionDelta, is_improvement}
use slipstream_contracts.Harness.Runner.{CoreRunner, Parser}
use slipstream_contracts.Harness.Patterns.{Pattern}
use slipstream_contracts.Harness.Batch.{PatternResult, run_all}
use slipstream_contracts.Harness.Bench.{
  BenchProvenance, IoError, Disk, render_bench_block, update_bench_md,
}
use slipstream_contracts.Harness.Cli.{
  Summary, no_results, tally, tally_all, count_improved, improves, Counts,
}
use slipstream_contracts.Harness.Commands.{count, no_counts, bench_step, bench_loop}

abbrev pub is_none : {A : Type 0} → Option A → Bool
is_none none = true
is_none (some _) = false

abbrev pub one_if : Bool → ℕ
one_if true = 1
one_if false = 0

-- How many results have no delta.
unfoldable pub undelta : List PatternResult → ℕ
undelta [] = 0
undelta (r ∷ results) = one_if (is_none r.delta) + undelta results

abbrev total : Summary → ℕ
total s = s.analyzed + s.missing + s.failed

tally_lem :
    (o : Option ContentionDelta) (ms : List Text) (s : Summary)
    → (total (tally o ms s) ≡ suc (total s))
      × ((tally o ms s).analyzed + one_if (is_none o) ≡ suc s.analyzed)
tally_lem none [] s = (omega arith, omega arith)
tally_lem none (m ∷ ms) s = (omega arith, omega arith)
tally_lem (some d) ms s = (omega arith, omega arith)

tally_all_lem :
    (s : Summary) (results : List PatternResult)
    → (total (tally_all s results) ≡ total s + length results)
      × ((tally_all s results).analyzed + undelta results ≡ s.analyzed + length results)
unfolding tally_all undelta
tally_all_lem s [] = (omega arith, omega arith)
tally_all_lem s (r ∷ results) =
    let one = tally_lem r.delta r.missing_sides s in
    let rest = tally_all_lem (tally r.delta r.missing_sides s) results in
    (omega (arith, one.0, rest.0), omega (arith, one.1, rest.1))

improves_le :
    (o : Option ContentionDelta) (n : ℕ)
    → (if improves o then suc n else n) + one_if (is_none o) ≤ suc n
unfolding improves
improves_le none n = omega arith
improves_le (some d) n =
    if_of (λ k. k + 0 ≤ suc n) (is_improvement d) (λ _. omega arith) (λ _. omega arith)

improved_le :
    (results : List PatternResult) → count_improved results + undelta results ≤ length results
unfolding count_improved undelta
improved_le [] = omega arith
improved_le (r ∷ results) =
    omega (arith, improves_le r.delta (count_improved results), improved_le results)

length-run_all :
    (from_str : Parser) (runner : CoreRunner) (ps : List Pattern)
    → length (run_all from_str runner ps) ≡ length ps
unfolding run_all
length-run_all from_str runner [] = refl
length-run_all from_str runner (p ∷ ps) = ap suc (length-run_all from_str runner ps)

-- The summary's counts add up to the number of results, it counts as analyzed those with a delta,
-- and no more are improvements than are analyzed.
tally_all_counts :
    (results : List PatternResult)
    → ((tally_all no_results results).analyzed
          + (tally_all no_results results).missing
          + (tally_all no_results results).failed
        ≡ length results)
      × ((tally_all no_results results).analyzed + undelta results ≡ length results)
      × (count_improved results ≤ (tally_all no_results results).analyzed)
tally_all_counts results =
    let counts = tally_all_lem no_results results in
    (omega (arith, counts.0), omega (arith, counts.1), omega (arith, counts.1, improved_le results))

module _ {D : Type 0} (S : Disk D) (io_message : IoError → Text) (prov : BenchProvenance) where
  -- The updates that the loop has tried.
  abbrev pub tried : Counts → ℕ
  tried c = c.updated + c.unchanged + c.failed

  count_lem :
      (r : Result Bool IoError) (c : Counts)
      → (tried (count r c) ≡ suc (tried c)) × ((count r c).skipped ≡ c.skipped)
  count_lem (ok true) c = (omega arith, refl)
  count_lem (ok false) c = (omega arith, refl)
  count_lem (err e) c = (omega arith, refl)

  bench_step_lem :
      (p : Pattern) (o : Option ContentionDelta) (c : Counts) (d : D)
      → (tried (bench_step S io_message prov p o c d).0 + one_if (is_none o) ≡ suc (tried c))
        × ((bench_step S io_message prov p o c d).0.skipped ≡ c.skipped + one_if (is_none o))
  unfolding bench_step
  bench_step_lem p none c d = (omega arith, refl)
  bench_step_lem p (some delta) c d =
      let r =
        update_bench_md S (join_path p.dir (lit "BENCH.md")) (render_bench_block p.name delta prov)
          d in
      (omega (arith, (count_lem r.0 c).0), omega (arith, (count_lem r.0 c).1))

  bench_loop_lem :
      (ps : List Pattern) (results : List PatternResult) (c : Counts) (d : D)
      → length results ≡ length ps
      → (tried (bench_loop S io_message prov ps results c d).0 + undelta results
          ≡ tried c + length ps)
        × ((bench_loop S io_message prov ps results c d).0.skipped ≡ c.skipped + undelta results)
  unfolding bench_loop undelta
  bench_loop_lem [] [] c d h = (omega arith, omega arith)
  bench_loop_lem [] (r ∷ results) c d h = absurd (omega arith)
  bench_loop_lem (p ∷ ps) [] c d h = absurd (omega arith)
  bench_loop_lem (p ∷ ps) (r ∷ results) c d h =
      let s = bench_step S io_message prov p r.delta c d in
      let one = bench_step_lem p r.delta c d in
      let rest = bench_loop_lem ps results s.0 s.2 (omega arith) in
      (omega (arith, one.0, rest.0), omega (arith, one.1, rest.1))

  -- The loop of `bench_cmd` over the results of the batch counts each pattern once: it skips those
  -- without a delta, and every other is updated, unchanged or failed.
  bench_loop-run_all :
      (from_str : Parser) (runner : CoreRunner) (ps : List Pattern) (d : D)
      → let results = run_all from_str runner ps in
        let c = (bench_loop S io_message prov ps results no_counts d).0 in
        (c.updated + c.unchanged + c.failed + c.skipped ≡ length ps) × (c.skipped ≡ undelta results)
  bench_loop-run_all from_str runner ps d =
      let results = run_all from_str runner ps in
      let counts = bench_loop_lem ps results no_counts d (length-run_all from_str runner ps) in
      (omega (arith, counts.0, counts.1), omega (arith, counts.1))
