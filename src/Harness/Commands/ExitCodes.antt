-- ===== src/Harness/Commands/ExitCodes.antt =====
-- The exit codes of `run_all_cmd` and `bench_cmd`, harness/src/main.rs.
use slipstream_contracts.Common.{
  ℕ, ◌≡◌, refl, sym, ap, ◌∙◌, subst, ◌≢◌, ◌↔◌, Bool, true, false, ◌||◌, not, Option, none, some,
  List, [], ◌∷◌, All, Result, ok, err, if_of, if◌then◌else◌, ltb, arith,
}
use slipstream_contracts.Harness.Text.{Text, lit, join_path}
use slipstream_contracts.Harness.Model.{ContentionDelta}
use slipstream_contracts.Harness.Runner.{
  HarnessError, CoreRunner, Parser, analyze_pair, available, subprocess_runner,
}
use slipstream_contracts.Harness.Patterns.{Pattern, FileSystem, discover_patterns, is_some}
use slipstream_contracts.Harness.Batch.{outcome, analyze_sides, analyze_pattern, run_all}
use slipstream_contracts.Harness.Bench.{
  BenchProvenance, IoError, Disk, render_bench_block, update_bench_md,
}
use slipstream_contracts.Harness.Provenance.{Machine, collect_provenance}
use slipstream_contracts.Harness.Cli.{is_empty, any_incomplete, Counts, Exit, no_patterns}
use slipstream_contracts.Harness.Commands.{
  no_counts, count, bench_step, bench_loop, bin_of, all_exit, all_patterns, run_all_cmd,
  bench_patterns, bench_cmd,
}

abbrev pub bad : List Text → Option Text → Bool
bad missing_sides error = not (is_empty missing_sides) || is_some error

or_false : (a b : Bool) → a || b ≡ false ↔ (a ≡ false) × (b ≡ false)
or_false true b = ((λ h. cc), (λ h. h.0))
or_false false b = ((λ h. (refl, h)), (λ h. h.1))

false-true : false ≡ true → ⊥
false-true h = cc

two_zero : ◌≡◌ {A = ℕ} 2 0 → ⊥
two_zero h = omega arith

abbrev code_of : Bool → ℕ
code_of b = if b then 1 else 0

zero_code : (b : Bool) → code_of b ≡ 0 ↔ b ≡ false
zero_code true = ((λ h. absurd (omega arith)), (λ h. cc))
zero_code false = ((λ _. refl), (λ _. refl))

module _ (from_str : Parser) (runner : CoreRunner) where
  -- Both sides are there, and their analysis succeeds.
  abbrev pub IsPair : Option Text → Option Text → Type 0
  IsPair n o =
      (naive : Text) × (optimized : Text) × (d : ContentionDelta) × (n ≡ some naive)
      × (o ≡ some optimized)
      × (analyze_pair from_str runner naive optimized ≡ ok d)

  outcome-IsPair :
      (name n o : Text) (a : Result ContentionDelta HarnessError)
      → analyze_pair from_str runner n o ≡ a
      → bad (outcome name a).missing_sides (outcome name a).error ≡ false ↔ IsPair (some n) (some o)
  outcome-IsPair name n o (ok d) e = ((λ _. (n, o, d, refl, refl, e)), (λ _. refl))
  outcome-IsPair name n o (err x) e = ((λ h. cc), (λ (_, _, _, h, k, q). cc))

  sides-IsPair :
      (name : Text) (n o : Option Text)
      → bad
            (analyze_sides from_str runner name n o).missing_sides
            (analyze_sides from_str runner name n o).error
          ≡ false
        ↔ IsPair n o
  sides-IsPair name none none = ((λ h. cc), (λ (_, _, _, h, _, _). cc))
  sides-IsPair name none (some o) = ((λ h. cc), (λ (_, _, _, h, _, _). cc))
  sides-IsPair name (some n) none = ((λ h. cc), (λ (_, _, _, _, h, _). cc))
  sides-IsPair name (some n) (some o) = outcome-IsPair name n o _ refl

  any_incomplete-run_all :
      (ps : List Pattern)
      → any_incomplete (run_all from_str runner ps) ≡ false
        ↔ All (λ p. IsPair p.naive p.optimized) ps
  unfolding any_incomplete run_all analyze_pattern
  any_incomplete-run_all [] = ((λ _. tt), (λ _. refl))
  any_incomplete-run_all (p ∷ ps) =
      let one = sides-IsPair p.name p.naive p.optimized in
      let rest = any_incomplete-run_all ps in
      let both = or_false _ _ in
      ((λ h. (one.0 (both.0 h).0, rest.0 (both.0 h).1)), (λ h. both.1 (one.1 h.0, rest.1 h.1)))

module _ {D : Type 0} (from_str : Parser) (M : Machine) (fs : FileSystem) (S : Disk D)
    (io_message : IoError → Text) where
  abbrev pub runner_of : CoreRunner
  runner_of = subprocess_runner M.platform (bin_of from_str M fs S io_message)

  all_patterns-code :
      (dir : Text) (ps : List Pattern)
      → (all_patterns from_str M fs S io_message dir runner_of ps).code ≡ 0
        ↔ (ps ≢ []) × All (λ p. IsPair from_str runner_of p.naive p.optimized) ps
  unfolding all_exit no_patterns
  all_patterns-code dir [] = ((λ h. absurd (omega arith)), (λ h. absurd (h.0 refl)))
  all_patterns-code dir (p ∷ ps) =
      let flag = any_incomplete-run_all from_str runner_of (p ∷ ps) in
      let code = zero_code (any_incomplete (run_all from_str runner_of (p ∷ ps))) in
      ((λ h. ((λ e. cons_nil e), flag.0 (code.0 h))), (λ h. code.1 (flag.1 h.1)))
    where
      cons_nil : p ∷ ps ≡ [] → ⊥
      cons_nil e = cc

  -- `harness all` exits with 0 just where the binary can be launched, discovery finds a pattern, and
  -- every pattern found has both sides and an analysis without error.
  pub run_all_cmd-code :
      (dir : Text)
      → (run_all_cmd from_str M fs S io_message dir).code ≡ 0
        ↔ (available M.platform (bin_of from_str M fs S io_message) ≡ true)
          × (discover_patterns fs dir ≢ [])
          × All (λ p. IsPair from_str runner_of p.naive p.optimized) (discover_patterns fs dir)
  unfolding run_all_cmd
  run_all_cmd-code dir =
      let all = all_patterns-code dir (discover_patterns fs dir) in
      if_of
        (λ (x : Exit).
          x.code ≡ 0
          ↔ (available M.platform (bin_of from_str M fs S io_message) ≡ true)
            × (discover_patterns fs dir ≢ [])
            × All (λ p. IsPair from_str runner_of p.naive p.optimized) (discover_patterns fs dir))
        (available M.platform (bin_of from_str M fs S io_message))
        (λ h. ((λ q. (h, (all.0 q).0, (all.0 q).1)), (λ r. all.1 (r.1, r.2))))
        (λ h. ((λ q. absurd (two_zero q)), (λ r. absurd (false-true (sym h ∙ r.0)))))

  -- The pattern's file holds the block that the batch gives it.
  abbrev pub IsUpToDate : BenchProvenance → D → Pattern → Type 0
  IsUpToDate prov d p =
      (delta : ContentionDelta)
      → (analyze_pattern from_str runner_of p).delta ≡ some delta
      → update_bench_md S (join_path p.dir (lit "BENCH.md")) (render_bench_block p.name delta prov)
          d
        ≡ (ok false, d)

  bench_step-current :
      (prov : BenchProvenance) (p : Pattern) (c : Counts) (d : D)
      → IsUpToDate prov d p
      → let s = bench_step S io_message prov p (analyze_pattern from_str runner_of p).delta c d in
        (s.0.updated ≡ c.updated) × (s.2 ≡ d)
  unfolding bench_step
  bench_step-current prov p c d h = of _ refl
    where
      of :
          (o : Option ContentionDelta)
          → (analyze_pattern from_str runner_of p).delta ≡ o
          → (bench_step S io_message prov p o c d).0.updated ≡ c.updated
            × (bench_step S io_message prov p o c d).2 ≡ d
      of none e = (refl, refl)
      of (some delta) e = (ap (λ r. (count r.0 c).updated) (h delta e), ap (λ r. r.1) (h delta e))

  bench_loop-current :
      (prov : BenchProvenance) (ps : List Pattern) (c : Counts) (d : D)
      → All (IsUpToDate prov d) ps
      → let s = bench_loop S io_message prov ps (run_all from_str runner_of ps) c d in
        (s.0.updated ≡ c.updated) × (s.2 ≡ d)
  unfolding bench_loop run_all
  bench_loop-current prov [] c d h = (refl, refl)
  bench_loop-current prov (p ∷ ps) c d h =
      let s = bench_step S io_message prov p (analyze_pattern from_str runner_of p).delta c d in
      let one = bench_step-current prov p c d h.0 in
      let rest =
        bench_loop-current prov ps s.0 s.2
          (subst (λ d. All (IsUpToDate prov d) ps) (sym one.1) h.1) in
      (rest.0 ∙ one.0, rest.1 ∙ one.1)

  -- `harness bench`, where the binary can be launched, discovery finds a pattern and every file of
  -- an analyzed pattern holds its block already, leaves the disk as it is and exits with 1.
  pub bench_cmd-current :
      (dir : Text) (d : D)
      → available M.platform (bin_of from_str M fs S io_message) ≡ true
      → discover_patterns fs dir ≢ []
      → All
          (IsUpToDate (collect_provenance M (bin_of from_str M fs S io_message) dir) d)
          (discover_patterns fs dir)
      → ((bench_cmd from_str M fs S io_message dir d).0.code ≡ 1)
        × ((bench_cmd from_str M fs S io_message dir d).1 ≡ d)
  unfolding bench_cmd
  bench_cmd-current dir d h found current =
      if_of (λ (x : Exit × D). (x.0.code ≡ 1) × (x.1 ≡ d))
        (available M.platform (bin_of from_str M fs S io_message))
        (λ _. of (discover_patterns fs dir) found current) (λ k. absurd (false-true (sym k ∙ h)))
    where
      of :
          (ps : List Pattern)
          → ps ≢ []
          → All (IsUpToDate (collect_provenance M (bin_of from_str M fs S io_message) dir) d) ps
          → ((bench_patterns from_str M fs S io_message dir ps d).0.code ≡ 1)
            × ((bench_patterns from_str M fs S io_message dir ps d).1 ≡ d)
      of [] k c = absurd (k refl)
      of (p ∷ ps) k c =
          let end =
            bench_loop-current (collect_provenance M (bin_of from_str M fs S io_message) dir)
              (p ∷ ps) no_counts d c in
          (ap (λ n. if ltb 0 n then 0 else 1) end.0, end.1)
