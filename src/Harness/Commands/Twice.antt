-- ===== src/Harness/Commands/Twice.antt =====
-- Two runs of `bench_cmd` of harness/src/main.rs, one after the other.
use slipstream_contracts.Common.{
  ◌≡◌, refl, sym, subst, ◌≢◌, true, some, List, [], ◌∷◌, map, All, All-in, All-of, NotIn, Distinct,
  Result, ok, err,
}
use slipstream_contracts.Harness.Text.{Text}
use slipstream_contracts.Harness.Model.{ContentionDelta}
use slipstream_contracts.Harness.Runner.{Parser, available}
use slipstream_contracts.Harness.Patterns.{Pattern, FileSystem, discover_patterns}
use slipstream_contracts.Harness.Batch.{run_all}
use slipstream_contracts.Harness.Bench.{
  BenchProvenance, IoError, Disk, existing_text, render_bench_block,
}
use slipstream_contracts.Harness.Bench.Merge.{IsDocument}
use slipstream_contracts.Harness.Bench.Rendered.{IsPlain, render_bench_block-IsBlock}
use slipstream_contracts.Harness.Bench.Update.{IsFaithful, merged-IsCurrent}
use slipstream_contracts.Harness.Provenance.{Machine, collect_provenance}
use slipstream_contracts.Harness.Commands.{no_counts, bench_loop, bench_patterns, bin_of, bench_cmd}
use slipstream_contracts.Harness.Commands.ExitCodes.{IsUpToDate, runner_of, bench_cmd-current}
use slipstream_contracts.Harness.Commands.Files.{IsLocal, bench_path, IsKept}
use slipstream_contracts.Harness.Commands.Kept.{IsBenched, bench_loop-IsBenched}

-- The text, where it could be read, has no marker, or one block after a text without markers.
abbrev pub IsDocumentOr : Result Text IoError → Type 0
IsDocumentOr (ok e) = IsDocument e
IsDocumentOr (err _) = Unit

some_same : (a b : ContentionDelta) → some a ≡ some b → a ≡ b
some_same a b h = cc

module _ {D : Type 0} (from_str : Parser) (M : Machine) (fs : FileSystem) (S : Disk D)
    (io_message : IoError → Text) where
  -- What the first run needs of a pattern: a name that the block can quote, and a sound file.
  abbrev pub IsReady : D → Pattern → Type 0
  IsReady d p = NotIn b'<' p.name × IsDocumentOr (existing_text (S.read_to_string (bench_path p) d))

  up_to_date :
      (prov : BenchProvenance) (d d' : D) (p : Pattern)
      → IsPlain prov
      → IsReady d p
      → IsBenched S io_message prov from_str (runner_of from_str M fs S io_message) d d' p
      → IsUpToDate from_str M fs S io_message prov d' p
  up_to_date prov d d' p plain ready h delta e =
      let kept = subst (λ o. IsKept S io_message prov p o d d') e h in
      (merged-IsCurrent S (bench_path p) (render_bench_block p.name delta prov) kept.0
        (subst IsDocumentOr kept.1 ready.1)
        (render_bench_block-IsBlock p.name delta prov ready.0 plain) d' kept.2).1

  bench_cmd-disk :
      (dir : Text) (d : D)
      → available M.platform (bin_of from_str M fs S io_message) ≡ true
      → (bench_cmd from_str M fs S io_message dir d).1
        ≡ (bench_loop S io_message
            (collect_provenance M (bin_of from_str M fs S io_message) dir)
            (discover_patterns fs dir)
            (run_all from_str (runner_of from_str M fs S io_message) (discover_patterns fs dir))
            no_counts
            d).2
  unfolding bench_cmd bench_loop
  bench_cmd-disk dir d h = rw h (of (discover_patterns fs dir))
    where
      of :
          (ps : List Pattern)
          → (bench_patterns from_str M fs S io_message dir ps d).1
            ≡ (bench_loop S io_message
                (collect_provenance M (bin_of from_str M fs S io_message) dir)
                ps
                (run_all from_str (runner_of from_str M fs S io_message) ps)
                no_counts
                d).2
      of [] = refl
      of (p ∷ ps) = refl

  -- `harness bench` is idempotent on the disk: where the binary can be launched and discovery finds
  -- patterns with different files, on a disk that reads back what it has written and where a write
  -- leaves other files alone, with names and a snapshot without `<`, and with files that have no
  -- marker or one block after a text without markers: after a first run that counts no failure, a
  -- second run with the same snapshot leaves every file as it is. It then exits with 1.
  pub bench_cmd-twice :
      (dir : Text) (d : D)
      → IsFaithful S
      → IsLocal S
      → available M.platform (bin_of from_str M fs S io_message) ≡ true
      → discover_patterns fs dir ≢ []
      → Distinct (map bench_path (discover_patterns fs dir))
      → All (IsReady d) (discover_patterns fs dir)
      → IsPlain (collect_provenance M (bin_of from_str M fs S io_message) dir)
      → (bench_loop S io_message
          (collect_provenance M (bin_of from_str M fs S io_message) dir)
          (discover_patterns fs dir)
          (run_all from_str (runner_of from_str M fs S io_message) (discover_patterns fs dir))
          no_counts
          d).0.failed
        ≡ 0
      → let d' = (bench_cmd from_str M fs S io_message dir d).1 in
        ((bench_cmd from_str M fs S io_message dir d').0.code ≡ 1)
        × ((bench_cmd from_str M fs S io_message dir d').1 ≡ d')
  bench_cmd-twice dir d faithful local h found distinct ready plain f =
      let prov = collect_provenance M (bin_of from_str M fs S io_message) dir in
      let ps = discover_patterns fs dir in
      let runner = runner_of from_str M fs S io_message in
      let benched =
        bench_loop-IsBenched S io_message prov from_str runner ps d faithful local distinct f in
      let end = (bench_loop S io_message prov ps (run_all from_str runner ps) no_counts d).2 in
      let current : All (IsUpToDate from_str M fs S io_message prov end) ps =
        All-of _ ps
          (λ p m. up_to_date prov d end p plain (All-in _ ps ready m) (All-in _ ps benched m)) in
      let e = bench_cmd-disk dir d h in
      bench_cmd-current from_str M fs S io_message dir
        (bench_cmd from_str M fs S io_message dir d).1 h found
        (subst (λ t. All (IsUpToDate from_str M fs S io_message prov t) ps) (sym e) current)
