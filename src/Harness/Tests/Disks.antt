-- ===== src/Harness/Tests/Disks.antt =====
-- Runs of the commands on a disk of many files.
use slipstream_contracts.Common.{length, Bool, true, false, Result, ok, err, Option, some}
use slipstream_contracts.Harness.Bench.{not_found, IoError}
use slipstream_contracts.Harness.Commands.Failures.{IsReported, bench_loop-IsReported}
use slipstream_contracts.Harness.Commands.{bin_of, bench_cmd, no_counts, bench_loop, main}
use slipstream_contracts.Harness.Provenance.{collect_provenance, head_of}
use slipstream_contracts.Harness.Bench.{
  provenance_fields, Disk, render_bench_block, update_bench_md,
}
use slipstream_contracts.Harness.Bench.Merge.{lacks-NotIn}
use slipstream_contracts.Harness.Bench.Rendered.{IsPlain, all_lack, all_lack-NotIn}
use slipstream_contracts.Harness.Tests.Files.{title-IsClean, read_file, provenance}
use slipstream_contracts.Harness.Tests.Batches.{
  one_pattern_found, from_str, runner, batch, io_message, machine, one_pattern,
}
use slipstream_contracts.Harness.Commands.Twice.{IsReady, bench_cmd-twice}
use slipstream_contracts.Harness.Runner.Causes.{
  IsMeasured, IsFailure, diff_output, analyze_pair_causes,
}
use slipstream_contracts.Harness.Commands.OnePattern.{sides_output, main-one_pattern}
use slipstream_contracts.Common.{
  true, ◌≡◌, refl, err, ◌↔◌, ap, ◌≢◌, false, Option, none, some, [], ◌∷◌, map, All, Distinct, ok,
  Bool-cases, inl, inr, if◌then◌else◌,
}
use slipstream_contracts.Harness.Text.{lacks, Text, lit, text_eq, join_path}
use slipstream_contracts.Harness.Runner.{HarnessError, available, subprocess_runner, analyze_pair}
use slipstream_contracts.Harness.Model.{ContentionDelta}
use slipstream_contracts.Harness.Patterns.{discover_patterns, is_pattern_name, pattern_at}
use slipstream_contracts.Harness.Batch.{analyze_pattern, run_all}
use slipstream_contracts.Harness.Text.Equality.{text_eq_self, text_eq→≡}
use slipstream_contracts.Harness.Bench.Update.{IsFaithful}
use slipstream_contracts.Harness.Commands.Files.{IsLocal, bench_path}
use slipstream_contracts.Harness.Commands.Kept.{main-other}

abbrev Files : Type 0
Files = Text → Option Text

-- A disk as a function from paths to texts.
abbrev files_disk : Disk Files
files_disk = record {
  read_to_string = λ path d. read_file (d path);
  write = λ path text d. (ok tt, λ p. if text_eq p path then some text else d p);
}

files_disk-IsFaithful : IsFaithful files_disk
files_disk-IsFaithful path text d h =
    ap (λ b. read_file (if b then some text else d path)) (text_eq_self path)

files_disk-IsLocal : IsLocal files_disk
files_disk-IsLocal path other text d n = elim (Bool-cases (text_eq other path)) [
  | inl e ↦ absurd (n (text_eq→≡ other path e))
  | inr e ↦ ap (λ b. read_file (if b then some text else d other)) e
]

-- Texts that the test tells apart.
ne_text : (s t : Text) → text_eq s t ≡ false → s ≢ t
ne_text s t h e = cc (text_eq_self s)

-- Only the first pattern has a file so far.
abbrev some_files : Files
some_files path = if text_eq path (lit "p/01-a/BENCH.md") then some (lit "# Bench") else none

batch-Distinct : Distinct (map bench_path batch)
unfolding join_path text_eq
batch-Distinct = ((ne_text _ _ refl, (ne_text _ _ refl, tt)), ((ne_text _ _ refl, tt), (tt, tt)))

main-other_example :
    read_file (
      (main from_str machine one_pattern files_disk io_message
          (lit "bench" ∷ lit "p" ∷ [])
          some_files).1
        (lit "README.md"))
    ≡ read_file (some_files (lit "README.md"))
unfolding discover_patterns is_pattern_name pattern_at join_path text_eq
main-other_example =
    main-other from_str machine one_pattern files_disk io_message (lit "p" ∷ []) (lit "README.md")
      (lit "bench") some_files files_disk-IsLocal (ne_text _ _ refl, tt)

main-one_pattern_example :
    let end =
      main from_str machine one_pattern files_disk io_message (lit "p/01-a" ∷ []) some_files in
    (end.1 ≡ some_files)
    × (end.0.code ≡ 0 ↔ (
        (delta : ContentionDelta) × IsMeasured from_str machine.platform
          (sides_output from_str machine one_pattern files_disk io_message (lit "p/01-a"))
          delta))
unfolding text_eq
main-one_pattern_example =
    main-one_pattern from_str machine one_pattern files_disk io_message (lit "p/01-a") [] some_files
      refl refl

analyze_pair_causes_example :
    let output = diff_output from_str machine.platform (lit "slipstream") (lit "a") (lit "b") in
    ((d : ContentionDelta)
      → analyze_pair from_str
            (subprocess_runner machine.platform (lit "slipstream"))
            (lit "a")
            (lit "b")
          ≡ ok d
        ↔ IsMeasured from_str machine.platform output d)
    × ((x : HarnessError)
        → analyze_pair from_str
              (subprocess_runner machine.platform (lit "slipstream"))
              (lit "a")
              (lit "b")
            ≡ err x
          ↔ IsFailure from_str machine.platform output x)
analyze_pair_causes_example =
    analyze_pair_causes from_str machine.platform (lit "slipstream") (lit "a") (lit "b")

is_available :
    available machine.platform (bin_of from_str machine one_pattern files_disk io_message) ≡ true
unfolding available
is_available = refl

one_pattern-IsReady :
    All
      (IsReady from_str machine one_pattern files_disk io_message some_files)
      (discover_patterns one_pattern (lit "p"))
unfolding discover_patterns is_pattern_name pattern_at join_path text_eq lacks
one_pattern-IsReady = ((lacks-NotIn b'<' (lit "01-a") refl, inl title-IsClean), tt)

one_pattern-Distinct : Distinct (map bench_path (discover_patterns one_pattern (lit "p")))
unfolding discover_patterns is_pattern_name
one_pattern-Distinct = (tt, tt)

snapshot-IsPlain : IsPlain (
    collect_provenance machine
      (bin_of from_str machine one_pattern files_disk io_message)
      (lit "p"))
unfolding all_lack collect_provenance head_of provenance_fields
snapshot-IsPlain =
    all_lack-NotIn
      (provenance_fields (
        collect_provenance machine (bin_of from_str machine one_pattern files_disk io_message)
          (lit "p")))
      refl

bench_cmd-twice_example :
    let d' =
      (bench_cmd from_str machine one_pattern files_disk io_message (lit "p") some_files).1 in
    ((bench_cmd from_str machine one_pattern files_disk io_message (lit "p") d').0.code ≡ 1)
    × ((bench_cmd from_str machine one_pattern files_disk io_message (lit "p") d').1 ≡ d')
unfolding bench_loop update_bench_md render_bench_block analyze_pattern run_all analyze_pair text_eq
    join_path discover_patterns is_pattern_name pattern_at subprocess_runner
bench_cmd-twice_example =
    bench_cmd-twice from_str machine one_pattern files_disk io_message (lit "p") some_files
      files_disk-IsFaithful files_disk-IsLocal is_available one_pattern_found one_pattern-Distinct
      one_pattern-IsReady snapshot-IsPlain refl

-- A disk on which the file of the first pattern cannot be written.
abbrev written : Bool → Text → Text → Files → Result (Unit {0}) IoError × Files
written true path text d = (err not_found, d)
written false path text d = (ok tt, λ p. if text_eq p path then some text else d p)

abbrev locked_disk : Disk Files
locked_disk = record {
  read_to_string = λ path d. read_file (d path);
  write = λ path text d. written (text_eq path (lit "p/01-a/BENCH.md")) path text d;
}

locked_disk-IsFaithful : IsFaithful locked_disk
locked_disk-IsFaithful path text d = of (text_eq path (lit "p/01-a/BENCH.md"))
  where
    of :
        (b : Bool)
        → (written b path text d).0 ≡ ok tt
        → read_file ((written b path text d).1 path) ≡ ok text
    of true h = cc
    of false h = files_disk-IsFaithful path text d refl

locked_disk-IsLocal : IsLocal locked_disk
locked_disk-IsLocal path file text d n = of (text_eq path (lit "p/01-a/BENCH.md"))
  where
    of : (b : Bool) → read_file ((written b path text d).1 file) ≡ read_file (d file)
    of true = refl
    of false = files_disk-IsLocal path file text d n

bench_loop-IsReported_example :
    let s =
      bench_loop locked_disk io_message provenance batch
        (run_all from_str runner batch)
        no_counts
        some_files in
    (length s.1 ≡ s.0.failed)
    × All (IsReported locked_disk io_message provenance from_str runner some_files s.2 s.1) batch
bench_loop-IsReported_example =
    bench_loop-IsReported locked_disk io_message provenance from_str runner batch some_files
      locked_disk-IsFaithful locked_disk-IsLocal batch-Distinct
