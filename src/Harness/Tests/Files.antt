-- ===== src/Harness/Tests/Files.antt =====
-- Runs of `update_bench_md` and `render_bench_block`.
use slipstream_contracts.Harness.Bench.ReversedMarkers.{merge_each_reversed}
use slipstream_contracts.Common.{
  ◌≡◌, refl, true, Option, none, some, [], ◌∷◌, ◌++◌, NotIn, Result, ok, err, inl, inr,
}
use slipstream_contracts.Common.Int.{pos, negsuc}
use slipstream_contracts.Harness.Text.{Text, lit, digits, show_nat, show_int, lacks}
use slipstream_contracts.Harness.Model.{ContentionDelta}
use slipstream_contracts.Harness.Bench.{
  bench_begin, bench_end, BenchProvenance, provenance_fields, signed_delta, render_bench_block,
  find, starts_with, merge, IoError, not_found, Disk, update_bench_md,
}
use slipstream_contracts.Harness.Bench.Merge.{IsClean, IsBlock, IsDocument, lacks-NotIn}
use slipstream_contracts.Harness.Bench.Rewrites.{merge_each, merge-merge_each}
use slipstream_contracts.Harness.Bench.LoneMarker.{merge_lone_begin}
use slipstream_contracts.Harness.Bench.Rendered.{
  all_lack, all_lack-NotIn, IsPlain, render_bench_block-IsBlock,
}
use slipstream_contracts.Harness.Bench.Update.{IsFaithful}

abbrev pub read_file : Option Text → Result Text IoError
read_file none = err not_found
read_file (some t) = ok t

abbrev pub disk : Disk (Option Text)
disk = record { read_to_string = λ path d. read_file d; write = λ path text d. (ok tt, some text) }

disk-IsFaithful : IsFaithful disk
disk-IsFaithful path text d h = refl

abbrev block : Text → Text
block mid = bench_begin ++ mid ++ bench_end

pub title-IsClean : IsClean (lit "# Bench")
unfolding find starts_with
title-IsClean = (refl, refl)

block_a-IsBlock : IsBlock (block (lit "a"))
unfolding find starts_with
block_a-IsBlock = (lit "a", refl, refl)

abbrev title_with_block : Text
title_with_block = lit "# Bench" ++ block (lit "a") ++ lit "notes"

title_with_block-IsDocument : IsDocument title_with_block
title_with_block-IsDocument =
    inr (lit "# Bench", block (lit "a"), lit "notes", title-IsClean, block_a-IsBlock, refl)

block_b-IsBlock : IsBlock (block (lit "b"))
unfolding find starts_with
block_b-IsBlock = (lit "b", refl, refl)

merge-merge_each_example :
    merge (merge_each title_with_block (block (lit "b") ∷ block (lit "a") ∷ [])) (block (lit "b"))
    ≡ merge title_with_block (block (lit "b"))
merge-merge_each_example =
    merge-merge_each title_with_block (block (lit "b") ∷ block (lit "a") ∷ []) (block (lit "b"))
      title_with_block-IsDocument (block_b-IsBlock, (block_a-IsBlock, tt))

no_end_in_rest : find bench_end (lit "kept by hand") ≡ none
unfolding find starts_with
no_end_in_rest = refl

merge_lone_begin_example :
    merge
      (merge (lit "# Bench" ++ (bench_begin ++ lit "kept by hand")) (block (lit "a")))
      (block (lit "a"))
    ≡ lit "# Bench" ++ block (lit "a") ++ lit "\n"
merge_lone_begin_example =
    merge_lone_begin (lit "# Bench") (lit "kept by hand") (block (lit "a")) (block (lit "a"))
      title-IsClean no_end_in_rest block_a-IsBlock

-- A file without a block gets one at its end.
merge-append_test :
    merge (lit "# Bench") (block (lit "a")) ≡ lit "# Bench\n\n" ++ block (lit "a") ++ lit "\n"
unfolding merge
merge-append_test = refl

update_succeeds : (update_bench_md disk (lit "f") (block (lit "a")) none).0 ≡ ok true
unfolding update_bench_md
update_succeeds = refl

empty-IsDocument : IsDocument []
unfolding find starts_with
empty-IsDocument = inl (refl, refl)

abbrev pub provenance : BenchProvenance
provenance = record {
  os = lit "linux";
  arch = lit "x86_64";
  rustc = lit "rustc 1.89.0";
  slipstream_version = lit "unknown";
  contracts_sha = lit "0a1b";
  core_sha = lit "unknown";
  run_time = lit "1700000000";
  command = lit "slipstream-harness bench";
}

abbrev pub fewer_writes : ContentionDelta
fewer_writes = record {
  storage_writes_delta = negsuc 1;
  storage_reads_delta = pos 3;
  detector_findings_delta = pos 0;
}

name-plain : NotIn b'<' (lit "01-sharded-counter")
unfolding lacks
name-plain = lacks-NotIn b'<' (lit "01-sharded-counter") refl

provenance-IsPlain : IsPlain provenance
unfolding all_lack provenance_fields
provenance-IsPlain = all_lack-NotIn (provenance_fields provenance) refl

render_bench_block-IsBlock_example :
    IsBlock (render_bench_block (lit "01-sharded-counter") fewer_writes provenance)
render_bench_block-IsBlock_example =
    render_bench_block-IsBlock (lit "01-sharded-counter") fewer_writes provenance name-plain
      provenance-IsPlain

signed_delta_test : signed_delta (pos 120) ≡ lit "+120"
unfolding signed_delta show_int show_nat digits
signed_delta_test = refl

swapped_end : find bench_end (lit "# Bench") ≡ none
unfolding find starts_with
swapped_end = refl

swapped_begin : find bench_begin (lit "# Bench" ++ bench_end ++ lit "notes") ≡ none
unfolding find starts_with
swapped_begin = refl

merge_each_reversed_example :
    merge_each
      (lit "# Bench" ++ bench_end ++ lit "notes" ++ (bench_begin ++ lit "!"))
      (block (lit "a") ∷ block (lit "a") ∷ [])
    ≡ lit "# Bench"
      ++ bench_end
      ++ lit "notes"
      ++ (block (lit "a")
          ++ (lit "notes" ++ (block (lit "a") ++ (lit "notes" ++ (bench_begin ++ lit "!")))))
merge_each_reversed_example =
    merge_each_reversed (lit "# Bench") (lit "notes") swapped_end swapped_begin
      (block (lit "a") ∷ block (lit "a") ∷ []) (lit "!") (block_a-IsBlock, (block_a-IsBlock, tt))
