-- ===== src/Harness/Bench/ReversedMarkers.antt =====
-- `update_bench_md` of harness/src/lib.rs on a file whose end marker stands before its begin marker.
use slipstream_contracts.Common.{
  ◌≡◌, refl, sym, ap, ◌∙◌, none, List, [], ◌∷◌, ◌++◌, append_assoc, All,
}
use slipstream_contracts.Harness.Text.{Text}
use slipstream_contracts.Harness.Bench.{bench_begin, bench_end, find, merge}
use slipstream_contracts.Harness.Bench.Merge.{IsBlock, find_begin, find_end, replaced}
use slipstream_contracts.Harness.Bench.Rewrites.{merge_each}

-- The blocks, the last one first, each with a copy of `between` after it, and then the rest.
abbrev pub piled : Text → List Text → Text → Text
piled between [] rest = rest
piled between (b ∷ blocks) rest = piled between blocks (b ++ (between ++ rest))

module _ (pre between : Text) (no_end : find bench_end pre ≡ none)
    (no_begin : find bench_begin (pre ++ bench_end ++ between) ≡ none) where
  merge_between :
      (rest block : Text)
      → merge (pre ++ bench_end ++ between ++ (bench_begin ++ rest)) block
        ≡ pre ++ bench_end ++ between ++ (block ++ (between ++ (bench_begin ++ rest)))
  merge_between rest block =
      replaced e block (pre ++ bench_end ++ between) (bench_begin ++ rest) pre
        (between ++ (bench_begin ++ rest)) refl split
        (find_begin (pre ++ bench_end ++ between) rest no_begin)
        (ap (find bench_end) (split ∙ append_assoc pre bench_end (between ++ (bench_begin ++ rest)))
          ∙ find_end pre (between ++ (bench_begin ++ rest)) no_end)
      ∙ append_assoc (pre ++ bench_end ++ between) block (between ++ (bench_begin ++ rest))
    where
      e : Text
      e = pre ++ bench_end ++ between ++ (bench_begin ++ rest)

      split : e ≡ pre ++ bench_end ++ (between ++ (bench_begin ++ rest))
      split = append_assoc (pre ++ bench_end) between (bench_begin ++ rest)

  -- In a file whose first end marker stands before its first begin marker, no write of a block, the
  -- two markers around a text without the end marker, replaces anything: each puts its block before
  -- the begin marker and repeats the text between the two markers after it, so that the file grows
  -- with every write, of the same block too.
  pub merge_each_reversed :
      (blocks : List Text) (rest : Text)
      → All IsBlock blocks
      → merge_each (pre ++ bench_end ++ between ++ (bench_begin ++ rest)) blocks
        ≡ pre ++ bench_end ++ between ++ piled between blocks (bench_begin ++ rest)
  merge_each_reversed [] rest h = refl
  merge_each_reversed (b ∷ blocks) rest ((mid, _, e), h) =
      let next = mid ++ bench_end ++ (between ++ (bench_begin ++ rest)) in
      let opened : b ++ (between ++ (bench_begin ++ rest)) ≡ bench_begin ++ next =
        ap (λ t. t ++ (between ++ (bench_begin ++ rest)))
          (e ∙ append_assoc bench_begin mid bench_end)
        ∙ append_assoc bench_begin (mid ++ bench_end) (between ++ (bench_begin ++ rest)) in
      ap (λ t. merge_each t blocks)
        (merge_between rest b ∙ ap (λ t. pre ++ bench_end ++ between ++ t) opened)
      ∙ merge_each_reversed blocks next h
      ∙ ap (λ t. pre ++ bench_end ++ between ++ piled between blocks t) (sym opened)
