-- ===== src/Harness/Bench/Rendered.antt =====
-- The markers in what `render_bench_block` of harness/src/lib.rs writes.
use slipstream_contracts.Common.{
  ◌≡◌, ◌≢◌, refl, Bool, ◌&&◌, true, List, [], ◌∷◌, All, All-append, NotIn, if_of, and_parts, arith,
}
use slipstream_contracts.Common.Int.{ℤ, pos, ltb_ℤ}
use slipstream_contracts.Harness.Text.{Text, show_int, lacks}
use slipstream_contracts.Harness.Text.Digits.{All-show_int}
use slipstream_contracts.Harness.Model.{ContentionDelta}
use slipstream_contracts.Harness.Bench.{
  BenchProvenance, signed_delta, bench_labels, bench_fields, provenance_fields, interleave,
  render_bench_block,
}
use slipstream_contracts.Harness.Bench.Markers.{find-clean}
use slipstream_contracts.Harness.Bench.Merge.{IsBlock, end_rest, lacks-NotIn}

NotIn-show_int : (n : ℤ) → NotIn b'<' (show_int n)
NotIn-show_int = All-show_int (λ b. b'<' ≢ b) (λ d small q. omega arith) (λ q. omega arith)

NotIn-signed_delta : (n : ℤ) → NotIn b'<' (signed_delta n)
unfolding signed_delta
NotIn-signed_delta n =
    if_of (NotIn b'<') (ltb_ℤ (pos 0) n) (λ _. ((λ q. omega arith), NotIn-show_int n))
      (λ _. NotIn-show_int n)

NotIn-interleave :
    (labels fields : List Text)
    → All (NotIn b'<') labels
    → All (NotIn b'<') fields
    → NotIn b'<' (interleave labels fields)
unfolding interleave
NotIn-interleave [] fields h k = tt
NotIn-interleave (l ∷ labels) [] h k = All-append _ l _ h.0 (NotIn-interleave labels [] h.1 k)
NotIn-interleave (l ∷ labels) (f ∷ fields) h k =
    All-append _ l _ h.0 (All-append _ f _ k.0 (NotIn-interleave labels fields h.1 k.1))

unfoldable pub all_lack : List Text → Bool
unfolding lacks
all_lack [] = true
all_lack (s ∷ ss) = lacks b'<' s && all_lack ss

pub all_lack-NotIn : (ss : List Text) → all_lack ss ≡ true → All (NotIn b'<') ss
unfolding all_lack
all_lack-NotIn [] h = tt
all_lack-NotIn (s ∷ ss) h =
    let parts = and_parts (lacks b'<' s) (all_lack ss) h in
    (lacks-NotIn b'<' s parts.0, all_lack-NotIn ss parts.1)

-- No text of the snapshot has a `<`.
abbrev pub IsPlain : BenchProvenance → Type 0
IsPlain prov = All (NotIn b'<') (provenance_fields prov)

-- The rendered block is the two markers around a text without the end marker, whatever the
-- deltas are, where the pattern's name and the snapshot have no `<`.
pub render_bench_block-IsBlock :
    (pattern : Text) (delta : ContentionDelta) (prov : BenchProvenance)
    → NotIn b'<' pattern
    → IsPlain prov
    → IsBlock (render_bench_block pattern delta prov)
unfolding render_bench_block all_lack
render_bench_block-IsBlock pattern delta prov h k =
    let fields = bench_fields pattern delta prov in
    (
      interleave bench_labels fields,
      find-clean b'<' end_rest _ (
          NotIn-interleave bench_labels fields (all_lack-NotIn bench_labels refl) (
            h,
            (
              NotIn-signed_delta delta.storage_writes_delta,
              (
                NotIn-signed_delta delta.storage_reads_delta,
                (NotIn-signed_delta delta.detector_findings_delta, k),
              ),
            ),
          )),
      refl,
    )
