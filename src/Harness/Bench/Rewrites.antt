-- ===== src/Harness/Bench/Rewrites.antt =====
-- Blocks that `update_bench_md` of harness/src/lib.rs writes one after the other.
use slipstream_contracts.Common.{◌≡◌, refl, ◌∙◌, List, [], ◌∷◌, All}
use slipstream_contracts.Harness.Text.{Text}
use slipstream_contracts.Harness.Bench.{merge}
use slipstream_contracts.Harness.Bench.Merge.{IsDocument, IsBlock, merge_last, merge-IsDocument}

-- The text of the file after the blocks, in their order.
abbrev pub merge_each : Text → List Text → Text
merge_each e [] = e
merge_each e (b ∷ blocks) = merge_each (merge e b) blocks

-- In a file without markers, or with one block after a text without markers, only the last text
-- written is kept: after any blocks, writing a further text gives what writing that text alone
-- gives, so that no old block stays behind, and writing a block again changes nothing.
pub merge-merge_each :
    (e : Text) (blocks : List Text) (last : Text)
    → IsDocument e
    → All IsBlock blocks
    → merge (merge_each e blocks) last ≡ merge e last
merge-merge_each e [] last doc h = refl
merge-merge_each e (b ∷ blocks) last doc h =
    merge-merge_each (merge e b) blocks last (merge-IsDocument e b doc h.0) h.1
    ∙ merge_last e b last doc h.0
