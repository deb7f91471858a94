-- ===== src/Harness/Bench/LoneMarker.antt =====
-- `update_bench_md` of harness/src/lib.rs on a file with a begin marker and no end marker.
use slipstream_contracts.Common.{
  ℕ, ◌≡◌, refl, ap, ◌∙◌, inl, inr, none, some, ◌++◌, length, append_assoc, append-nil,
}
use slipstream_contracts.Harness.Text.{Text, lit, lacks}
use slipstream_contracts.Harness.Bench.{bench_begin, bench_end, find, separator, merge}
use slipstream_contracts.Harness.Bench.Markers.{shift, shift-none, find-append}
use slipstream_contracts.Harness.Bench.Merge.{
  IsClean, IsBlock, end_rest, lacks-NotIn, find_begin, no_end, replace_marked, separator-cases,
}

append_begin :
    (e block : Text) (k : ℕ)
    → find bench_begin e ≡ some k
    → find bench_end e ≡ none
    → merge e block ≡ e ++ separator e ++ block ++ lit "\n"
unfolding merge
append_begin e block k h n = rw (h, n)

end_separator : (t e : Text) → find bench_end t ≡ none → find bench_end (t ++ separator e) ≡ none
unfolding lacks
end_separator t e h = elim (separator-cases e) [
  | inl (s, _) ↦ ap (λ s. find bench_end (t ++ s)) s ∙ ap (find bench_end) (append-nil t) ∙ h
  | inr (u, s, c) ↦
      ap (λ s. find bench_end (t ++ s)) s
      ∙ find-append b'<' b'\n' end_rest t u (lacks-NotIn b'\n' end_rest refl) h
      ∙ ap (shift (length t)) c.1
      ∙ shift-none (length t)
]

regroup :
    (p b r s m z n : Text)
    → p ++ (b ++ r) ++ s ++ (b ++ m ++ z) ++ n ≡ p ++ (b ++ (r ++ s ++ (b ++ m)) ++ z) ++ n
regroup p b r s m z n = simp append_assoc

-- In a file with a begin marker but no end marker after it, and neither marker before it, the
-- first block goes to the end; the second write replaces all text from the first marker to the end
-- of that block.
pub merge_lone_begin :
    (pre rest first second : Text)
    → IsClean pre
    → find bench_end rest ≡ none
    → IsBlock first
    → merge (merge (pre ++ (bench_begin ++ rest)) first) second ≡ pre ++ second ++ lit "\n"
merge_lone_begin pre rest first second clean h (mid, k, b) =
    ap (λ t. merge t second)
      (append_begin e first (length pre) (find_begin pre rest clean.0) (no_end pre rest clean.1 h)
        ∙ ap (λ t. e ++ separator e ++ t ++ lit "\n") b
        ∙ regroup pre bench_begin rest (separator e) mid bench_end (lit "\n"))
    ∙ replace_marked pre (rest ++ separator e ++ (bench_begin ++ mid)) (lit "\n") second clean
        (no_end (rest ++ separator e) mid (end_separator rest e h) k)
  where
    e : Text
    e = pre ++ (bench_begin ++ rest)
