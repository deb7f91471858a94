-- ===== src/Harness/Bench/Merge.antt =====
-- What `update_bench_md` of harness/src/lib.rs makes of the text of a file.
use slipstream_contracts.Common.{
  ℕ, ◌+◌, ◌≡◌, refl, sym, ap, ◌∙◌, subst, ◌⊎◌, inl, inr, true, false, Bool-cases, if◌then◌else◌,
  ◌==◌, eq_self, none, some, [], ◌∷◌, ◌++◌, length, length-append, append_assoc, append-nil, NotIn,
}
use slipstream_contracts.Harness.Text.{Text, lit, lacks, ends_with_byte}
use slipstream_contracts.Harness.Bench.{
  bench_begin, bench_end, starts_with, find, take, drop, separator, merge,
}
use slipstream_contracts.Harness.Bench.Markers.{
  shift, shift-none, shift-some, find-append, find_self, take-append, drop-append,
}

-- The text has neither marker.
abbrev pub IsClean : Text → Type 0
IsClean t = (find bench_begin t ≡ none) × (find bench_end t ≡ none)

-- A block as the code writes one: the markers around a text without the end marker.
abbrev pub IsBlock : Text → Type 0
IsBlock b = (mid : Text) × (find bench_end mid ≡ none) × (b ≡ bench_begin ++ mid ++ bench_end)

-- A file without a block, or with one block after a clean text.
abbrev pub IsDocument : Text → Type 0
IsDocument e =
    IsClean e
    ⊎ (pre : Text) × (b : Text) × (post : Text) × IsClean pre × IsBlock b × (e ≡ pre ++ b ++ post)

-- The first byte of the markers, and the rest of each.
abbrev begin_rest : Text
begin_rest = lit "!-- BENCH-MEASURED-BEGIN -->"

abbrev pub end_rest : Text
end_rest = lit "!-- BENCH-MEASURED-END -->"

pub lacks-NotIn : (c : ℕ) (t : Text) → lacks c t ≡ true → NotIn c t
unfolding lacks
lacks-NotIn c [] h = tt
lacks-NotIn c (b ∷ t) h = elim (Bool-cases (c == b)) [
  | inl e ↦ absurd (false_true (sym (ap (λ r. if r then false else lacks c t) e) ∙ h))
  | inr e ↦ (
    λ q. false_true (sym e ∙ rw (q, eq_self b)),
    lacks-NotIn c t (sym (ap (λ r. if r then false else lacks c t) e) ∙ h),
  )
]
  where
    false_true : false ≡ true → ⊥
    false_true e = cc

begin_stops : NotIn b'<' begin_rest
unfolding lacks
begin_stops = lacks-NotIn b'<' begin_rest refl

end_stops : NotIn b'<' end_rest
unfolding lacks
end_stops = lacks-NotIn b'<' end_rest refl

end_in_begin : (t : Text) → find bench_end t ≡ none → find bench_end (bench_begin ++ t) ≡ none
unfolding find starts_with
end_in_begin t h = ap (shift 29) h

pub find_begin :
    (pre u : Text)
    → find bench_begin pre ≡ none
    → find bench_begin (pre ++ (bench_begin ++ u)) ≡ some (length pre)
find_begin pre u h =
    find-append b'<' b'<' begin_rest pre (begin_rest ++ u) begin_stops h
    ∙ ap (shift (length pre)) (find_self bench_begin u)
    ∙ shift-some (length pre)

pub find_end :
    (x post : Text)
    → find bench_end x ≡ none
    → find bench_end (x ++ (bench_end ++ post)) ≡ some (length x)
find_end x post h =
    find-append b'<' b'<' end_rest x (end_rest ++ post) end_stops h
    ∙ ap (shift (length x)) (find_self bench_end post)
    ∙ shift-some (length x)

pub no_end :
    (pre mid : Text)
    → find bench_end pre ≡ none
    → find bench_end mid ≡ none
    → find bench_end (pre ++ (bench_begin ++ mid)) ≡ none
no_end pre mid h k =
    find-append b'<' b'<' end_rest pre (begin_rest ++ mid) end_stops h
    ∙ ap (shift (length pre)) (end_in_begin mid k)
    ∙ shift-none (length pre)

pub replaced :
    (e block pre r x post : Text)
    → e ≡ pre ++ r
    → e ≡ (x ++ bench_end) ++ post
    → find bench_begin e ≡ some (length pre)
    → find bench_end e ≡ some (length x)
    → merge e block ≡ pre ++ block ++ post
unfolding merge
replaced e block pre r x post e_pre e_post at_begin at_end = rw (at_begin, at_end, joined)
  where
    joined :
        take (length pre) e ++ block ++ drop (length x + length bench_end) e ≡ pre ++ block ++ post
    joined =
        ap (λ t. t ++ block ++ drop (length x + length bench_end) e)
          (ap (take (length pre)) e_pre ∙ take-append pre r)
        ∙ ap (λ t. pre ++ block ++ t)
            (ap (λ k. drop k e) (sym (length-append x bench_end))
              ∙ ap (drop (length (x ++ bench_end))) e_post
              ∙ drop-append (x ++ bench_end) post)

pub replace_marked :
    (pre mid post block : Text)
    → IsClean pre
    → find bench_end mid ≡ none
    → merge (pre ++ (bench_begin ++ mid ++ bench_end) ++ post) block ≡ pre ++ block ++ post
replace_marked pre mid post block clean h =
    replaced e block pre (b ++ post) x post (append_assoc pre b post) at_end
      (ap (find bench_begin) at_begin ∙ find_begin pre _ clean.0)
      (ap (find bench_end) (at_end ∙ append_assoc x bench_end post)
        ∙ find_end x post (no_end pre mid clean.1 h))
  where
    b : Text
    b = bench_begin ++ mid ++ bench_end

    x : Text
    x = pre ++ (bench_begin ++ mid)

    e : Text
    e = pre ++ b ++ post

    at_begin : e ≡ pre ++ (bench_begin ++ (mid ++ bench_end ++ post))
    at_begin =
        append_assoc pre b post
        ∙ ap (λ t. pre ++ (t ++ post)) (append_assoc bench_begin mid bench_end)
        ∙ ap (λ t. pre ++ t) (append_assoc bench_begin (mid ++ bench_end) post)

    at_end : e ≡ x ++ bench_end ++ post
    at_end = ap (λ t. t ++ post) (sym (append_assoc pre (bench_begin ++ mid) bench_end))

-- A new text takes the place of the block in a file: the text before the block, where it has
-- neither marker, and all text after it are kept.
replace_block :
    (pre b post block : Text)
    → IsClean pre
    → IsBlock b
    → merge (pre ++ b ++ post) block ≡ pre ++ block ++ post
replace_block pre b post block clean (mid, h, e) =
    ap (λ b. merge (pre ++ b ++ post) block) e ∙ replace_marked pre mid post block clean h

pub append_block :
    (e block : Text) → IsClean e → merge e block ≡ e ++ separator e ++ block ++ lit "\n"
unfolding merge
append_block e block h = rw h.0

pub separator-cases :
    (e : Text)
    → (separator e ≡ []) × (e ≡ []) ⊎ (t : Text) × (separator e ≡ b'\n' ∷ t) × IsClean (b'\n' ∷ t)
unfolding separator find starts_with
separator-cases [] = inl (refl, refl)
separator-cases (b ∷ s) = elim (Bool-cases (ends_with_byte b'\n' (b ∷ s))) [
  | inl h ↦ inr ([], ap (λ r. if r then lit "\n" else lit "\n\n") h, (refl, refl))
  | inr h ↦ inr (lit "\n", ap (λ r. if r then lit "\n" else lit "\n\n") h, (refl, refl))
]

newline-IsClean : (e t : Text) → IsClean e → IsClean (b'\n' ∷ t) → IsClean (e ++ b'\n' ∷ t)
unfolding lacks
newline-IsClean e t h k = (
  find-append b'<' b'\n' begin_rest e t (lacks-NotIn b'\n' begin_rest refl) h.0
      ∙ ap (shift (length e)) k.0
      ∙ shift-none (length e),
  find-append b'<' b'\n' end_rest e t (lacks-NotIn b'\n' end_rest refl) h.1
      ∙ ap (shift (length e)) k.1
      ∙ shift-none (length e),
)

pub separator-IsClean : (e : Text) → IsClean e → IsClean (e ++ separator e)
separator-IsClean e h = elim (separator-cases e) [
  | inl (s, n) ↦ subst IsClean (sym (ap (λ t. e ++ t) s ∙ append-nil e)) h
  | inr (t, s, c) ↦ subst IsClean (sym (ap (λ r. e ++ r) s)) (newline-IsClean e t h c)
]

-- In a file without markers or with one block, only the last text written is kept: writing a block
-- and then another text gives what writing the other alone gives, and with the same block twice,
-- the second time changes nothing.
pub merge_last :
    (e first second : Text)
    → IsDocument e
    → IsBlock first
    → merge (merge e first) second ≡ merge e second
merge_last e first second (inl clean) block =
    ap (λ t. merge t second) (append_block e first clean)
    ∙ replace_block (e ++ separator e) first (lit "\n") second (separator-IsClean e clean) block
    ∙ sym (append_block e second clean)
merge_last e first second (inr (pre, b, post, clean, old, s)) block =
    ap (λ t. merge t second) (ap (λ t. merge t first) s ∙ replace_block pre b post first clean old)
    ∙ replace_block pre first post second clean block
    ∙ sym (ap (λ t. merge t second) s ∙ replace_block pre b post second clean old)

-- Writing a block into a file without markers, or with one block after a text without markers,
-- gives a file with one block after such a text.
pub merge-IsDocument : (e block : Text) → IsDocument e → IsBlock block → IsDocument (merge e block)
merge-IsDocument e block (inl clean) h =
    inr
      (e ++ separator e, block, lit "\n", separator-IsClean e clean, h, append_block e block clean)
merge-IsDocument e block (inr (pre, b, post, clean, old, s)) h = inr (
  pre,
  block,
  post,
  clean,
  h,
  ap (λ t. merge t block) s ∙ replace_block pre b post block clean old,
)
