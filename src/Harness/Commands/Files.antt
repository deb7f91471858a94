-- ===== src/Harness/Commands/Files.antt =====
-- The files that the loop of `bench_cmd` and `main` of harness/src/main.rs read and write.
use slipstream_contracts.Common.{
  ◌≡◌, refl, sym, ap, ◌∙◌, subst, ◌≢◌, inl, inr, Bool, Option, none, some, List, [], ◌∷◌, All,
  Result, ok, err, if_of, Bool-cases,
}
use slipstream_contracts.Harness.Text.{Text, lit, text_eq, join_path}
use slipstream_contracts.Harness.Model.{ContentionDelta}
use slipstream_contracts.Harness.Patterns.{Pattern}
use slipstream_contracts.Harness.Batch.{PatternResult}
use slipstream_contracts.Harness.Bench.{
  BenchProvenance, merge, IoError, Disk, existing_text, updated, render_bench_block,
  update_bench_md,
}
use slipstream_contracts.Harness.Text.Equality.{text_eq→≡}
use slipstream_contracts.Harness.Bench.Update.{IsFaithful, kept, wrote, changed-ok}
use slipstream_contracts.Harness.Cli.{Counts}
use slipstream_contracts.Harness.Commands.{bench_step, bench_loop}

-- A write leaves the files at other paths alone.
abbrev pub IsLocal : {D : Type 0} → Disk D → Type 0
IsLocal {D} S =
    (path other text : Text) (d : D)
    → other ≢ path
    → S.read_to_string other (S.write path text d).1 ≡ S.read_to_string other d

-- The file that `bench_cmd` keeps for a pattern.
abbrev pub bench_path : Pattern → Text
bench_path p = join_path p.dir (lit "BENCH.md")

-- The text of the file is the earlier text with the block merged in.
abbrev pub IsMerged : {D : Type 0} → Disk D → Text → Text → D → D → Type 0
IsMerged S path block d d' =
    (e : Text) × (existing_text (S.read_to_string path d) ≡ ok e)
    × (existing_text (S.read_to_string path d') ≡ ok (merge e block))

ok_err : {A B : Type 0} {a : A} {b : B} → ◌≡◌ {A = Result A B} (err b) (ok a) → ⊥
ok_err h = cc

module _ {D : Type 0} (S : Disk D) (path block : Text) (d : D) where
  update_bench_md-other :
      IsLocal S
      → (other : Text) → other ≢ path
      → S.read_to_string other (update_bench_md S path block d).1 ≡ S.read_to_string other d
  unfolding update_bench_md
  update_bench_md-other local other n = of (existing_text (S.read_to_string path d))
    where
      of :
          (r : Result Text IoError)
          → S.read_to_string other (updated S path block d r).1 ≡ S.read_to_string other d
      of (err e) = refl
      of (ok e) =
          if_of
            (λ (x : Result Bool IoError × D). S.read_to_string other x.1 ≡ S.read_to_string other d)
            (text_eq (merge e block) e) (λ _. refl) (λ _. local path other (merge e block) d n)

  unreadable :
      (e : IoError)
      → existing_text (S.read_to_string path d) ≡ err e
      → (update_bench_md S path block d).0 ≡ err e
  unfolding update_bench_md
  unreadable e h = ap (λ r. (updated S path block d r).0) h

  pub update_bench_md-IsMerged :
      IsFaithful S
      → (c : Bool) → (update_bench_md S path block d).0 ≡ ok c
      → IsMerged S path block d (update_bench_md S path block d).1
  update_bench_md-IsMerged faithful c success = of (existing_text (S.read_to_string path d)) refl
    where
      of :
          (r : Result Text IoError)
          → existing_text (S.read_to_string path d) ≡ r
          → IsMerged S path block d (update_bench_md S path block d).1
      of (err e) h = absurd (ok_err (sym (unreadable e h) ∙ success))
      of (ok e) h = elim (Bool-cases (text_eq (merge e block) e)) [
        | inl same ↦
            let equal = text_eq→≡ (merge e block) e same in
            subst (λ p. IsMerged S path block d p.1) (sym (kept S path block d e h equal))
              (e, h, h ∙ ap ok (sym equal))
        | inr differ ↦
            let step = wrote S path block d e h differ in
            let done =
              changed-ok (S.write path (merge e block) d).0 c
                (sym (ap (λ r. r.0) step) ∙ success) in
            subst (λ p. IsMerged S path block d p.1) (sym step)
              (e, h, ap existing_text (faithful path (merge e block) d done))
      ]

module _ {D : Type 0} (S : Disk D) (io_message : IoError → Text) (prov : BenchProvenance) where
  -- What the loop leaves at a path that is not the file of one of the patterns.
  pub bench_step-other :
      IsLocal S
      → (path : Text) (p : Pattern) (o : Option ContentionDelta) (c : Counts) (d : D)
      → path ≢ bench_path p
      → S.read_to_string path (bench_step S io_message prov p o c d).2 ≡ S.read_to_string path d
  unfolding bench_step
  bench_step-other local path p none c d n = refl
  bench_step-other local path p (some delta) c d n =
      update_bench_md-other S (bench_path p) (render_bench_block p.name delta prov) d local path n

  pub bench_loop-other :
      IsLocal S
      → (path : Text) (ps : List Pattern) (results : List PatternResult) (c : Counts) (d : D)
      → All (λ p. path ≢ bench_path p) ps
      → S.read_to_string path (bench_loop S io_message prov ps results c d).2
        ≡ S.read_to_string path d
  unfolding bench_loop
  bench_loop-other local path [] results c d h = refl
  bench_loop-other local path (p ∷ ps) [] c d h = refl
  bench_loop-other local path (p ∷ ps) (r ∷ results) c d h =
      let s = bench_step S io_message prov p r.delta c d in
      bench_loop-other local path ps results s.0 s.2 h.1
      ∙ bench_step-other local path p r.delta c d h.0

  -- A pattern with a delta has its block merged into its file; the file of any other is as it was.
  abbrev pub IsKept : Pattern → Option ContentionDelta → D → D → Type 0
  IsKept p none d d' = S.read_to_string (bench_path p) d' ≡ S.read_to_string (bench_path p) d
  IsKept p (some delta) d d' = IsMerged S (bench_path p) (render_bench_block p.name delta prov) d d'

  -- What is kept for a pattern depends on its file alone.
  pub IsKept-same :
      (p : Pattern) (o : Option ContentionDelta) (d d' e e' : D)
      → S.read_to_string (bench_path p) e ≡ S.read_to_string (bench_path p) d
      → S.read_to_string (bench_path p) e' ≡ S.read_to_string (bench_path p) d'
      → IsKept p o d d'
      → IsKept p o e e'
  IsKept-same p none d d' e e' before after h = after ∙ h ∙ sym before
  IsKept-same p (some delta) d d' e e' before after (t, h, k) =
      (t, ap existing_text before ∙ h, ap existing_text after ∙ k)
