-- ===== src/Harness/Bench/Update.antt =====
-- Repeated runs of `update_bench_md` of harness/src/lib.rs on one file.
use slipstream_contracts.Common.{
  ◌≡◌, refl, sym, ap, ◌∙◌, subst, Bool, false, Result, ok, err, if◌then◌else◌, Bool-cases, inl, inr,
}
use slipstream_contracts.Harness.Text.{Text, text_eq}
use slipstream_contracts.Harness.Text.Equality.{text_eq_self, text_eq→≡}
use slipstream_contracts.Harness.Bench.{
  merge, IoError, Disk, existing_text, changed, updated, update_bench_md,
}
use slipstream_contracts.Harness.Bench.Merge.{IsDocument, IsBlock, merge_last}

-- A file that was written is read back.
abbrev pub IsFaithful : {D : Type 0} → Disk D → Type 0
IsFaithful {D} S =
    (path text : Text) (d : D)
    → (S.write path text d).0 ≡ ok tt
    → S.read_to_string path (S.write path text d).1 ≡ ok text

pub changed-ok : (r : Result (Unit {0}) IoError) (c : Bool) → changed r ≡ ok c → r ≡ ok tt
changed-ok (ok tt) c h = refl
changed-ok (err e) c h = cc

module _ {D : Type 0} (S : Disk D) (path block : Text) where
  pub kept :
      (d : D) (e : Text)
      → existing_text (S.read_to_string path d) ≡ ok e
      → merge e block ≡ e
      → update_bench_md S path block d ≡ (ok false, d)
  unfolding update_bench_md
  kept d e read same =
      ap (updated S path block d) read
      ∙ ap
          (λ t.
            if t
            then (ok false, d)
            else (changed (S.write path (merge e block) d).0, (S.write path (merge e block) d).1))
          (ap (λ t. text_eq t e) same ∙ text_eq_self e)

  pub wrote :
      (d : D) (e : Text)
      → existing_text (S.read_to_string path d) ≡ ok e
      → text_eq (merge e block) e ≡ false
      → update_bench_md S path block d
        ≡ (changed (S.write path (merge e block) d).0, (S.write path (merge e block) d).1)
  unfolding update_bench_md
  wrote d e read differ =
      ap (updated S path block d) read
      ∙ ap
          (λ t.
            if t
            then (ok false, d)
            else (changed (S.write path (merge e block) d).0, (S.write path (merge e block) d).1))
          differ

  -- The file holds the text, and a further update with the block changes nothing.
  abbrev pub IsCurrent : Text → D → Type 0
  IsCurrent text d =
      (existing_text (S.read_to_string path d) ≡ ok text)
      × (update_bench_md S path block d ≡ (ok false, d))

  pub merged-IsCurrent :
      (e : Text)
      → IsDocument e
      → IsBlock block
      → (d : D) → existing_text (S.read_to_string path d) ≡ ok (merge e block)
      → IsCurrent (merge e block) d
  merged-IsCurrent e doc is_block d read =
      (read, kept d (merge e block) read (merge_last e block block doc is_block))

  -- On a disk that reads back what it has written, where the file has no marker or one block and
  -- the first update gives no error: the file then holds the merged text, and a second update with
  -- the same block reports no change and leaves the disk as it is.
  pub update_bench_md-IsCurrent :
      IsFaithful S
      → (d : D) (e : Text) (c : Bool) → existing_text (S.read_to_string path d) ≡ ok e
      → IsDocument e
      → IsBlock block
      → (update_bench_md S path block d).0 ≡ ok c
      → IsCurrent (merge e block) (update_bench_md S path block d).1
  update_bench_md-IsCurrent faithful d e c read doc is_block success =
      elim (Bool-cases (text_eq (merge e block) e)) [
        | inl same ↦
            let equal = text_eq→≡ (merge e block) e same in
            subst (λ p. IsCurrent (merge e block) p.1) (sym (kept d e read equal))
              (merged-IsCurrent e doc is_block d (read ∙ ap ok (sym equal)))
        | inr differ ↦
            let step = wrote d e read differ in
            let done =
              changed-ok (S.write path (merge e block) d).0 c
                (sym (ap (λ r. r.0) step) ∙ success) in
            subst (λ p. IsCurrent (merge e block) p.1) (sym step)
              (merged-IsCurrent e doc is_block (S.write path (merge e block) d).1
                (ap existing_text (faithful path (merge e block) d done)))
      ]
