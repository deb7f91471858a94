-- ===== src/Harness/Bench.antt =====
-- The measured block of `harness bench`: `signed_delta`, `render_bench_block` and `update_bench_md`
-- of harness/src/lib.rs. The disk is a parameter.
pub mod Deltas
pub mod Markers
pub mod Merge
pub mod Rewrites
pub mod LoneMarker
pub mod ReversedMarkers
pub mod Rendered
pub mod Update
use slipstream_contracts.Common.{
  ℕ, zero, suc, ◌+◌, Bool, true, false, ◌&&◌, Option, none, some, List, [], ◌∷◌, ◌++◌, length,
  Result, ok, err, ◌==◌, if◌then◌else◌,
}
use slipstream_contracts.Common.Int.{ℤ, pos, ltb_ℤ}
use slipstream_contracts.Harness.Text.{Text, lit, text_eq, show_int, ends_with_byte}
use slipstream_contracts.Harness.Model.{ContentionDelta}

abbrev pub bench_begin : Text
bench_begin = lit "<!-- BENCH-MEASURED-BEGIN -->"

abbrev pub bench_end : Text
bench_end = lit "<!-- BENCH-MEASURED-END -->"

pub record BenchProvenance : Type 0 where
  pub os : Text
  pub arch : Text
  pub rustc : Text
  pub slipstream_version : Text
  pub contracts_sha : Text
  pub core_sha : Text
  pub run_time : Text
  pub command : Text

unfoldable pub signed_delta : ℤ → Text
unfolding show_int
signed_delta n = if ltb_ℤ (pos 0) n then b'+' ∷ show_int n else show_int n

-- The fixed parts of the block's text between the two markers, in order.
abbrev pub bench_labels : List Text
bench_labels =
    (lit "\n\n## Measured deltas\n\n"
      ++ lit "Raw `slipstream diff naive optimized --json` deltas for `")
    ∷ (lit "`, generated by `harness bench`. "
        ++ lit "Do not hand-edit; re-run the command to refresh.\n\n"
        ++ lit "| Metric | Delta |\n| --- | --- |\n| storage writes | ")
    ∷ lit " |\n| storage reads | "
    ∷ lit " |\n| detector findings | "
    ∷ lit " |\n\n_Provenance: OS="
    ∷ lit ", arch="
    ∷ lit ", rustc="
    ∷ lit ", slipstream="
    ∷ lit ", contracts@"
    ∷ lit ", core@"
    ∷ lit ", run="
    ∷ lit ", command=`"
    ∷ lit "`_\n\n"
    ∷ []

unfoldable pub provenance_fields : BenchProvenance → List Text
provenance_fields prov =
    prov.os ∷ prov.arch ∷ prov.rustc ∷ prov.slipstream_version ∷ prov.contracts_sha ∷ prov.core_sha
    ∷ prov.run_time ∷ prov.command ∷ []

-- What stands between two labels, in order.
unfoldable pub bench_fields : Text → ContentionDelta → BenchProvenance → List Text
unfolding signed_delta provenance_fields
bench_fields pattern delta prov =
    pattern
    ∷ signed_delta delta.storage_writes_delta
    ∷ signed_delta delta.storage_reads_delta
    ∷ signed_delta delta.detector_findings_delta
    ∷ provenance_fields prov

unfoldable pub interleave : List Text → List Text → Text
interleave [] fields = []
interleave (label ∷ labels) [] = label ++ interleave labels []
interleave (label ∷ labels) (field ∷ fields) = label ++ (field ++ interleave labels fields)

unfoldable pub render_bench_block : Text → ContentionDelta → BenchProvenance → Text
unfolding bench_fields interleave
render_bench_block pattern delta prov =
    bench_begin ++ interleave bench_labels (bench_fields pattern delta prov) ++ bench_end

-- `s.starts_with(needle)`
unfoldable pub starts_with : Text → Text → Bool
starts_with [] s = true
starts_with (a ∷ needle) [] = false
starts_with (a ∷ needle) (b ∷ s) = a == b && starts_with needle s

abbrev pub later : Option ℕ → Option ℕ
later none = none
later (some i) = some (suc i)

-- `s.find(needle)`, the place of the first byte of the first match.
unfoldable pub find : Text → Text → Option ℕ
unfolding starts_with
find needle [] = if starts_with needle [] then some 0 else none
find needle (b ∷ s) =
    let rest = find needle s in if starts_with needle (b ∷ s) then some 0 else later rest

-- `&s[..n]` and `&s[n..]`
abbrev pub take : ℕ → Text → Text
take zero s = []
take (suc n) [] = []
take (suc n) (b ∷ s) = b ∷ take n s

abbrev pub drop : ℕ → Text → Text
drop zero s = s
drop (suc n) [] = []
drop (suc n) (b ∷ s) = drop n s

-- What goes between the file and a block that is appended.
unfoldable pub separator : Text → Text
unfolding ends_with_byte
separator [] = []
separator (b ∷ s) = if ends_with_byte b'\n' (b ∷ s) then lit "\n" else lit "\n\n"

abbrev pub spliced : Text → Text → Option ℕ → Option ℕ → Text
spliced existing block (some begin) (some end) =
    take begin existing ++ block ++ drop (end + length bench_end) existing
spliced existing block (some _) none = existing ++ separator existing ++ block ++ lit "\n"
spliced existing block none _ = existing ++ separator existing ++ block ++ lit "\n"

-- The new text of the file.
unfoldable pub merge : Text → Text → Text
unfolding find separator
merge existing block = spliced existing block (find bench_begin existing) (find bench_end existing)

pub data IoError : Type 0 where
  not_found : IoError
  other : Text → IoError

-- The disk: a file is read, or written whole. A failed write may leave anything behind.
pub record Disk (D : Type 0) : Type 0 where
  pub read_to_string : Text → D → Result Text IoError
  pub write : Text → Text → D → Result (Unit {0}) IoError × D

-- The text of the file, empty where there is none yet.
abbrev pub existing_text : Result Text IoError → Result Text IoError
existing_text (ok s) = ok s
existing_text (err not_found) = ok []
existing_text (err (other e)) = err (other e)

abbrev pub changed : Result (Unit {0}) IoError → Result Bool IoError
changed (ok _) = ok true
changed (err e) = err e

module _ {D : Type 0} (S : Disk D) where
  abbrev pub updated : Text → Text → D → Result Text IoError → Result Bool IoError × D
  updated path block d (err e) = (err e, d)
  updated path block d (ok existing) =
      let new = merge existing block in
      if text_eq new existing
      then (ok false, d)
      else (changed (S.write path new d).0, (S.write path new d).1)

  -- The flag tells whether the file changed.
  unfoldable pub update_bench_md : Text → Text → D → Result Bool IoError × D
  unfolding merge text_eq
  update_bench_md path block d = updated path block d (existing_text (S.read_to_string path d))
