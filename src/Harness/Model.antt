-- ===== src/Harness/Model.antt =====
-- harness/src/model.rs, and the contention delta of harness/src/lib.rs.
use slipstream_contracts.Common.{ℕ, Bool, ◌&&◌, Option, List, [], ◌∷◌}
use slipstream_contracts.Common.Int.{ℤ, pos, ltb_ℤ, leb_ℤ}
use slipstream_contracts.Harness.Text.{Text, lit, join}

pub record SideReport : Type 0 where
  pub path : Text
  pub files : ℕ
  pub functions : ℕ
  pub storage_reads : ℕ
  pub storage_writes : ℕ
  pub detector_findings : ℕ
  pub detectors : List (Text × ℕ)

pub record PerFunctionDelta : Type 0 where
  pub function : Text
  pub reads_delta : ℤ
  pub writes_delta : ℤ

pub record DiffSummary : Type 0 where
  pub detector_findings_delta : ℤ
  pub storage_reads_delta : ℤ
  pub storage_writes_delta : ℤ

pub record DiffReport : Type 0 where
  pub left : SideReport
  pub right : SideReport
  pub per_function_deltas : List PerFunctionDelta
  pub summary : DiffSummary

pub record StaticKey : Type 0 where
  pub segments : List Text

render_segments : List Text → Text
render_segments [] = lit "(dynamic)"
render_segments (s ∷ ss) = join (lit ".") (s ∷ ss)

-- `StaticKey::render`
unfoldable pub render : StaticKey → Text
unfolding render_segments join
render key = render_segments key.segments

pub record FunctionReport : Type 0 where
  pub function_name : Text
  pub storage_reads : List StaticKey
  pub storage_writes : List StaticKey

pub record DetectorFinding : Type 0 where
  pub detector : Text
  pub function : Option Text
  pub key : Option Text
  pub message : Text

pub record AnalysisReport : Type 0 where
  pub source_name : Text
  pub functions : List FunctionReport
  pub detectors : List DetectorFinding

pub record ContentionDelta : Type 0 where
  pub storage_writes_delta : ℤ
  pub storage_reads_delta : ℤ
  pub detector_findings_delta : ℤ

unfoldable pub is_improvement : ContentionDelta → Bool
is_improvement d = ltb_ℤ d.storage_writes_delta (pos 0) && leb_ℤ d.detector_findings_delta (pos 0)

unfoldable pub contention_delta : DiffReport → ContentionDelta
contention_delta report = record {
  storage_writes_delta = report.summary.storage_writes_delta;
  storage_reads_delta = report.summary.storage_reads_delta;
  detector_findings_delta = report.summary.detector_findings_delta;
}
