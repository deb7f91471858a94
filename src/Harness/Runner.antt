-- ===== src/Harness/Runner.antt =====
-- The runners of harness/src/lib.rs: the interface to `slipstream`, the one that starts a process,
-- and the one with canned answers. The JSON parser `serde_json` is a parameter.
pub mod Causes
use slipstream_contracts.Common.{
  ℕ, Bool, true, false, Option, none, some, List, [], ◌∷◌, ◌++◌, Result, ok, err, if◌then◌else◌,
}
use slipstream_contracts.Common.Int.{ℤ}
use slipstream_contracts.Harness.Text.{Text, lit, show_int}
use slipstream_contracts.Harness.Model.{DiffReport, ContentionDelta, contention_delta}

pub data HarnessError : Type 0 where
  spawn : Text → HarnessError
  command : Option ℤ → Text → HarnessError
  parse : Text → HarnessError

-- `{code:?}` of an `Option<i32>`
show_code : Option ℤ → Text
unfolding show_int
show_code none = lit "None"
show_code (some code) = lit "Some(" ++ show_int code ++ lit ")"

-- `HarnessError`'s `Display`
unfoldable pub show_error : HarnessError → Text
unfolding show_code
show_error (spawn msg) = lit "failed to launch slipstream: " ++ msg
show_error (command code stderr) =
    lit "slipstream exited with " ++ show_code code ++ lit ": " ++ stderr
show_error (parse msg) = lit "failed to parse slipstream output: " ++ msg

pub record CoreRunner : Type 0 where
  pub diff : Text → Text → Result Text HarnessError
  pub scan : Text → Result Text HarnessError

-- `serde_json::from_str::<DiffReport>`, with the text of its error.
abbrev pub Parser : Type 0
Parser = Text → Result DiffReport Text

pub parsed : Result DiffReport Text → Result ContentionDelta HarnessError
unfolding contention_delta
parsed (ok report) = ok (contention_delta report)
parsed (err e) = err (parse e)

pub analyzed : Parser → Result Text HarnessError → Result ContentionDelta HarnessError
unfolding parsed
analyzed from_str (ok raw) = parsed (from_str raw)
analyzed from_str (err e) = err e

unfoldable pub analyze_pair :
    Parser → CoreRunner → Text → Text → Result ContentionDelta HarnessError
unfolding analyzed
analyze_pair from_str runner naive optimized = analyzed from_str (runner.diff naive optimized)

-- What `std::process::Command` gives for a process that has ended, and the decoders of its output.
pub record Output : Type 0 where
  pub success : Bool
  pub code : Option ℤ
  pub stdout : List ℕ
  pub stderr : List ℕ

pub record Platform : Type 0 where
  pub output : Text → List Text → Result Output Text
  pub from_utf8 : List ℕ → Result Text Text
  pub from_utf8_lossy : List ℕ → Text

pub decoded : Result Text Text → Result Text HarnessError
decoded (ok text) = ok text
decoded (err e) = err (parse e)

pub finished : Platform → Result Output Text → Result Text HarnessError
unfolding decoded
finished P (err e) = err (spawn e)
finished P (ok out) =
    if out.success
    then decoded (P.from_utf8 out.stdout)
    else err (command out.code (P.from_utf8_lossy out.stderr))

-- `SubprocessRunner::run`
unfoldable pub run : Platform → Text → List Text → Result Text HarnessError
unfolding finished
run P bin args = finished P (P.output bin args)

-- `SubprocessRunner::available`
unfoldable pub available : Platform → Text → Bool
available P bin = elim (P.output bin (lit "--version" ∷ [])) [ ok _ ↦ true | err _ ↦ false ]

-- `SubprocessRunner`, by the path of its binary.
unfoldable pub subprocess_runner : Platform → Text → CoreRunner
unfolding run
subprocess_runner P bin = record {
  diff = λ left right. run P bin (lit "diff" ∷ left ∷ right ∷ lit "--json" ∷ []);
  scan = λ path. run P bin (lit "scan" ∷ path ∷ lit "--json" ∷ []);
}

-- `SubprocessRunner::from_env`, from the value of `SLIPSTREAM_BIN`, if it is set.
unfoldable pub runner_from_env : Platform → Option Text → CoreRunner
unfolding subprocess_runner
runner_from_env P none = subprocess_runner P (lit "slipstream")
runner_from_env P (some bin) = subprocess_runner P bin

-- `MockRunner`
unfoldable pub mock_runner : Text → Text → CoreRunner
mock_runner diff_json scan_json = record { diff = λ _ _. ok diff_json; scan = λ _. ok scan_json }

-- `MockRunner::with_diff`
unfoldable pub with_diff : Text → CoreRunner
unfolding mock_runner
with_diff diff_json = mock_runner diff_json []
