-- ===== src/Harness/Table.antt =====
-- `render_table` of harness/src/lib.rs.
pub mod Widths
pub mod Bytes
pub mod Lines
use slipstream_contracts.Common.{
  ℕ, zero, suc, ◌+◌, ◌-◌, max, Bool, ◌&&◌, Option, none, some, List, [], ◌∷◌, ◌++◌, length, map,
  leb, ltb, if◌then◌else◌,
}
use slipstream_contracts.Common.Int.{ℤ}
use slipstream_contracts.Harness.Text.{Text, lit, join, show_int}
use slipstream_contracts.Harness.Model.{ContentionDelta}
use slipstream_contracts.Harness.Batch.{PatternResult, verdict}

abbrev pub headers : List Text
headers = lit "pattern" ∷ lit "writes" ∷ lit "reads" ∷ lit "findings" ∷ lit "verdict" ∷ []

unfoldable pub cell_delta : Option ContentionDelta → (ContentionDelta → ℤ) → Text
unfolding show_int
cell_delta none pick = lit "-"
cell_delta (some d) pick = show_int (pick d)

unfoldable pub cells : PatternResult → List Text
unfolding cell_delta verdict
cells r =
    r.pattern
    ∷ cell_delta r.delta (λ d. d.storage_writes_delta)
    ∷ cell_delta r.delta (λ d. d.storage_reads_delta)
    ∷ cell_delta r.delta (λ d. d.detector_findings_delta)
    ∷ verdict r
    ∷ []

-- One step of the loop over the rows: `str::len` counts bytes.
unfoldable pub widen : List ℕ → List Text → List ℕ
widen [] row = []
widen (w ∷ widths) [] = w ∷ widths
widen (w ∷ widths) (cell ∷ row) = max w (length cell) ∷ widen widths row

unfoldable pub widen_all : List ℕ → List (List Text) → List ℕ
unfolding widen
widen_all widths [] = widths
widen_all widths (row ∷ rows) = widen_all (widen widths row) rows

-- The `char`s of a text: the bytes that continue none.
unfoldable pub char_count : Text → ℕ
char_count [] = 0
char_count (b ∷ s) = let rest = char_count s in if leb 128 b && ltb b 192 then rest else suc rest

abbrev pub repeat : ℕ → ℕ → Text
repeat zero b = []
repeat (suc n) b = b ∷ repeat n b

-- `format!` pads to a width in `char`s: `{:<width$}` and `{:>width$}`.
unfoldable pub pad_right : ℕ → Text → Text
unfolding char_count
pad_right width s = s ++ repeat (width - char_count s) b' '

unfoldable pub pad_left : ℕ → Text → Text
unfolding char_count
pad_left width s = repeat (width - char_count s) b' ' ++ s

unfoldable pub right_cells : List ℕ → List Text → List Text
unfolding pad_left
right_cells [] row = []
right_cells (w ∷ widths) [] = []
right_cells (w ∷ widths) (cell ∷ row) = pad_left w cell ∷ right_cells widths row

unfoldable pub aligned : List ℕ → List Text → List Text
unfolding pad_right right_cells
aligned [] row = []
aligned (w ∷ widths) [] = []
aligned (w ∷ widths) (cell ∷ row) = pad_right w cell ∷ right_cells widths row

unfoldable pub line : List ℕ → List Text → Text
unfolding aligned join
line widths row = join (lit "  ") (aligned widths row)

unfoldable pub body : List ℕ → List (List Text) → Text
unfolding line
body widths [] = []
body widths (row ∷ rows) = line widths row ++ (lit "\n" ++ body widths rows)

unfoldable pub widths_of : List PatternResult → List ℕ
unfolding widen_all cells
widths_of results = widen_all (map length headers) (map cells results)

unfoldable pub render_table : List PatternResult → Text
unfolding widths_of body
render_table results =
    let widths = widths_of results in
    let header_line = line widths headers in
    header_line
    ++ (lit "\n"
        ++ (repeat (length header_line) b'-' ++ (lit "\n" ++ body widths (map cells results))))
