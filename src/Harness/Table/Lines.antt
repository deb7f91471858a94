-- ===== src/Harness/Table/Lines.antt =====
-- The lines that `render_table` of harness/src/lib.rs prints.
use slipstream_contracts.Common.{
  ℕ, ◌≡◌, ◌≢◌, refl, sym, ap, ◌∙◌, Bool, true, ◌&&◌, and_parts, Option, none, some, List, [], ◌∷◌,
  ◌++◌, length, map, NotIn, All, All-map, map-All, All-All, All-of, All-in, ltb, ◌==◌, ne→eq,
  if◌then◌else◌, arith,
}
use slipstream_contracts.Common.Int.{ℤ}
use slipstream_contracts.Harness.Text.{Text, lit, lacks}
use slipstream_contracts.Harness.Text.Digits.{All-show_int}
use slipstream_contracts.Harness.Model.{ContentionDelta}
use slipstream_contracts.Harness.Batch.{PatternResult, verdict}
use slipstream_contracts.Harness.Bench.Merge.{lacks-NotIn}
use slipstream_contracts.Harness.Table.{
  headers, cell_delta, cells, char_count, repeat, line, body, widths_of, render_table,
}
use slipstream_contracts.Harness.Table.Bytes.{All-repeat, All-line}
use slipstream_contracts.Harness.Table.Widths.{
  Fits, line_width, char_count-repeat, char_count-line, Fits-widen_all_more, Fits-widen_all,
}

is_ascii : Text → Bool
is_ascii [] = true
is_ascii (b ∷ s) = ltb b 128 && is_ascii s

char_count-length : (s : Text) → All (λ b. ltb b 128 ≡ true) s → char_count s ≡ length s
unfolding char_count
char_count-length [] h = refl
char_count-length (b ∷ s) h = ground (arith, h.0, char_count-length s h.1)

is_ascii-All : (s : Text) → is_ascii s ≡ true → All (λ b. ltb b 128 ≡ true) s
unfolding is_ascii
is_ascii-All [] h = tt
is_ascii-All (b ∷ s) h =
    let parts = and_parts (ltb b 128) (is_ascii s) h in (parts.0, is_ascii-All s parts.1)

-- The lines with a line break after each.
abbrev unlines : List Text → Text
unlines [] = []
unlines (l ∷ ls) = l ++ (lit "\n" ++ unlines ls)

-- A text cut at its line breaks; the last one ends a line.
abbrev cons_first : ℕ → List Text → List Text
cons_first b [] = (b ∷ []) ∷ []
cons_first b (l ∷ ls) = (b ∷ l) ∷ ls

abbrev pub lines_of : Text → List Text
lines_of [] = []
lines_of (b ∷ s) = let rest = lines_of s in if b == b'\n' then [] ∷ rest else cons_first b rest

lines_of-append : (l t : Text) → NotIn b'\n' l → lines_of (l ++ (lit "\n" ++ t)) ≡ l ∷ lines_of t
lines_of-append [] t h = refl
lines_of-append (b ∷ l) t h =
    rw (ne→eq b b'\n' (λ e. h.0 (sym e))) (ap (cons_first b) (lines_of-append l t h.1))

lines_of-unlines : (ls : List Text) → All (NotIn b'\n') ls → lines_of (unlines ls) ≡ ls
lines_of-unlines [] h = refl
lines_of-unlines (l ∷ ls) h =
    lines_of-append l (unlines ls) h.0 ∙ ap (λ r. l ∷ r) (lines_of-unlines ls h.1)

-- The lines of the table: the headers, the rule and a line for each result.
abbrev pub table_lines : List PatternResult → List Text
table_lines results =
    line (widths_of results) headers
    ∷ repeat (length (line (widths_of results) headers)) b'-'
    ∷ map (λ r. line (widths_of results) (cells r)) results

body-unlines :
    (widths : List ℕ) (results : List PatternResult)
    → body widths (map cells results) ≡ unlines (map (λ r. line widths (cells r)) results)
unfolding body
body-unlines widths [] = refl
body-unlines widths (r ∷ results) =
    ap (λ t. line widths (cells r) ++ (lit "\n" ++ t)) (body-unlines widths results)

Fits-headers : (results : List PatternResult) → Fits (widths_of results) headers
unfolding widths_of
Fits-headers results =
    Fits-widen_all_more (map length headers) (map cells results) headers
      (omega arith, (omega arith, (omega arith, (omega arith, (omega arith, tt)))))

length-cells : (r : PatternResult) → length (cells r) ≡ 5
unfolding cells
length-cells r = refl

Fits-cells : (results : List PatternResult) → All (λ r. Fits (widths_of results) (cells r)) results
unfolding widths_of
Fits-cells results = map-All (Fits (widths_of results)) cells results (
    Fits-widen_all (map length headers) (map cells results)
      (All-map (λ r. length r ≡ 5) cells results (All-All results length-cells)))

headers-ascii : All (All (λ b. ltb b 128 ≡ true)) headers
unfolding is_ascii
headers-ascii = (
  is_ascii-All (lit "pattern") refl,
  (
    is_ascii-All (lit "writes") refl,
    (
      is_ascii-All (lit "reads") refl,
      (is_ascii-All (lit "findings") refl, (is_ascii-All (lit "verdict") refl, tt)),
    ),
  ),
)

headers-NotIn : All (NotIn b'\n') headers
unfolding lacks
headers-NotIn = (
  lacks-NotIn b'\n' (lit "pattern") refl,
  (
    lacks-NotIn b'\n' (lit "writes") refl,
    (
      lacks-NotIn b'\n' (lit "reads") refl,
      (lacks-NotIn b'\n' (lit "findings") refl, (lacks-NotIn b'\n' (lit "verdict") refl, tt)),
    ),
  ),
)

cell_delta-NotIn :
    (delta : Option ContentionDelta) (pick : ContentionDelta → ℤ)
    → NotIn b'\n' (cell_delta delta pick)
unfolding cell_delta
cell_delta-NotIn none pick = ((λ q. omega arith), tt)
cell_delta-NotIn (some d) pick =
    All-show_int (λ b. b'\n' ≢ b) (λ n small q. omega arith) (λ q. omega arith) (pick d)

-- Neither the pattern's name nor the verdict has a line break.
abbrev pub IsOneLine : PatternResult → Type 0
IsOneLine r = NotIn b'\n' r.pattern × NotIn b'\n' (verdict r)

cells-NotIn : (r : PatternResult) → IsOneLine r → All (NotIn b'\n') (cells r)
unfolding cells
cells-NotIn r h = (
  h.0,
  (
    cell_delta-NotIn r.delta (λ d. d.storage_writes_delta),
    (
      cell_delta-NotIn r.delta (λ d. d.storage_reads_delta),
      (cell_delta-NotIn r.delta (λ d. d.detector_findings_delta), (h.1, tt)),
    ),
  ),
)

line-NotIn :
    (widths : List ℕ) (row : List Text) → All (NotIn b'\n') row → NotIn b'\n' (line widths row)
line-NotIn = All-line (λ b. b'\n' ≢ b) (λ q. omega arith)

table_lines-NotIn :
    (results : List PatternResult) → All IsOneLine results → All (NotIn b'\n') (table_lines results)
table_lines-NotIn results h =
    let widths = widths_of results in
    (
      line-NotIn widths headers headers-NotIn,
      (
        All-repeat (λ b. b'\n' ≢ b) (length (line widths headers)) b'-' (λ q. omega arith),
        All-map (NotIn b'\n') (λ r. line widths (cells r)) results
            (All-of _ results
              λ r m. line-NotIn widths (cells r) (cells-NotIn r (All-in IsOneLine results h m))),
      ),
    )

render_table-unlines :
    (results : List PatternResult) → render_table results ≡ unlines (table_lines results)
unfolding render_table
render_table-unlines results =
    let widths = widths_of results in
    ap
      (λ t.
        line widths headers
        ++ (lit "\n" ++ (repeat (length (line widths headers)) b'-' ++ (lit "\n" ++ t))))
      (body-unlines widths results)

-- Where neither a pattern's name nor a verdict has a line break, the printed table, cut at its line
-- breaks, is the line of the headers, a rule and one line for each result, and all of these have
-- the same number of characters.
pub render_table-table_lines :
    (results : List PatternResult)
    → All IsOneLine results
    → (lines_of (render_table results) ≡ table_lines results)
      × All (λ l. char_count l ≡ line_width (widths_of results)) (table_lines results)
render_table-table_lines results one_line = (
  ap lines_of (render_table-unlines results)
      ∙ lines_of-unlines (table_lines results) (table_lines-NotIn results one_line),
  (
    header_width,
    (
      char_count-repeat (length (line widths headers)) b'-' refl
          ∙ sym (
              char_count-length (line widths headers)
                (All-line (λ b. ltb b 128 ≡ true) refl widths headers headers-ascii))
          ∙ header_width,
      All-map (λ l. char_count l ≡ line_width widths) (λ r. line widths (cells r)) results
          (All-of _ results λ r m.
            char_count-line widths (cells r)
              (All-in (λ r. Fits widths (cells r)) results (Fits-cells results) m)),
    ),
  ),
)
  where
    widths : List ℕ
    widths = widths_of results

    header_width : char_count (line widths headers) ≡ line_width widths
    header_width = char_count-line widths headers (Fits-headers results)
