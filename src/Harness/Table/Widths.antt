-- ===== src/Harness/Table/Widths.antt =====
-- The widths of the lines that `render_table` of harness/src/lib.rs prints.
use slipstream_contracts.Common.{
  ℕ, zero, suc, ◌+◌, ◌-◌, ◌≤◌, ◌≡◌, refl, sym, ap, ◌∙◌, subst, true, ◌&&◌, List, [], ◌∷◌, ◌++◌,
  length, All, leb, ltb, if_of, arith,
}
use slipstream_contracts.Harness.Text.{Text, lit, join}
use slipstream_contracts.Harness.Table.{
  widen, widen_all, char_count, repeat, pad_right, pad_left, right_cells, aligned, line,
}

char_count_le : (s : Text) → char_count s ≤ length s
unfolding char_count
char_count_le [] = omega arith
char_count_le (b ∷ s) =
    if_of (λ n. n ≤ suc (length s)) (leb 128 b && ltb b 192) (λ _. omega (arith, char_count_le s))
      (λ _. omega (arith, char_count_le s))

pub char_count-append : (s t : Text) → char_count (s ++ t) ≡ char_count s + char_count t
unfolding char_count
char_count-append [] t = omega arith
char_count-append (b ∷ s) t = ground (arith, char_count-append s t)

pub char_count-repeat : (n b : ℕ) → ltb b 128 ≡ true → char_count (repeat n b) ≡ n
unfolding char_count
char_count-repeat zero b h = refl
char_count-repeat (suc n) b h = ground (arith, char_count-repeat n b h)

char_count-pad_right : (w : ℕ) (s : Text) → length s ≤ w → char_count (pad_right w s) ≡ w
unfolding pad_right
char_count-pad_right w s h =
    char_count-append s (repeat (w - char_count s) b' ')
    ∙ ap (λ n. char_count s + n) (char_count-repeat (w - char_count s) b' ' refl)
    ∙ omega (arith, char_count_le s)

char_count-pad_left : (w : ℕ) (s : Text) → length s ≤ w → char_count (pad_left w s) ≡ w
unfolding pad_left
char_count-pad_left w s h =
    char_count-append (repeat (w - char_count s) b' ') s
    ∙ ap (λ n. n + char_count s) (char_count-repeat (w - char_count s) b' ' refl)
    ∙ omega (arith, char_count_le s)

-- Every cell fits the width of its column.
abbrev pub Fits : List ℕ → List Text → Type 0
Fits [] [] = Unit
Fits [] (_ ∷ _) = ⊥
Fits (w ∷ widths) [] = ⊥
Fits (w ∷ widths) (cell ∷ row) = (length cell ≤ w) × Fits widths row

-- The columns and two bytes between each two.
abbrev pub line_width : List ℕ → ℕ
line_width [] = 0
line_width (w ∷ []) = w
line_width (w ∷ v ∷ widths) = w + (2 + line_width (v ∷ widths))

char_count-join :
    (s t : Text) (ts : List Text)
    → char_count (join (lit "  ") (s ∷ t ∷ ts))
      ≡ char_count s + (2 + char_count (join (lit "  ") (t ∷ ts)))
unfolding join char_count
char_count-join s t ts =
    char_count-append (s ++ lit "  ") (join (lit "  ") (t ∷ ts))
    ∙ omega (arith, char_count-append s (lit "  "))

char_count-right_cells :
    (s : Text) (w : ℕ) (widths : List ℕ) (row : List Text)
    → char_count s ≡ w
    → Fits widths row
    → char_count (join (lit "  ") (s ∷ right_cells widths row)) ≡ line_width (w ∷ widths)
unfolding right_cells join
char_count-right_cells s w [] [] e h = e
char_count-right_cells s w [] (c ∷ row) e h = absurd h
char_count-right_cells s w (v ∷ widths) [] e h = absurd h
char_count-right_cells s w (v ∷ widths) (c ∷ row) e h =
    char_count-join s (pad_left v c) (right_cells widths row)
    ∙ omega (
      arith,
      e,
      char_count-right_cells (pad_left v c) v widths row (char_count-pad_left v c h.0) h.1,
    )

pub char_count-line :
    (widths : List ℕ) (row : List Text)
    → Fits widths row
    → char_count (line widths row) ≡ line_width widths
unfolding line aligned char_count join
char_count-line [] [] h = refl
char_count-line [] (c ∷ row) h = absurd h
char_count-line (w ∷ widths) [] h = absurd h
char_count-line (w ∷ widths) (c ∷ row) h =
    char_count-right_cells (pad_right w c) w widths row (char_count-pad_right w c h.0) h.1

length-widen : (widths : List ℕ) (row : List Text) → length (widen widths row) ≡ length widths
unfolding widen
length-widen [] row = refl
length-widen (w ∷ widths) [] = refl
length-widen (w ∷ widths) (c ∷ row) = ap suc (length-widen widths row)

Fits-widen :
    (widths : List ℕ) (row : List Text) → length row ≡ length widths → Fits (widen widths row) row
unfolding widen
Fits-widen [] [] h = tt
Fits-widen [] (c ∷ row) h = absurd (omega arith)
Fits-widen (w ∷ widths) [] h = absurd (omega arith)
Fits-widen (w ∷ widths) (c ∷ row) h = (omega arith, Fits-widen widths row (omega arith))

Fits-widen_more :
    (widths : List ℕ) (row other : List Text) → Fits widths other → Fits (widen widths row) other
unfolding widen
Fits-widen_more [] row other h = h
Fits-widen_more (w ∷ widths) [] other h = h
Fits-widen_more (w ∷ widths) (c ∷ row) [] h = h
Fits-widen_more (w ∷ widths) (c ∷ row) (d ∷ other) h =
    (omega (arith, h.0), Fits-widen_more widths row other h.1)

pub Fits-widen_all_more :
    (widths : List ℕ) (rows : List (List Text)) (other : List Text)
    → Fits widths other
    → Fits (widen_all widths rows) other
unfolding widen_all
Fits-widen_all_more widths [] other h = h
Fits-widen_all_more widths (row ∷ rows) other h =
    Fits-widen_all_more (widen widths row) rows other (Fits-widen_more widths row other h)

pub Fits-widen_all :
    (widths : List ℕ) (rows : List (List Text))
    → All (λ r. length r ≡ length widths) rows
    → All (Fits (widen_all widths rows)) rows
unfolding widen_all
Fits-widen_all widths [] h = tt
Fits-widen_all widths (row ∷ rows) h = (
  Fits-widen_all_more (widen widths row) rows row (Fits-widen widths row h.0),
  Fits-widen_all (widen widths row) rows
      (subst (λ n. All (λ r. length r ≡ n) rows) (sym (length-widen widths row)) h.1),
)
