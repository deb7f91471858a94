-- ===== src/Harness/Table/Bytes.antt =====
-- The bytes of a line that `render_table` of harness/src/lib.rs prints.
use slipstream_contracts.Common.{ℕ, zero, suc, ◌-◌, List, [], ◌∷◌, ◌++◌, All, All-append}
use slipstream_contracts.Harness.Text.{Text, lit, join}
use slipstream_contracts.Harness.Table.{
  char_count, repeat, pad_right, pad_left, right_cells, aligned, line,
}

pub All-repeat : (P : ℕ → Type 0) (n b : ℕ) → P b → All P (repeat n b)
All-repeat P zero b h = tt
All-repeat P (suc n) b h = (h, All-repeat P n b h)

-- What holds of a space and of every byte of the cells holds of every byte of their line.
module _ (P : ℕ → Type 0) (space : P b' ') where
  All-right_cells :
      (s : Text) (widths : List ℕ) (row : List Text)
      → All P s
      → All (All P) row
      → All P (join (lit "  ") (s ∷ right_cells widths row))
  unfolding right_cells join pad_left
  All-right_cells s [] row e h = e
  All-right_cells s (w ∷ widths) [] e h = e
  All-right_cells s (w ∷ widths) (c ∷ row) e h =
      All-append P (s ++ lit "  ") _ (All-append P s (lit "  ") e (space, (space, tt))) (
        All-right_cells (pad_left w c) widths row
          (All-append P (repeat (w - char_count c) b' ') c
            (All-repeat P (w - char_count c) b' ' space) h.0)
          h.1)

  pub All-line : (widths : List ℕ) (row : List Text) → All (All P) row → All P (line widths row)
  unfolding line aligned join pad_right
  All-line [] row h = tt
  All-line (w ∷ widths) [] h = tt
  All-line (w ∷ widths) (c ∷ row) h =
      All-right_cells (pad_right w c) widths row
        (All-append P c (repeat (w - char_count c) b' ') h.0
          (All-repeat P (w - char_count c) b' ' space))
        h.1
