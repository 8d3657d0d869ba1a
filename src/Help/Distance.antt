-- ===== src/Help/Distance.antt =====
-- editDistance of internal/help/rank.go. A row of the table is a list; the program fills three
-- arrays in turn, each cell before it is read.
pub mod Edits
pub mod Rows
pub mod Words
use bloblang_lsp.Common.{
  ℕ, zero, suc, ◌+◌, ◌-◌, min, Text, Bool, true, false, ◌&&◌, ◌||◌, List, [], ◌∷◌, ◌++◌, ◌==◌, ltb,
  if◌then◌else◌, length,
}

-- `row[i]`
abbrev pub at : List ℕ → ℕ → ℕ
at [] i = 0
at (x ∷ xs) zero = x
at (x ∷ xs) (suc i) = at xs i

-- 0, 1 and so on, so many numbers.
abbrev pub counting : ℕ → ℕ → List ℕ
counting zero i = []
counting (suc n) i = i ∷ counting n (suc i)

abbrev pub cost : ℕ → ℕ → ℕ
cost c d = if c == d then 0 else 1

module _ (x y : Text) where
  -- `current[j]`, of the row `i`.
  unfoldable pub cell : ℕ → ℕ → List ℕ → List ℕ → List ℕ → ℕ
  cell i j previous_previous previous current =
      let best =
        min (min (at previous j + 1) (at current (j - 1) + 1))
          (at previous (j - 1) + cost (at x (i - 1)) (at y (j - 1))) in
      if ltb 1 i && (ltb 1 j && (at x (i - 1) == at y (j - 2) && at x (i - 2) == at y (j - 1)))
      then min best (at previous_previous (j - 2) + 1)
      else best

  -- So many cells of the row `i`, from `j` on.
  unfoldable pub fill_row : ℕ → ℕ → ℕ → List ℕ → List ℕ → List ℕ → List ℕ
  unfolding cell
  fill_row zero i j previous_previous previous current = current
  fill_row (suc n) i j previous_previous previous current =
      fill_row n i (suc j) previous_previous previous
        (current ++ cell i j previous_previous previous current ∷ [])

  -- So many rows, from `i` on.
  unfoldable pub fill_rows : ℕ → ℕ → List ℕ → List ℕ → List ℕ
  unfolding fill_row
  fill_rows zero i previous_previous previous = previous
  fill_rows (suc n) i previous_previous previous =
      fill_rows n (suc i) previous (fill_row (length y) i 1 previous_previous previous (i ∷ []))

  -- The arrays start with zeros; of `previousPrevious` nothing is read before it is a row.
  unfoldable pub edit_distance : ℕ → ℕ
  unfolding fill_rows
  edit_distance maximum =
      if ltb maximum (length x - length y) || ltb maximum (length y - length x)
      then maximum + 1
      else at (fill_rows (length x) 1 [] (counting (length y + 1) 0)) (length y)
