-- ===== src/Db/Batch/Cells.antt =====
-- The abstract view of a batch: its columns' cells, whatever their types.
use bypass_io.Prelude.{ℕ, List, [], ◌∷◌, ◌++◌, map}
use bypass_io.Db.Schema.{Name}
use bypass_io.Db.Batch.{ColumnData, f64_data, i64_data, timestamp_data, fixed_str_data, Columns}

pub data Value : Type 0 where
  word : ℕ → Value
  bytes : List ℕ → Value

-- The cells of a column, in row order.
unfoldable pub cells : ColumnData → List Value
cells (f64_data vs) = map word vs
cells (i64_data vs) = map word vs
cells (timestamp_data vs) = map word vs
cells (fixed_str_data w vs) = map bytes vs

abbrev pub View : Type 0
View = List (Name × List Value)

unfoldable pub view : Columns → View
unfolding cells
view [] = []
view ((n, d) ∷ cols) = (n, cells d) ∷ view cols

-- Column by column, the cells of the left and then those of the right.
unfoldable pub join : View → View → View
join [] right = []
join (l ∷ left) [] = l ∷ left
join ((n, xs) ∷ left) ((m, ys) ∷ right) = (n, xs ++ ys) ∷ join left right
