-- ===== src/Db/Segment/Tests.antt =====
-- The theorems on segments at a concrete schema and batch.
use bypass_io.Prelude.{ℕ, ◌≡◌, refl, true, List, [], ◌∷◌, some, ok, arith, bytes_eq}
use bypass_io.Db.Schema.{ColumnDef, timestamp, fixed_str, Schema, timestamp_column, new}
use bypass_io.Db.Schema.Validity.{IsValid, new-IsValid}
use bypass_io.Db.Batch.{timestamp_data, fixed_str_data, RowBatch, column}
use bypass_io.Db.Batch.WellFormed.{WellFormed}
use bypass_io.Db.Int64.{i64_min, i64_max}
use bypass_io.Db.Segment.{
  ImmutableSegment, seal_batch, read_batch, overlaps_time_range, column_file_name,
}
use bypass_io.Db.Segment.RoundTrip.{read_batch-seal_batch}
use bypass_io.Db.Segment.Pruning.{overlaps_time_range-stamp}

abbrev ts : ColumnDef
ts = record { name = b't' ∷ []; dtype = timestamp }

abbrev symbol : ColumnDef
symbol = record { name = b's' ∷ []; dtype = fixed_str 2 }

abbrev ticks : Schema
ticks = record { name = b'x' ∷ []; columns = symbol ∷ ts ∷ []; timestamp_column = 1 }

abbrev two_rows : RowBatch
two_rows = record {
  columns =
      (b's' ∷ [], fixed_str_data 2 ((b'A' ∷ b'B' ∷ []) ∷ (b'C' ∷ b'D' ∷ []) ∷ []))
      ∷ (b't' ∷ [], timestamp_data (20 ∷ 10 ∷ []))
      ∷ [];
  row_count = 2;
}

ticks-IsValid : IsValid ticks
unfolding new bytes_eq
ticks-IsValid = (new-IsValid (b'x' ∷ []) (symbol ∷ ts ∷ []) ticks refl).2

two_rows-WellFormed : WellFormed ticks two_rows
unfolding bypass_io.Db.Batch.matches_dtype bypass_io.Db.Batch.data_row_count
two_rows-WellFormed = (
  record { named = refl; typed = refl; counted = refl; wide = (refl, (refl, tt)) },
  (record { named = refl; typed = refl; counted = refl; wide = tt }, tt),
)

read_batch-seal_batch_example :
    (g : ImmutableSegment) × (stamps : List ℕ) × (seal_batch ticks 1 two_rows [] ≡ ok g)
    × (read_batch g ticks ≡ ok two_rows)
    × (g.meta.min_ts ≡ i64_min stamps)
    × (g.meta.max_ts ≡ i64_max stamps)
    × (c : ColumnDef) × (timestamp_column ticks ≡ some c)
    × (column two_rows c.name ≡ some (timestamp_data stamps))
unfolding column_file_name
read_batch-seal_batch_example =
    read_batch-seal_batch ticks 1 two_rows [] ticks-IsValid two_rows-WellFormed (refl, (refl, tt))
      (
        ((refl, (refl, tt)), omega arith, omega arith),
        (((omega arith, (omega arith, tt)), omega arith), tt),
      )

abbrev ten_to_twenty : ImmutableSegment
ten_to_twenty = record {
  files = [];
  meta = record { id = 1; row_count = 2; min_ts = some 10; max_ts = some 20; columns = [] };
}

overlaps_time_range-stamp_example : overlaps_time_range ten_to_twenty 15 21 ≡ true
unfolding i64_min i64_max
overlaps_time_range-stamp_example =
    overlaps_time_range-stamp ten_to_twenty (20 ∷ 10 ∷ []) 0 20 15 21 refl refl refl refl refl
