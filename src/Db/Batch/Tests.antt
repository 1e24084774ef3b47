-- ===== src/Db/Batch/Tests.antt =====
-- Tests of batch.rs, and the theorems about it at concrete batches.
use bypass_io.Prelude.{◌≡◌, refl, [], ◌∷◌, ok, arith, bytes_eq}
use bypass_io.Db.Schema.{timestamp, fixed_str, Schema}
use bypass_io.Db.Batch.{
  ColumnData, timestamp_data, fixed_str_data, Columns, RowBatch, build, append, row_count_mismatch,
  matches_dtype,
}
use bypass_io.Db.Batch.Cells.{view, join}
use bypass_io.Db.Batch.WellFormed.{WellFormed, append-WellFormed}
use bypass_io.Db.Batch.Builder.{build-WellFormed, build_complete}

abbrev schema : Schema
schema = record {
  name = b'x' ∷ [];
  columns =
      record { name = b't' ∷ []; dtype = timestamp }
      ∷ record { name = b's' ∷ []; dtype = fixed_str 2 }
      ∷ [];
  timestamp_column = 0;
}

abbrev symbols : ColumnData
symbols = fixed_str_data 2 ((b'M' ∷ b'S' ∷ []) ∷ (b'A' ∷ b'A' ∷ []) ∷ [])

abbrev batch : RowBatch
batch = record {
  columns = (b't' ∷ [], timestamp_data (10 ∷ 20 ∷ [])) ∷ (b's' ∷ [], symbols) ∷ [];
  row_count = 2;
}

-- The same columns, added in the other order.
abbrev added : Columns
added = (b's' ∷ [], symbols) ∷ (b't' ∷ [], timestamp_data (10 ∷ 20 ∷ [])) ∷ []

-- `builder_orders_columns_by_schema`
orders_columns : build schema added ≡ ok batch
unfolding build bypass_io.Db.Batch.build_columns bypass_io.Db.Batch.build_column bytes_eq
    bypass_io.Db.Batch.validate_fixed_str_width bypass_io.Db.Batch.next_row_count matches_dtype
    bypass_io.Db.Batch.data_row_count
orders_columns = refl

batch-WellFormed : WellFormed schema batch
batch-WellFormed = build-WellFormed schema added batch orders_columns

build-WellFormed_example : WellFormed schema batch
build-WellFormed_example = build-WellFormed schema added batch orders_columns

build_complete_example : build schema added ≡ ok batch
unfolding bytes_eq bypass_io.Db.Batch.find_column
build_complete_example =
    build_complete schema added batch (λ e. cc) batch-WellFormed refl (refl, (refl, tt))

append-WellFormed_example :
    (c : RowBatch) × (append batch batch ≡ (ok tt, c))
    × WellFormed schema c
    × (c.row_count ≡ 4)
    × (view c.columns ≡ join (view batch.columns) (view batch.columns))
append-WellFormed_example =
    append-WellFormed schema batch batch batch-WellFormed batch-WellFormed (omega arith)
