-- ===== src/Db/Table/Scan.antt =====
-- The scans of `Table` of bypass-db/src/table.rs. Whether the processor has vector instructions is an
-- argument; the outer `none` is a panic.
pub mod Taking
pub mod Segments
pub mod Stamps
pub mod Rows
pub mod Whole
use bypass_io.Prelude.{
  ℕ, Bool, List, [], ◌∷◌, Option, none, some, Result, ok, err, ◌>>=◌, ◌>>◌, map_err, bytes_eq,
  if◌then◌else◌,
}
use bypass_io.Db.Schema.{Name, ColumnDef, Schema, timestamp_column}
use bypass_io.Db.Batch.{RowBatch}
use bypass_io.Db.Error
use bypass_io.Db.Error.{TableError}
use bypass_io.Db.Mapped.{MappedColumn}
use bypass_io.Db.Segment.{ImmutableSegment, overlaps_time_range, map_column}
use bypass_io.Db.Rows.{from_indices, is_empty}
use bypass_io.Db.Scan.{ScanResult}
use bypass_io.Db.ScanResult.{empty_result, append_batch, append_mapped_columns, take_result}
use bypass_io.Db.Predicate.{ColumnPredicate, range_filter_i64_mapped, filter_scan_indices}
use bypass_io.Db.Table.{Table, filter_time_batch}

-- The loop over the columns of a segment; the timestamps are mapped once.
unfoldable pub map_columns :
    ImmutableSegment
    → Name
    → MappedColumn
    → List ColumnDef
    → Result TableError (List (Name × MappedColumn))
map_columns g stamp timestamp_map [] = ok []
map_columns g stamp timestamp_map (c ∷ cs) = do
  mapped ← if bytes_eq c.name stamp then ok timestamp_map else map_column g c.name c.dtype
  rest ← map_columns g stamp timestamp_map cs
  ok ((c.name, mapped) ∷ rest)

module _ (avx : Bool) where
  -- One round of the loop over the sealed segments.
  unfoldable pub scan_segment :
      Schema → ColumnDef → ℕ → ℕ → ImmutableSegment → ScanResult → Result TableError ScanResult
  scan_segment schema stamp start end g output =
      if overlaps_time_range g start end
      then (do
        timestamp_map ← map_column g stamp.name stamp.dtype
        indices ← map_err Error.scan (range_filter_i64_mapped avx timestamp_map start end)
        let selection = from_indices indices timestamp_map.row_count
        (if is_empty selection then ok output else (do
          columns ← map_columns g stamp.name timestamp_map schema.columns
          let (res, out) = append_mapped_columns output columns selection
          map_err Error.scan res >> ok out)))
      else ok output

  unfoldable pub scan_sealed :
      Schema → ColumnDef → ℕ → ℕ → List ImmutableSegment → ScanResult → Result TableError ScanResult
  scan_sealed schema stamp start end [] output = ok output
  scan_sealed schema stamp start end (g ∷ gs) output = do
    next ← scan_segment schema stamp start end g output
    scan_sealed schema stamp start end gs next

  -- The last steps of `scan_time_range`, on the active batch.
  unfoldable pub scan_active : Table → ℕ → ℕ → ScanResult → Option (Result TableError ScanResult)
  scan_active t start end output = elim (filter_time_batch t.schema t.active start end) [
    | none ↦ none
    | some (err e) ↦ some (err e)
    | some (ok rows) ↦
        let (res, out) = append_batch output rows in some (map_err Error.scan res >> ok out)
  ]

  -- `Table::scan_time_range`
  unfoldable pub scan_time_range : Table → ℕ → ℕ → Option (Result TableError ScanResult)
  scan_time_range t start end = elim (timestamp_column t.schema) [
    | none ↦ none
    | some stamp ↦ elim (scan_sealed t.schema stamp start end t.sealed (empty_result t.schema)) [
      | err e ↦ some (err e)
      | ok output ↦ scan_active t start end output
    ]
  ]

  -- `Table::scan_where`
  unfoldable pub scan_where :
      Table → ℕ × ℕ → ColumnPredicate → Option (Result TableError ScanResult)
  scan_where t time_range predicate = elim (scan_time_range t time_range.0 time_range.1) [
    | none ↦ none
    | some (err e) ↦ some (err e)
    | some (ok time_result) ↦ elim (filter_scan_indices avx time_result predicate) [
      | err e ↦ some (err (Error.scan e))
      | ok indices ↦ elim (take_result time_result indices) [
        | none ↦ none
        | some rows ↦ some (ok rows)
      ]
    ]
  ]
