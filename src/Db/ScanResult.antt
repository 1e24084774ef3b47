-- ===== src/Db/ScanResult.antt =====
-- `ScanResult` of bypass-db/src/scan.rs: how a scan collects its chunks. A loop that stops at an
-- error leaves the columns that it has extended before it.
pub mod Cells
pub mod Mapped
use bypass_io.Prelude.{
  ℕ, ◌+◌, ◌==◌, List, [], ◌∷◌, Option, none, some, Result, ok, err, bytes_eq, length, if◌then◌else◌,
  checked_add,
}
use bypass_io.Db.Schema.{Name, ColumnDef, Schema}
use bypass_io.Db.Batch.{Columns, RowBatch}
use bypass_io.Db.Error.{ScanError, column_order_mismatch, row_count_overflow}
use bypass_io.Db.Mapped.{MappedColumn}
use bypass_io.Db.Rows.{RowSelection, len}
use bypass_io.Db.Scan.{
  ScanColumn, ScanResult, empty_column, from_mapped, from_data, append_column, take_column,
}

unfoldable pub data_columns : Columns → List (Name × ScanColumn)
unfolding from_data
data_columns [] = []
data_columns ((n, d) ∷ cols) = (n, from_data d) ∷ data_columns cols

unfoldable pub from_batch : RowBatch → ScanResult
unfolding data_columns
from_batch b = record { columns = data_columns b.columns; row_count = b.row_count }

unfoldable pub empty_scan_columns : List ColumnDef → List (Name × ScanColumn)
unfolding empty_column
empty_scan_columns [] = []
empty_scan_columns (c ∷ cs) = (c.name, empty_column c.dtype) ∷ empty_scan_columns cs

unfoldable pub empty_result : Schema → ScanResult
unfolding empty_scan_columns
empty_result s = record { columns = empty_scan_columns s.columns; row_count = 0 }

-- The zipped loop of `append_columns`, with the number of rounds.
unfoldable pub append_zipped :
    List (Name × ScanColumn)
    → List (Name × ScanColumn)
    → Result ScanError ℕ × List (Name × ScanColumn)
append_zipped [] existing = (ok 0, existing)
append_zipped (x ∷ incoming) [] = (ok 0, [])
append_zipped ((n, c) ∷ incoming) ((expected, e) ∷ existing) =
    if bytes_eq n expected
    then elim (append_column e c) [
      | err fault ↦ (err fault, (expected, e) ∷ existing)
      | ok e' ↦
          let (res, rest) = append_zipped incoming existing in
          elim res [
            | err fault ↦ (err fault, (expected, e') ∷ rest)
            | ok count ↦ (ok (count + 1), (expected, e') ∷ rest)
          ]
    ]
    else (err column_order_mismatch, (expected, e) ∷ existing)

-- `ScanResult::append_columns`, with the result that it leaves.
unfoldable pub append_scan_columns :
    ScanResult → List (Name × ScanColumn) → ℕ → Result ScanError (Unit {0}) × ScanResult
append_scan_columns r incoming row_count =
    let (res, cols) = append_zipped incoming r.columns in
    elim res [
      | err fault ↦ (err fault, record r { columns = cols })
      | ok count ↦
          if count == length r.columns
          then elim (checked_add r.row_count row_count) [
            | none ↦ (err row_count_overflow, record r { columns = cols })
            | some n ↦ (ok tt, record { columns = cols; row_count = n })
          ]
          else (err column_order_mismatch, record r { columns = cols })
    ]

unfoldable pub append_batch : ScanResult → RowBatch → Result ScanError (Unit {0}) × ScanResult
unfolding data_columns
append_batch r b = append_scan_columns r (data_columns b.columns) b.row_count

unfoldable pub mapped_columns : List (Name × MappedColumn) → RowSelection → List (Name × ScanColumn)
unfolding from_mapped
mapped_columns [] rows = []
mapped_columns ((n, c) ∷ cols) rows = (n, from_mapped c rows) ∷ mapped_columns cols rows

unfoldable pub append_mapped_columns :
    ScanResult
    → List (Name × MappedColumn)
    → RowSelection
    → Result ScanError (Unit {0}) × ScanResult
unfolding mapped_columns len
append_mapped_columns r cols rows = append_scan_columns r (mapped_columns cols rows) (len rows)

unfoldable pub take_scan_columns :
    List (Name × ScanColumn) → List ℕ → Option (List (Name × ScanColumn))
take_scan_columns [] is = some []
take_scan_columns ((n, c) ∷ cols) is = elim (take_column c is) [
  | none ↦ none
  | some c' ↦ elim (take_scan_columns cols is) [ none ↦ none | some rest ↦ some ((n, c') ∷ rest) ]
]

-- `ScanResult::take_indices`; `none` is a panic.
unfoldable pub take_result : ScanResult → List ℕ → Option ScanResult
take_result r is = elim (take_scan_columns r.columns is) [
  | none ↦ none
  | some cols ↦ some (record { columns = cols; row_count = length is })
]
