-- ===== src/Db/ScanResult/Mapped.antt =====
-- The cells of the mapped columns of a scan result of bypass-db/src/scan.rs.
use bypass_io.Prelude.{
  ℕ, ◌≡◌, refl, sym, ap, ◌∙◌, true, List, [], ◌∷◌, append-nil, Option, none, some, map, arith,
}
use bypass_io.Db.Schema.{DType, f64, i64, timestamp, fixed_str}
use bypass_io.Db.Batch.{
  ColumnData, f64_data, i64_data, timestamp_data, fixed_str_data, matches_dtype, take_data, pick,
  map_option,
}
use bypass_io.Db.Batch.Cells.{word, bytes, cells}
use bypass_io.Db.Mapped.{MappedColumn, f64_value, i64_value, fixed_str_value}
use bypass_io.Db.Mapped.Cells.{IsFile, f64_picked, i64_picked, strings_picked}
use bypass_io.Db.Rows.{RowSelection, iter}
use bypass_io.Db.Segment.{column_bytes}
use bypass_io.Db.Segment.Files.{Sealable}
use bypass_io.Db.Scan.{
  mapped, f64_chunks, i64_chunks, timestamp_chunks, fixed_str_chunks, chunk_values, flatten_chunks,
  mapped_values, from_mapped,
}
use bypass_io.Db.ScanResult.Cells.{kind, scan_cells}

one_chunk :
    {A : Type 0} (value : MappedColumn → ℕ → Option A) (m : MappedColumn) (rows : RowSelection)
    (out : List A)
    → mapped_values value m (iter rows) ≡ out
    → flatten_chunks value (mapped (record { column = m; rows = rows }) ∷ []) ≡ out
unfolding flatten_chunks chunk_values
one_chunk value m rows out e = append-nil (mapped_values value m (iter rows)) ∙ e

map_option-eq-some :
    {A : Type 0} {B : Type 0} (f : A → B) (o : Option A) (b : B)
    → map_option f o ≡ some b
    → (a : A) × (o ≡ some a) × (f a ≡ b)
map_option-eq-some f none b e = cc
map_option-eq-some f (some a) b e = (a, refl, cc)

-- The selected rows of a mapped column are those that are taken from the column that was sealed.
pub from_mapped-cells :
    (m : MappedColumn) (dtype : DType) (d d' : ColumnData) (rows : RowSelection)
    → matches_dtype d dtype ≡ true
    → Sealable d
    → IsFile m dtype d
    → take_data d (iter rows) ≡ some d'
    → (kind (from_mapped m rows) ≡ dtype) × (scan_cells (from_mapped m rows) ≡ cells d')
unfolding from_mapped matches_dtype scan_cells cells take_data column_bytes
from_mapped-cells m f64 (f64_data vs) d' rows t h file e =
    let shape : from_mapped m rows ≡ f64_chunks (mapped (record { column = m; rows = rows }) ∷ []) =
      ground (arith, file.0) in
    let (out, taken, same) =
      map_option-eq-some {B = ColumnData} f64_data (pick vs (iter rows)) d' e in
    (
      ap kind shape,
      ap scan_cells shape
          ∙ ap (map word)
              (one_chunk f64_value m rows out (f64_picked m vs (iter rows) out file h taken))
          ∙ ap cells same,
    )
from_mapped-cells m i64 (i64_data vs) d' rows t h file e =
    let shape : from_mapped m rows ≡ i64_chunks (mapped (record { column = m; rows = rows }) ∷ []) =
      ground (arith, file.0) in
    let (out, taken, same) =
      map_option-eq-some {B = ColumnData} i64_data (pick vs (iter rows)) d' e in
    (
      ap kind shape,
      ap scan_cells shape
          ∙ ap (map word) (
              one_chunk i64_value m rows out
                (i64_picked m i64 (i64_data vs) vs (iter rows) out file refl refl h.0 h.1 taken))
          ∙ ap cells same,
    )
from_mapped-cells m timestamp (timestamp_data vs) d' rows t h file e =
    let shape : from_mapped m rows
        ≡ timestamp_chunks (mapped (record { column = m; rows = rows }) ∷ []) =
      ground (arith, file.0) in
    let (out, taken, same) =
      map_option-eq-some {B = ColumnData} timestamp_data (pick vs (iter rows)) d' e in
    (
      ap kind shape,
      ap scan_cells shape
          ∙ ap (map word) (
              one_chunk i64_value m rows out (
                i64_picked m timestamp (timestamp_data vs) vs (iter rows) out file refl refl h.0 h.1
                  taken))
          ∙ ap cells same,
    )
from_mapped-cells m (fixed_str w) (fixed_str_data v vs) d' rows t h file e =
    let width : v ≡ w = ground (arith, t) in
    let shape : from_mapped m rows
        ≡ fixed_str_chunks w (mapped (record { column = m; rows = rows }) ∷ []) =
      ground (arith, file.0) in
    let (out, taken, same) =
      map_option-eq-some {B = ColumnData} (fixed_str_data v) (pick vs (iter rows)) d' e in
    (
      ap kind shape,
      ap scan_cells shape
          ∙ ap (map bytes) (
              one_chunk fixed_str_value m rows out (
                strings_picked m v vs (iter rows) out (file.0 ∙ ap fixed_str (sym width), file.1) h
                  taken))
          ∙ ap cells same,
    )
from_mapped-cells m dtype d d' rows t h file e = absurd (ground (arith, t))
