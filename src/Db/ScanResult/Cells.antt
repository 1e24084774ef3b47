-- ===== src/Db/ScanResult/Cells.antt =====
-- The abstract view of a scan result of bypass-db/src/scan.rs: the cells of its columns, wherever
-- their chunks are.
use mathlib.Core.List.{map-append}
use bypass_io.Prelude.{
  ℕ, suc, ◌+◌, ◌^◌, ◌<◌, ◌≡◌, refl, sym, ap, ap₂, ◌∙◌, true, List, [], ◌∷◌, ◌++◌, append-nil,
  append_assoc, Option, ok, length, map, arith, bytes_eq_refl, lt→ltb,
}
use bypass_io.Db.Schema.{Name, DType, f64, i64, timestamp, fixed_str, ColumnDef}
use bypass_io.Db.Batch.{
  ColumnData, f64_data, i64_data, timestamp_data, fixed_str_data, Columns, matches_dtype,
  empty_data, empty_columns,
}
use bypass_io.Db.Batch.WellFormed.{Fits}
use bypass_io.Db.Batch.Cells.{Value, word, bytes, View, cells, view, join}
use bypass_io.Db.Mapped.{MappedColumn, f64_value, i64_value, fixed_str_value}
use bypass_io.Db.Scan.{
  Chunk, ScanColumn, f64_chunks, i64_chunks, timestamp_chunks, fixed_str_chunks, ScanResult,
  chunk_values, flatten_chunks, from_data, empty_column, append_column,
}
use bypass_io.Db.ScanResult.{append_zipped, append_scan_columns, data_columns, empty_scan_columns}

abbrev pub kind : ScanColumn → DType
kind (f64_chunks cs) = f64
kind (i64_chunks cs) = i64
kind (timestamp_chunks cs) = timestamp
kind (fixed_str_chunks w cs) = fixed_str w

unfoldable pub scan_cells : ScanColumn → List Value
unfolding flatten_chunks
scan_cells (f64_chunks cs) = map word (flatten_chunks f64_value cs)
scan_cells (i64_chunks cs) = map word (flatten_chunks i64_value cs)
scan_cells (timestamp_chunks cs) = map word (flatten_chunks i64_value cs)
scan_cells (fixed_str_chunks w cs) = map bytes (flatten_chunks fixed_str_value cs)

unfoldable pub scan_view : List (Name × ScanColumn) → View
unfolding scan_cells
scan_view [] = []
scan_view ((n, c) ∷ cols) = (n, scan_cells c) ∷ scan_view cols

-- The columns have the names and the types of the schema.
abbrev pub Typed : List ColumnDef → List (Name × ScanColumn) → Type 0
Typed [] [] = Unit
Typed [] (x ∷ cols) = ⊥
Typed (c ∷ cs) [] = ⊥
Typed (c ∷ cs) ((n, col) ∷ cols) = (n ≡ c.name) × (kind col ≡ c.dtype) × Typed cs cols

flatten_chunks-append :
    {A : Type 0} (value : MappedColumn → ℕ → Option A) (xs ys : List (Chunk A))
    → flatten_chunks value (xs ++ ys) ≡ flatten_chunks value xs ++ flatten_chunks value ys
unfolding flatten_chunks
flatten_chunks-append value [] ys = refl
flatten_chunks-append value (x ∷ xs) ys =
    ap (λ l. chunk_values value x ++ l) (flatten_chunks-append value xs ys)
    ∙ sym (append_assoc (chunk_values value x) (flatten_chunks value xs) (flatten_chunks value ys))

joined :
    {A : Type 0} (con : A → Value) (value : MappedColumn → ℕ → Option A) (xs ys : List (Chunk A))
    → map con (flatten_chunks value (xs ++ ys))
      ≡ map con (flatten_chunks value xs) ++ map con (flatten_chunks value ys)
joined con value xs ys =
    ap (map con) (flatten_chunks-append value xs ys)
    ∙ map-append con (flatten_chunks value xs) (flatten_chunks value ys)

append_column-cells :
    (a b : ScanColumn)
    → kind a ≡ kind b
    → (c : ScanColumn) × (append_column a b ≡ ok c)
      × (kind c ≡ kind a)
      × (scan_cells c ≡ scan_cells a ++ scan_cells b)
unfolding append_column scan_cells
append_column-cells (f64_chunks xs) (f64_chunks ys) e =
    (f64_chunks (xs ++ ys), refl, refl, joined word f64_value xs ys)
append_column-cells (i64_chunks xs) (i64_chunks ys) e =
    (i64_chunks (xs ++ ys), refl, refl, joined word i64_value xs ys)
append_column-cells (timestamp_chunks xs) (timestamp_chunks ys) e =
    (timestamp_chunks (xs ++ ys), refl, refl, joined word i64_value xs ys)
append_column-cells (fixed_str_chunks w xs) (fixed_str_chunks v ys) e =
    (fixed_str_chunks w (xs ++ ys), ground (arith, e), refl, joined bytes fixed_str_value xs ys)
append_column-cells a b e = absurd (ground (arith, e))

pub append_zipped-Typed :
    (cs : List ColumnDef) (incoming existing : List (Name × ScanColumn))
    → Typed cs incoming
    → Typed cs existing
    → (out : List (Name × ScanColumn)) × (append_zipped incoming existing ≡ (ok (length cs), out))
      × Typed cs out
      × (scan_view out ≡ join (scan_view existing) (scan_view incoming))
unfolding append_zipped scan_view join
append_zipped-Typed [] [] [] hi he = ([], refl, tt, refl)
append_zipped-Typed (c ∷ cs) ((n, x) ∷ incoming) ((m, e) ∷ existing) hi he =
    let (d, step, typed, found) = append_column-cells e x (he.1 ∙ sym hi.1) in
    let (out, steps, outs, rest) = append_zipped-Typed cs incoming existing hi.2 he.2 in
    (
      (m, d) ∷ out,
      ground (arith, step, steps, bytes_eq_refl m, hi.0, he.0),
      (he.0, typed ∙ he.1, outs),
      ap₂ (λ (l : List Value) (r : View). (m, l) ∷ r) found rest,
    )
append_zipped-Typed cs incoming existing hi he = absurd (ground arith)

-- A result whose columns have the schema's names and types takes up more such columns, unless the row
-- count overflows: its cells are then followed by theirs.
pub append_scan_columns-Typed :
    (cs : List ColumnDef) (r : ScanResult) (incoming : List (Name × ScanColumn)) (n : ℕ)
    → Typed cs r.columns
    → Typed cs incoming
    → r.row_count + n < 2 ^ 64
    → (out : ScanResult) × (append_scan_columns r incoming n ≡ (ok tt, out))
      × Typed cs out.columns
      × (scan_view out.columns ≡ join (scan_view r.columns) (scan_view incoming))
      × (out.row_count ≡ r.row_count + n)
unfolding append_scan_columns
append_scan_columns-Typed cs r incoming n he hi small =
    let (out, step, typed, found) = append_zipped-Typed cs incoming r.columns hi he in
    (
      record { columns = out; row_count = r.row_count + n },
      ground (arith, step, length-Typed cs r.columns he, lt→ltb (r.row_count + n) (2 ^ 64) small),
      typed,
      found,
      refl,
    )
  where
    length-Typed :
        (cs : List ColumnDef) (cols : List (Name × ScanColumn))
        → Typed cs cols
        → length cs ≡ length cols
    length-Typed [] [] h = refl
    length-Typed [] (x ∷ cols) h = absurd h
    length-Typed (c ∷ cs) [] h = absurd h
    length-Typed (c ∷ cs) (x ∷ cols) h = ap suc (length-Typed cs cols h.2)

from_data-cells :
    (d : ColumnData) (dtype : DType)
    → matches_dtype d dtype ≡ true
    → (kind (from_data d) ≡ dtype) × (scan_cells (from_data d) ≡ cells d)
unfolding from_data matches_dtype scan_cells cells flatten_chunks chunk_values
from_data-cells (f64_data vs) f64 t = (refl, ap (map word) (append-nil vs))
from_data-cells (i64_data vs) i64 t = (refl, ap (map word) (append-nil vs))
from_data-cells (timestamp_data vs) timestamp t = (refl, ap (map word) (append-nil vs))
from_data-cells (fixed_str_data w vs) (fixed_str v) t =
    (ground (arith, t), ap (map bytes) (append-nil vs))
from_data-cells d dtype t = absurd (ground arith)

-- The columns of a batch in memory.
pub data_columns-Typed :
    (n : ℕ) (cs : List ColumnDef) (cols : Columns)
    → Fits n cs cols
    → Typed cs (data_columns cols) × (scan_view (data_columns cols) ≡ view cols)
unfolding data_columns scan_view view
data_columns-Typed n [] [] h = (tt, refl)
data_columns-Typed n [] (x ∷ cols) h = absurd h
data_columns-Typed n (c ∷ cs) [] h = absurd h
data_columns-Typed n (c ∷ cs) ((m, d) ∷ cols) h =
    let one = from_data-cells d c.dtype h.0.typed in
    let rest = data_columns-Typed n cs cols h.1 in
    ((h.0.named, one.0, rest.0), ap₂ (λ (l : List Value) (r : View). (m, l) ∷ r) one.1 rest.1)

empty_column-cells :
    (d : DType) → (kind (empty_column d) ≡ d) × (scan_cells (empty_column d) ≡ cells (empty_data d))
unfolding empty_column scan_cells cells empty_data flatten_chunks
empty_column-cells f64 = (refl, refl)
empty_column-cells i64 = (refl, refl)
empty_column-cells timestamp = (refl, refl)
empty_column-cells (fixed_str w) = (refl, refl)

pub empty_scan_columns-Typed :
    (cs : List ColumnDef)
    → Typed cs (empty_scan_columns cs)
      × (scan_view (empty_scan_columns cs) ≡ view (empty_columns cs))
unfolding empty_scan_columns scan_view view empty_columns
empty_scan_columns-Typed [] = (tt, refl)
empty_scan_columns-Typed (c ∷ cs) =
    let one = empty_column-cells c.dtype in
    let rest = empty_scan_columns-Typed cs in
    ((refl, one.0, rest.0), ap₂ (λ (l : List Value) (r : View). (c.name, l) ∷ r) one.1 rest.1)
