-- ===== src/Db/Batch.antt =====
-- bypass-db/src/batch.rs. An `f64` is its 64 bits, an `i64` its two's complement bits and a byte
-- string a list of bytes: batches only move values, and never compute with them.
pub mod WellFormed
pub mod Cells
pub mod Builder
mod Tests
use bypass_io.Prelude.{
  ℕ, zero, suc, ◌+◌, ◌==◌, Bool, true, false, ◌&&◌, not, List, [], ◌∷◌, ◌++◌, Option, none, some,
  Result, ok, err, ◌>>=◌, ◌>>◌, guard, ok_or, bytes_eq, length, get_elem?, if◌then◌else◌,
  checked_add,
}
use bypass_io.Db.Schema.{Name, DType, f64, i64, timestamp, fixed_str, ColumnDef, Schema}

pub data ColumnData : Type 0 where
  f64_data : List ℕ → ColumnData
  i64_data : List ℕ → ColumnData
  timestamp_data : List ℕ → ColumnData
  fixed_str_data : (width : ℕ) → List (List ℕ) → ColumnData

pub data BatchError : Type 0 where
  schema_mismatch : BatchError
  missing_column : (column : Name) → BatchError
  column_type_mismatch : (column : Name) → (expected : DType) → BatchError
  row_count_mismatch : (column : Name) → (expected actual : ℕ) → BatchError
  fixed_string_width_mismatch : (column : Name) → (width : ℕ) → BatchError
  type_mismatch : BatchError
  row_count_overflow : BatchError

unfoldable pub data_row_count : ColumnData → ℕ
data_row_count (f64_data vs) = length vs
data_row_count (i64_data vs) = length vs
data_row_count (timestamp_data vs) = length vs
data_row_count (fixed_str_data w vs) = length vs

unfoldable pub matches_dtype : ColumnData → DType → Bool
matches_dtype (f64_data vs) f64 = true
matches_dtype (i64_data vs) i64 = true
matches_dtype (timestamp_data vs) timestamp = true
matches_dtype (fixed_str_data w vs) (fixed_str expected) = w == expected
matches_dtype _ _ = false

-- `ColumnData::append`
unfoldable pub append_data : ColumnData → ColumnData → Result BatchError ColumnData
append_data (f64_data left) (f64_data right) = ok (f64_data (left ++ right))
append_data (i64_data left) (i64_data right) = ok (i64_data (left ++ right))
append_data (timestamp_data left) (timestamp_data right) = ok (timestamp_data (left ++ right))
append_data (fixed_str_data w left) (fixed_str_data v right) =
    if w == v then ok (fixed_str_data w (left ++ right)) else err type_mismatch
append_data _ _ = err type_mismatch

-- `indices.iter().map(|&idx| values[idx])`; `none` is an index out of bounds.
unfoldable pub pick {ℓ} : {A : Type ℓ} → List A → List ℕ → Option (List A)
pick values [] = some []
pick values (i ∷ is) = elim (get_elem? values i) [
  | none ↦ none
  | some v ↦ elim (pick values is) [ none ↦ none | some vs ↦ some (v ∷ vs) ]
]

abbrev pub map_option {ℓ κ} : {A : Type ℓ} {B : Type κ} → (A → B) → Option A → Option B
map_option f none = none
map_option f (some a) = some (f a)

-- `ColumnData::take_indices`
unfoldable pub take_data : ColumnData → List ℕ → Option ColumnData
take_data (f64_data vs) is = map_option f64_data (pick vs is)
take_data (i64_data vs) is = map_option i64_data (pick vs is)
take_data (timestamp_data vs) is = map_option timestamp_data (pick vs is)
take_data (fixed_str_data w vs) is = map_option (fixed_str_data w) (pick vs is)

-- `ColumnData::timestamp_values`
unfoldable pub timestamp_values : ColumnData → Option (List ℕ)
timestamp_values (timestamp_data vs) = some vs
timestamp_values _ = none

abbrev pub Columns : Type 0
Columns = List (Name × ColumnData)

pub record RowBatch : Type 0 where
  pub columns : Columns
  pub row_count : ℕ

unfoldable pub empty_data : DType → ColumnData
empty_data f64 = f64_data []
empty_data i64 = i64_data []
empty_data timestamp = timestamp_data []
empty_data (fixed_str w) = fixed_str_data w []

unfoldable pub empty_columns : List ColumnDef → Columns
unfolding empty_data
empty_columns [] = []
empty_columns (c ∷ cs) = (c.name, empty_data c.dtype) ∷ empty_columns cs

-- `RowBatch::empty`
unfoldable pub empty : Schema → RowBatch
unfolding empty_columns
empty s = record { columns = empty_columns s.columns; row_count = 0 }

-- The first column of a name.
unfoldable pub find_column : Columns → Name → Option ColumnData
find_column [] n = none
find_column ((m, d) ∷ cols) n = if bytes_eq m n then some d else find_column cols n

-- `RowBatch::column`
unfoldable pub column : RowBatch → Name → Option ColumnData
unfolding find_column
column b n = find_column b.columns n

-- The loop of `RowBatch::append`. What was appended before an error stays appended, so the columns
-- come back beside the error too.
unfoldable pub append_columns : Columns → Columns → Result BatchError (Unit {0}) × Columns
append_columns [] right = (ok tt, [])
append_columns (l ∷ left) [] = (ok tt, l ∷ left)
append_columns ((ln, l) ∷ left) ((rn, r) ∷ right) =
    if bytes_eq ln rn
    then elim (append_data l r) [
      | err e ↦ (err e, (ln, l) ∷ left)
      | ok l' ↦ let (res, rest) = append_columns left right in (res, (ln, l') ∷ rest)
    ]
    else (err schema_mismatch, (ln, l) ∷ left)

-- `RowBatch::append`, with the batch that it leaves.
unfoldable pub append : RowBatch → RowBatch → Result BatchError (Unit {0}) × RowBatch
append self other =
    if length self.columns == length other.columns
    then (let (res, cols) = append_columns self.columns other.columns in
        elim res [
          | err e ↦ (err e, record self { columns = cols })
          | ok u ↦ elim (checked_add self.row_count other.row_count) [
            | none ↦ (err row_count_overflow, record self { columns = cols })
            | some n ↦ (ok tt, record { columns = cols; row_count = n })
          ]
        ])
    else (err schema_mismatch, self)

unfoldable pub take_columns : Columns → List ℕ → Option Columns
take_columns [] is = some []
take_columns ((n, d) ∷ cols) is = elim (take_data d is) [
  | none ↦ none
  | some d' ↦ elim (take_columns cols is) [ none ↦ none | some rest ↦ some ((n, d') ∷ rest) ]
]

-- `RowBatch::take_indices`
unfoldable pub take_indices : RowBatch → List ℕ → Option RowBatch
take_indices b is =
    map_option (λ cols. record { columns = cols; row_count = length is })
      (take_columns b.columns is)

-- `values.iter().any(|value| value.len() != *width)`
unfoldable pub any_other_width : ℕ → List (List ℕ) → Bool
any_other_width w [] = false
any_other_width w (v ∷ vs) = if length v == w then any_other_width w vs else true

unfoldable pub validate_fixed_str_width : Name → ColumnData → Result BatchError (Unit {0})
unfolding any_other_width
validate_fixed_str_width n (fixed_str_data w vs) =
    guard (not (any_other_width w vs)) (fixed_string_width_mismatch n w)
validate_fixed_str_width n _ = ok tt

-- The test of a column's row count against those before it.
unfoldable pub next_row_count : Name → Option ℕ → ℕ → Result BatchError ℕ
next_row_count n none actual = ok actual
next_row_count n (some expected) actual =
    if expected == actual then ok expected else err (row_count_mismatch n expected actual)

-- One round of the loop of `RowBatchBuilder::build`.
unfoldable pub build_column : Columns → ColumnDef → Option ℕ → Result BatchError (ColumnData × ℕ)
unfolding find_column
build_column cols c count = do
  d ← ok_or (find_column cols c.name) (missing_column c.name)
  guard (matches_dtype d c.dtype) (column_type_mismatch c.name c.dtype)
  validate_fixed_str_width c.name d
  n ← next_row_count c.name count (data_row_count d)
  ok (d, n)

unfoldable pub build_columns :
    Columns → List ColumnDef → Option ℕ → Result BatchError (Columns × Option ℕ)
build_columns cols [] count = ok ([], count)
build_columns cols (c ∷ cs) count = do
  (d, n) ← build_column cols c count
  (ordered, last) ← build_columns cols cs (some n)
  ok ((c.name, d) ∷ ordered, last)

abbrev pub unwrap_or {ℓ} : {A : Type ℓ} → A → Option A → A
unwrap_or a none = a
unwrap_or a (some b) = b

-- `RowBatchBuilder::build`, of the columns that `column` has added.
unfoldable pub build : Schema → Columns → Result BatchError RowBatch
build s cols = do
  guard (length cols == length s.columns) schema_mismatch
  (ordered, count) ← build_columns cols s.columns none
  ok (record { columns = ordered; row_count = unwrap_or 0 count })
