-- ===== src/Db/Schema.antt =====
-- bypass-db/src/schema.rs. A `String` is its UTF-8 bytes, and a `usize` a number.
pub mod Validity
pub mod Complete
mod Tests
use bypass_io.Prelude.{
  ℕ, zero, suc, ◌+◌, ◌==◌, Bool, true, false, ◌||◌, List, [], ◌∷◌, Option, none, some, Result, ok,
  err, ◌>>=◌, ◌>>◌, guard, ok_or, bytes_eq, get_elem?, if◌then◌else◌,
}

abbrev pub Name : Type 0
Name = List ℕ

pub data DType : Type 0 where
  f64 i64 timestamp : DType
  fixed_str : ℕ → DType

-- `==` on `DType`, derived in the source.
unfoldable pub dtype_eq : DType → DType → Bool
dtype_eq f64 f64 = true
dtype_eq i64 i64 = true
dtype_eq timestamp timestamp = true
dtype_eq (fixed_str w) (fixed_str v) = w == v
dtype_eq _ _ = false

unfoldable pub is_fixed_str : DType → Bool
is_fixed_str (fixed_str w) = true
is_fixed_str _ = false

pub data SchemaError : Type 0 where
  empty_table_name : SchemaError
  empty_column_name : SchemaError
  no_columns : SchemaError
  duplicate_column : (column : Name) → SchemaError
  invalid_fixed_string_width : (column : Name) → SchemaError
  missing_timestamp_column : SchemaError
  multiple_timestamp_columns : SchemaError

pub record ColumnDef : Type 0 where
  pub name : Name
  pub dtype : DType

abbrev pub is_empty : {A : Type 0} → List A → Bool
is_empty [] = true
is_empty (x ∷ xs) = false

-- `matches!(dtype, DType::FixedStr(0))`
abbrev pub is_zero_width : DType → Bool
is_zero_width (fixed_str w) = w == 0
is_zero_width _ = false

-- `ColumnDef::new`
unfoldable pub new_column : Name → DType → Result SchemaError ColumnDef
new_column name dtype =
    if is_empty name
    then err empty_column_name
    else if is_zero_width dtype
    then err (invalid_fixed_string_width name)
    else ok (record { name = name; dtype = dtype })

pub record Schema : Type 0 where
  pub name : Name
  pub columns : List ColumnDef
  pub timestamp_column : ℕ

-- Membership in the `HashSet` of the names seen.
unfoldable pub contains : List Name → Name → Bool
contains [] n = false
contains (m ∷ ms) n = bytes_eq m n || contains ms n

-- `timestamp_column.replace(idx)` at a timestamp column.
unfoldable pub next_timestamp : ℕ → ColumnDef → Option ℕ → Result SchemaError (Option ℕ)
unfolding dtype_eq
next_timestamp idx c ts =
    if dtype_eq c.dtype timestamp
    then elim ts [ some i ↦ err multiple_timestamp_columns | none ↦ ok (some idx) ]
    else ok ts

-- The loop of `Schema::new`, at index `idx`.
unfoldable pub check_columns :
    ℕ → List ColumnDef → List Name → Option ℕ → Result SchemaError (Option ℕ)
check_columns idx [] seen ts = ok ts
check_columns idx (c ∷ cs) seen ts =
    if contains seen c.name
    then err (duplicate_column c.name)
    else (next_timestamp idx c ts >>= λ ts'. check_columns (suc idx) cs (c.name ∷ seen) ts')

-- `Schema::new`
unfoldable pub new : Name → List ColumnDef → Result SchemaError Schema
unfolding check_columns contains next_timestamp
new name columns = do
  guard (if is_empty name then false else true) empty_table_name
  guard (if is_empty columns then false else true) no_columns
  found ← check_columns 0 columns [] none
  ts ← ok_or found missing_timestamp_column
  ok (record { name = name; columns = columns; timestamp_column = ts })

-- `Schema::timestamp_column`; `none` is an index out of bounds.
unfoldable pub timestamp_column : Schema → Option ColumnDef
timestamp_column s = get_elem? s.columns s.timestamp_column

find : List ColumnDef → Name → Option ColumnDef
find [] n = none
find (c ∷ cs) n = if bytes_eq c.name n then some c else find cs n

-- `Schema::column`
unfoldable pub column : Schema → Name → Option ColumnDef
unfolding find
column s n = find s.columns n

position : ℕ → List ColumnDef → Name → Option ℕ
position i [] n = none
position i (c ∷ cs) n = if bytes_eq c.name n then some i else position (suc i) cs n

-- `Schema::column_index`
unfoldable pub column_index : Schema → Name → Option ℕ
unfolding position
column_index s n = position 0 s.columns n
