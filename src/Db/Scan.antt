-- ===== src/Db/Scan.antt =====
-- Scan results, their chunks and the predicates of bypass-db/src/scan.rs. The chunks of the three
-- types are one type with a parameter, as the three are alike; an `Arc` is what it shares.
pub mod Values
mod Tests
use bypass_io.Prelude.{
  ℕ, zero, suc, ◌+◌, ◌-◌, ◌*◌, ◌^◌, ◌==◌, Bool, true, false, not, ◌&&◌, ◌||◌, List, [], ◌∷◌, ◌++◌,
  Option, none, some, Result, ok, err, ◌>>=◌, ◌>>◌, ok_or, bytes_eq, length, get_elem?, map,
  if◌then◌else◌, ltb, checked_add,
}
use bypass_io.Db.Schema.{Name, DType, f64, i64, timestamp, fixed_str, ColumnDef, Schema}
use bypass_io.Db.Batch.{
  ColumnData, f64_data, i64_data, timestamp_data, fixed_str_data, RowBatch, pick, map_option,
}
use bypass_io.Db.Error.{
  ScanError, unknown_column, column_order_mismatch, column_type_mismatch, row_count_overflow,
}
use bypass_io.Db.Float.{f64_lt, f64_ge, f64_gt, i64_as_f64}
use bypass_io.Db.Mapped.{MappedColumn, f64_value, i64_value, fixed_str_value}
use bypass_io.Db.Rows.{RowSelection, len, index_at, iter, take_local_indices}
use bypass_io.Db.Simd.{
  range_filter_f64_values, range_filter_f64_selection, gt_filter_f64_values,
  gt_filter_f64_selection, range_filter_i64_bytes,
}

pub record MappedSelection : Type 0 where
  pub column : MappedColumn
  pub rows : RowSelection

pub data Chunk (A : Type 0) : Type 0 where
  owned : List A → Chunk A
  mapped : MappedSelection → Chunk A

pub data ScanColumn : Type 0 where
  f64_chunks : List (Chunk ℕ) → ScanColumn
  i64_chunks : List (Chunk ℕ) → ScanColumn
  timestamp_chunks : List (Chunk ℕ) → ScanColumn
  fixed_str_chunks : (width : ℕ) → List (Chunk (List ℕ)) → ScanColumn

pub record ScanResult : Type 0 where
  pub columns : List (Name × ScanColumn)
  pub row_count : ℕ

-- `row_count` of a chunk.
unfoldable pub chunk_rows : {A : Type 0} → Chunk A → ℕ
unfolding len
chunk_rows (owned vs) = length vs
chunk_rows (mapped s) = len s.rows

-- A chunk of one type is read by that type's accessor of `MappedColumn`.
module _ {A : Type 0} (value : MappedColumn → ℕ → Option A) where
  -- `rows.iter().filter_map(|idx| column.value(idx))`
  unfoldable pub mapped_values : MappedColumn → List ℕ → List A
  mapped_values column [] = []
  mapped_values column (i ∷ is) = elim (value column i) [
    | none ↦ mapped_values column is
    | some v ↦ v ∷ mapped_values column is
  ]

  unfoldable pub chunk_values : Chunk A → List A
  chunk_values (owned vs) = vs
  chunk_values (mapped s) = mapped_values s.column (iter s.rows)

  -- `flatten_f64_chunks`, `flatten_i64_chunks` and `flatten_fixed_str_chunks`
  unfoldable pub flatten_chunks : List (Chunk A) → List A
  unfolding chunk_values
  flatten_chunks [] = []
  flatten_chunks (c ∷ cs) = chunk_values c ++ flatten_chunks cs

  unfoldable pub chunk_value : Chunk A → ℕ → Option A
  unfolding index_at
  chunk_value (owned vs) index = get_elem? vs index
  chunk_value (mapped s) index = elim (index_at s.rows index) [
    | none ↦ none
    | some mapped_idx ↦ value s.column mapped_idx
  ]

  -- `value_at_f64`, `value_at_i64` and `value_at_fixed_str`
  unfoldable pub value_at : List (Chunk A) → ℕ → Option A
  unfolding chunk_value chunk_rows
  value_at [] index = none
  value_at (c ∷ cs) index =
      let rest = value_at cs (index - chunk_rows c) in
      if ltb index (chunk_rows c) then chunk_value c index else rest

-- The chunk of an index, and the index in it: the inner loop of `group_indices_by_chunk`. The running
-- base is subtracted as it goes.
unfoldable pub locate : List ℕ → ℕ → ℕ → Option (ℕ × ℕ)
locate [] chunk_idx index = none
locate (len ∷ lens) chunk_idx index =
    let rest = locate lens (suc chunk_idx) (index - len) in
    if ltb index len then some (chunk_idx, index) else rest

-- `groups.last_mut()`: the group of the last chunk grows, or a new one is pushed.
unfoldable pub push_group : List (ℕ × List ℕ) → ℕ → ℕ → List (ℕ × List ℕ)
push_group [] chunk index = (chunk, index ∷ []) ∷ []
push_group ((last, values) ∷ []) chunk index =
    if last == chunk
    then (last, values ++ (index ∷ [])) ∷ []
    else (last, values) ∷ (chunk, index ∷ []) ∷ []
push_group (g ∷ h ∷ groups) chunk index = g ∷ push_group (h ∷ groups) chunk index

unfoldable pub group_from : List (ℕ × List ℕ) → List ℕ → List ℕ → List (ℕ × List ℕ)
unfolding locate push_group
group_from groups [] lens = groups
group_from groups (i ∷ is) lens = elim (locate lens 0 i) [
  | none ↦ group_from groups is lens
  | some at ↦ group_from (push_group groups at.0 at.1) is lens
]

unfoldable pub group_indices_by_chunk : List ℕ → List ℕ → List (ℕ × List ℕ)
unfolding group_from
group_indices_by_chunk indices chunk_lengths = group_from [] indices chunk_lengths

-- One chunk of the groups' loop; `none` is an index out of bounds.
unfoldable pub take_chunk : {A : Type 0} → Chunk A → List ℕ → Option (Chunk A)
unfolding pick take_local_indices
take_chunk (owned vs) is = map_option owned (pick vs is)
take_chunk (mapped s) is = some (mapped (record s { rows = take_local_indices s.rows is }))

unfoldable pub take_groups :
    {A : Type 0} → List (Chunk A) → List (ℕ × List ℕ) → Option (List (Chunk A))
unfolding take_chunk
take_groups chunks [] = some []
take_groups chunks ((chunk_idx, is) ∷ groups) = elim (get_elem? chunks chunk_idx) [
  | none ↦ none
  | some chunk ↦ elim (take_chunk chunk is) [
    | none ↦ none
    | some c ↦ elim (take_groups chunks groups) [ none ↦ none | some cs ↦ some (c ∷ cs) ]
  ]
]

-- `take_f64_chunks`, `take_i64_chunks` and `take_fixed_str_chunks`
unfoldable pub take_chunks : {A : Type 0} → List (Chunk A) → List ℕ → Option (List (Chunk A))
unfolding take_groups group_indices_by_chunk chunk_rows
take_chunks chunks indices =
    take_groups chunks (group_indices_by_chunk indices (map chunk_rows chunks))

-- `ScanColumn::empty`
unfoldable pub empty_column : DType → ScanColumn
empty_column f64 = f64_chunks []
empty_column i64 = i64_chunks []
empty_column timestamp = timestamp_chunks []
empty_column (fixed_str width) = fixed_str_chunks width []

abbrev from_typed : DType → MappedSelection → ScanColumn
from_typed f64 s = f64_chunks (mapped s ∷ [])
from_typed i64 s = i64_chunks (mapped s ∷ [])
from_typed timestamp s = timestamp_chunks (mapped s ∷ [])
from_typed (fixed_str width) s = fixed_str_chunks width (mapped s ∷ [])

-- `ScanColumn::from_mapped`
unfoldable pub from_mapped : MappedColumn → RowSelection → ScanColumn
from_mapped column rows = from_typed column.dtype (record { column = column; rows = rows })

-- `ScanColumn::from`
unfoldable pub from_data : ColumnData → ScanColumn
from_data (f64_data vs) = f64_chunks (owned vs ∷ [])
from_data (i64_data vs) = i64_chunks (owned vs ∷ [])
from_data (timestamp_data vs) = timestamp_chunks (owned vs ∷ [])
from_data (fixed_str_data w vs) = fixed_str_chunks w (owned vs ∷ [])

-- `ScanColumn::append`, with `append_arc_chunks`.
unfoldable pub append_column : ScanColumn → ScanColumn → Result ScanError ScanColumn
append_column (f64_chunks left) (f64_chunks right) = ok (f64_chunks (left ++ right))
append_column (i64_chunks left) (i64_chunks right) = ok (i64_chunks (left ++ right))
append_column (timestamp_chunks left) (timestamp_chunks right) =
    ok (timestamp_chunks (left ++ right))
append_column (fixed_str_chunks w left) (fixed_str_chunks v right) =
    if w == v then ok (fixed_str_chunks w (left ++ right)) else err column_type_mismatch
append_column _ _ = err column_type_mismatch

-- `ScanColumn::take_indices`
unfoldable pub take_column : ScanColumn → List ℕ → Option ScanColumn
unfolding take_chunks
take_column (f64_chunks cs) is = map_option f64_chunks (take_chunks cs is)
take_column (i64_chunks cs) is = map_option i64_chunks (take_chunks cs is)
take_column (timestamp_chunks cs) is = map_option timestamp_chunks (take_chunks cs is)
take_column (fixed_str_chunks w cs) is = map_option (fixed_str_chunks w) (take_chunks cs is)

unfoldable pub f64_values : ScanColumn → Option (List ℕ)
unfolding flatten_chunks f64_value
f64_values (f64_chunks cs) = some (flatten_chunks f64_value cs)
f64_values _ = none

unfoldable pub i64_values : ScanColumn → Option (List ℕ)
unfolding flatten_chunks i64_value
i64_values (i64_chunks cs) = some (flatten_chunks i64_value cs)
i64_values (timestamp_chunks cs) = some (flatten_chunks i64_value cs)
i64_values _ = none

unfoldable pub timestamp_values : ScanColumn → Option (List ℕ)
unfolding flatten_chunks i64_value
timestamp_values (timestamp_chunks cs) = some (flatten_chunks i64_value cs)
timestamp_values _ = none

unfoldable pub fixed_str_values : ScanColumn → Option (List (List ℕ))
unfolding flatten_chunks fixed_str_value
fixed_str_values (fixed_str_chunks w cs) = some (flatten_chunks fixed_str_value cs)
fixed_str_values _ = none

abbrev only_owned : {A : Type 0} → List (Chunk A) → Option (List A)
only_owned (owned vs ∷ []) = some vs
only_owned _ = none

unfoldable pub as_f64 : ScanColumn → Option (List ℕ)
as_f64 (f64_chunks cs) = only_owned cs
as_f64 _ = none

unfoldable pub as_i64 : ScanColumn → Option (List ℕ)
as_i64 (i64_chunks cs) = only_owned cs
as_i64 (timestamp_chunks cs) = only_owned cs
as_i64 _ = none

unfoldable pub as_timestamps : ScanColumn → Option (List ℕ)
as_timestamps (timestamp_chunks cs) = only_owned cs
as_timestamps _ = none

any_mapped : {A : Type 0} → List (Chunk A) → Bool
any_mapped [] = false
any_mapped (owned vs ∷ cs) = any_mapped cs
any_mapped (mapped s ∷ cs) = true

unfoldable pub has_mapped_chunks : ScanColumn → Bool
unfolding any_mapped
has_mapped_chunks (f64_chunks cs) = any_mapped cs
has_mapped_chunks (i64_chunks cs) = any_mapped cs
has_mapped_chunks (timestamp_chunks cs) = any_mapped cs
has_mapped_chunks (fixed_str_chunks w cs) = any_mapped cs
