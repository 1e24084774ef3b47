-- ===== src/Db/Predicate.antt =====
-- `ColumnPredicate` of bypass-db/src/scan.rs, its implementations, and the filters by a predicate.
pub mod Chunks
pub mod Filter
mod Tests
use bypass_io.Prelude.{
  ℕ, zero, suc, ◌+◌, Bool, true, false, ◌&&◌, List, [], ◌∷◌, ◌++◌, Option, none, some, Result, ok,
  err, ◌>>=◌, ok_or, bytes_eq, map, if◌then◌else◌,
}
use bypass_io.Db.Schema.{Name}
use bypass_io.Db.Error.{ScanError, unknown_column}
use bypass_io.Db.Float.{f64_lt, f64_ge, f64_gt, i64_as_f64}
use bypass_io.Db.Mapped.{MappedColumn, f64_value, i64_value, fixed_str_value}
use bypass_io.Db.Simd.{
  range_filter_f64_values, range_filter_f64_selection, gt_filter_f64_values,
  gt_filter_f64_selection, range_filter_i64_bytes,
}
use bypass_io.Db.Scan.{
  Chunk, owned, mapped, ScanColumn, f64_chunks, i64_chunks, timestamp_chunks, fixed_str_chunks,
  ScanResult, chunk_rows, value_at,
}

-- The trait: a method that an implementation leaves out is `none` or false.
pub record ColumnPredicate : Type 0 where
  pub column : Name
  pub f64_range : Option (ℕ × ℕ)
  pub f64_gt : Option ℕ
  pub test_f64 : ℕ → Bool
  pub test_i64 : ℕ → Bool
  pub test_fixed_str : List ℕ → Bool

unfoldable pub range_predicate : Name → ℕ → ℕ → ColumnPredicate
range_predicate name min max = record {
  column = name;
  f64_range = some (min, max);
  f64_gt = none;
  test_f64 = λ v. f64_ge v min && f64_lt v max;
  test_i64 = λ v. f64_ge (i64_as_f64 v) min && f64_lt (i64_as_f64 v) max;
  test_fixed_str = λ v. false;
}

unfoldable pub gt_predicate : Name → ℕ → ColumnPredicate
gt_predicate name threshold = record {
  column = name;
  f64_range = none;
  f64_gt = some threshold;
  test_f64 = λ v. f64_gt v threshold;
  test_i64 = λ v. f64_gt (i64_as_f64 v) threshold;
  test_fixed_str = λ v. false;
}

unfoldable pub scalar_predicate : Name → List ℕ → ColumnPredicate
scalar_predicate name value = record {
  column = name;
  f64_range = none;
  f64_gt = none;
  test_f64 = λ v. false;
  test_i64 = λ v. false;
  test_fixed_str = λ v. bytes_eq v value;
}

abbrev pub is_some_and {ℓ} : {A : Type ℓ} → Option A → (A → Bool) → Bool
is_some_and none test = false
is_some_and (some v) test = test v

-- `ScanColumn::test_at`
unfoldable pub test_at : ScanColumn → ℕ → ColumnPredicate → Bool
test_at (f64_chunks cs) i p = is_some_and (value_at f64_value cs i) p.test_f64
test_at (i64_chunks cs) i p = is_some_and (value_at i64_value cs i) p.test_i64
test_at (timestamp_chunks cs) i p = is_some_and (value_at i64_value cs i) p.test_i64
test_at (fixed_str_chunks w cs) i p = is_some_and (value_at fixed_str_value cs i) p.test_fixed_str

-- The loop of `range_filter_f64` and `gt_filter_f64`: the local positions of each chunk, moved by the
-- rows before it.
unfoldable pub filter_chunks : (Chunk ℕ → List ℕ) → ℕ → List (Chunk ℕ) → List ℕ
unfolding chunk_rows
filter_chunks local base [] = []
filter_chunks local base (c ∷ cs) =
    map (λ idx. base + idx) (local c) ++ filter_chunks local (base + chunk_rows c) cs

-- `(from..from + n).filter(test)`
unfoldable pub filter_range : (ℕ → Bool) → ℕ → ℕ → List ℕ
filter_range test from zero = []
filter_range test from (suc n) =
    let rest = filter_range test (suc from) n in if test from then from ∷ rest else rest

-- `ScanResult::column`
unfoldable pub find_scan_column : List (Name × ScanColumn) → Name → Option ScanColumn
find_scan_column [] n = none
find_scan_column ((m, c) ∷ cols) n = if bytes_eq m n then some c else find_scan_column cols n

module _ (avx : Bool) where
  unfoldable pub range_local : ℕ → ℕ → Chunk ℕ → List ℕ
  range_local min max (owned vs) = range_filter_f64_values avx vs min max
  range_local min max (mapped s) = range_filter_f64_selection avx s.column s.rows min max

  unfoldable pub gt_local : ℕ → Chunk ℕ → List ℕ
  gt_local threshold (owned vs) = gt_filter_f64_values avx vs threshold
  gt_local threshold (mapped s) = gt_filter_f64_selection avx s.column s.rows threshold

  -- `ScanColumn::range_filter_f64`
  unfoldable pub range_filter_f64 : ScanColumn → ℕ → ℕ → Option (List ℕ)
  range_filter_f64 (f64_chunks cs) min max = some (filter_chunks (range_local min max) 0 cs)
  range_filter_f64 _ min max = none

  -- `ScanColumn::gt_filter_f64`
  unfoldable pub gt_filter_f64 : ScanColumn → ℕ → Option (List ℕ)
  gt_filter_f64 (f64_chunks cs) threshold = some (filter_chunks (gt_local threshold) 0 cs)
  gt_filter_f64 _ threshold = none

  abbrev pub try_range : ScanColumn → Option (ℕ × ℕ) → Option (List ℕ)
  try_range c none = none
  try_range c (some (min, max)) = range_filter_f64 c min max

  abbrev pub try_gt : ScanColumn → Option ℕ → Option (List ℕ)
  try_gt c none = none
  try_gt c (some threshold) = gt_filter_f64 c threshold

  unfoldable pub filter_scan_indices : ScanResult → ColumnPredicate → Result ScanError (List ℕ)
  unfolding find_scan_column
  filter_scan_indices result p = do
    c ← ok_or (find_scan_column result.columns p.column) (unknown_column p.column)
    elim (try_range c p.f64_range) [
      | some indices ↦ ok indices
      | none ↦ elim (try_gt c p.f64_gt) [
        | some indices ↦ ok indices
        | none ↦ ok (filter_range (λ i. test_at c i p) 0 result.row_count)
      ]
    ]

  unfoldable pub range_filter_i64_mapped : MappedColumn → ℕ → ℕ → Result ScanError (List ℕ)
  range_filter_i64_mapped column start end = range_filter_i64_bytes avx column.mmap start end
