-- ===== src/Db/Simd.antt =====
-- The module `simd` of bypass-db/src/scan.rs: filters over contiguous values, with and without vector
-- instructions. Whether the processor has them is an argument.
pub mod Lanes
mod Tests
use bypass_io.Prelude.{
  ℕ, bit_and, zero, suc, ◌+◌, ◌-◌, ◌*◌, ◌/◌, ◌%◌, ◌^◌, ◌==◌, Bool, true, false, ◌&&◌, List, [], ◌∷◌,
  ◌++◌, Option, none, some, Result, ok, err, ◌>>=◌, ◌>>◌, guard, length, map, if◌then◌else◌,
  from_le_bytes, usize_mod,
}
use bypass_io.Db.Error.{ScanError, invalid_column_bytes}
use bypass_io.Db.Float.{f64_lt, f64_ge, f64_gt}
use bypass_io.Db.Int64.{i64_lt, i64_le}
use bypass_io.Db.Rows.{RowSelection, is_identity, iter}
use bypass_io.Db.Mapped.{MappedColumn, f64_value}
use bypass_io.Db.Segment.{chunks}

-- `enumerate().filter_map(|(idx, value)| test(value).then_some(idx))`, counting from `base`.
unfoldable pub positions {ℓ} : {A : Type ℓ} → (A → Bool) → ℕ → List A → List ℕ
positions test base [] = []
positions test base (v ∷ vs) =
    let rest = positions test (suc base) vs in if test v then base ∷ rest else rest

-- `mask.trailing_zeros()`, of at most `n` bits.
unfoldable pub trailing_zeros : ℕ → ℕ → ℕ
trailing_zeros zero mask = 0
trailing_zeros (suc n) mask = if mask % 2 == 1 then 0 else suc (trailing_zeros n (mask / 2))

-- The loop takes one round for each bit that is set, and `fuel` rounds at most.
unfoldable pub push_mask_indices : ℕ → ℕ → ℕ → List ℕ
unfolding trailing_zeros
push_mask_indices zero mask base = []
push_mask_indices (suc fuel) mask base =
    let lane = trailing_zeros 32 mask in
    let rest = push_mask_indices fuel (bit_and mask (mask - 1)) base in
    if mask == 0 then [] else (base + lane) ∷ rest

abbrev pub bit : Bool → ℕ
bit false = 0
bit true = 1

-- `_mm256_movemask_pd` of four lanes of comparison results.
abbrev pub movemask : Bool → Bool → Bool → Bool → ℕ
movemask a b c d = bit a + 2 * bit b + 4 * bit c + 8 * bit d

-- The loop over four lanes at a time, and the loop over the lanes that are left. A mask has four
-- bits, so five rounds take it to 0.
unfoldable pub lane_loop : (ℕ → Bool) → (ℕ → Bool) → ℕ → List ℕ → List ℕ
lane_loop vector scalar idx (a ∷ b ∷ c ∷ d ∷ rest) =
    push_mask_indices 5 (movemask (vector a) (vector b) (vector c) (vector d)) idx
    ++ lane_loop vector scalar (idx + 4) rest
lane_loop vector scalar idx values = positions scalar idx values

abbrev pub in_range_f64 : ℕ → ℕ → ℕ → Bool
in_range_f64 min max value = f64_ge value min && f64_lt value max

unfoldable pub scalar_range_filter_f64 : List ℕ → ℕ → ℕ → List ℕ
scalar_range_filter_f64 values min max = positions (in_range_f64 min max) 0 values

unfoldable pub scalar_gt_filter_f64 : List ℕ → ℕ → List ℕ
scalar_gt_filter_f64 values threshold = positions (λ value. f64_gt value threshold) 0 values

unfoldable pub range_filter_f64_values_avx : List ℕ → ℕ → ℕ → List ℕ
range_filter_f64_values_avx values min max =
    lane_loop (λ v. f64_ge v min && f64_lt v max) (in_range_f64 min max) 0 values

unfoldable pub gt_filter_f64_values_avx : List ℕ → ℕ → List ℕ
gt_filter_f64_values_avx values threshold =
    lane_loop (λ v. f64_gt v threshold) (λ v. f64_gt v threshold) 0 values

-- The words of a column of bytes.
unfoldable pub words_of : List ℕ → List ℕ
unfolding chunks
words_of bs = map from_le_bytes (chunks (length bs / 8) 8 bs)

-- `start.checked_sub(1)` of an `i64`.
abbrev pub i64_checked_pred : ℕ → Option ℕ
i64_checked_pred start =
    if start == 2 ^ 63 then none else some ((start + (usize_mod - 1)) % usize_mod)

-- The comparisons of the vector loop: `value > start - 1`, or always for the least `start`.
abbrev pub ge_start : Option ℕ → ℕ → Bool
ge_start none value = true
ge_start (some start_minus_one) value = i64_lt start_minus_one value

unfoldable pub range_filter_i64_bytes_avx2 : List ℕ → ℕ → ℕ → List ℕ
range_filter_i64_bytes_avx2 bs start end =
    lane_loop (λ v. ge_start (i64_checked_pred start) v && i64_lt v end)
      (λ v. i64_le start v && i64_lt v end) 0 (words_of bs)

unfoldable pub range_filter_f64_bytes_avx : List ℕ → ℕ → ℕ → List ℕ
range_filter_f64_bytes_avx bs min max =
    lane_loop (λ v. f64_ge v min && f64_lt v max) (in_range_f64 min max) 0 (words_of bs)

unfoldable pub gt_filter_f64_bytes_avx : List ℕ → ℕ → List ℕ
gt_filter_f64_bytes_avx bs threshold =
    lane_loop (λ v. f64_gt v threshold) (λ v. f64_gt v threshold) 0 (words_of bs)

abbrev pub whole_words : List ℕ → Result ScanError (Unit {0})
whole_words bs = guard (length bs % 8 == 0) (invalid_column_bytes (length bs) 8)

module _ (avx : Bool) where
  unfoldable pub range_filter_i64_bytes : List ℕ → ℕ → ℕ → Result ScanError (List ℕ)
  range_filter_i64_bytes bs start end = do
    whole_words bs
    ok (
        if avx
        then range_filter_i64_bytes_avx2 bs start end
        else positions (λ v. i64_le start v && i64_lt v end) 0 (words_of bs))

  unfoldable pub range_filter_f64_values : List ℕ → ℕ → ℕ → List ℕ
  range_filter_f64_values values min max =
      if avx
      then range_filter_f64_values_avx values min max
      else scalar_range_filter_f64 values min max

  unfoldable pub gt_filter_f64_values : List ℕ → ℕ → List ℕ
  gt_filter_f64_values values threshold =
      if avx
      then gt_filter_f64_values_avx values threshold
      else scalar_gt_filter_f64 values threshold

  unfoldable pub range_filter_f64_bytes : List ℕ → ℕ → ℕ → Result ScanError (List ℕ)
  range_filter_f64_bytes bs min max = do
    whole_words bs
    ok (
        if avx
        then range_filter_f64_bytes_avx bs min max
        else positions (in_range_f64 min max) 0 (words_of bs))

  unfoldable pub gt_filter_f64_bytes : List ℕ → ℕ → Result ScanError (List ℕ)
  gt_filter_f64_bytes bs threshold = do
    whole_words bs
    ok (
        if avx
        then gt_filter_f64_bytes_avx bs threshold
        else positions (λ v. f64_gt v threshold) 0 (words_of bs))

-- The test of a mapped value that may be missing.
abbrev pub passes : (ℕ → Bool) → Option ℕ → Bool
passes test none = false
passes test (some v) = test v

-- `rows.iter().enumerate().filter_map(...)` over the values of the selected rows.
unfoldable pub selected_positions : (ℕ → Bool) → MappedColumn → RowSelection → List ℕ
selected_positions test column rows =
    positions (λ i. passes test (f64_value column i)) 0 (iter rows)

abbrev pub ok_else {ℓ} : {A : Type ℓ} → Result ScanError A → A → A
ok_else (ok a) other = a
ok_else (err e) other = other

module _ (avx : Bool) where
  unfoldable pub range_filter_f64_selection : MappedColumn → RowSelection → ℕ → ℕ → List ℕ
  range_filter_f64_selection column rows min max =
      let other = selected_positions (in_range_f64 min max) column rows in
      if is_identity rows
      then ok_else (range_filter_f64_bytes avx column.mmap min max) other
      else other

  unfoldable pub gt_filter_f64_selection : MappedColumn → RowSelection → ℕ → List ℕ
  gt_filter_f64_selection column rows threshold =
      let other = selected_positions (λ v. f64_gt v threshold) column rows in
      if is_identity rows
      then ok_else (gt_filter_f64_bytes avx column.mmap threshold) other
      else other
