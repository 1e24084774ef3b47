-- ===== src/Db/Simd/Tests.antt =====
-- The theorems on the vector loops at concrete columns.
use bypass_io.Prelude.{
  ℕ, ◌-◌, ◌^◌, ◌≡◌, refl, true, false, List, [], ◌∷◌, ◌++◌, replicate, ok, arith,
}
use bypass_io.Db.Simd.{
  range_filter_i64_bytes, range_filter_f64_values, gt_filter_f64_values, range_filter_f64_bytes,
  gt_filter_f64_bytes,
}
use bypass_io.Db.Simd.Lanes.{f64_filters-avx, range_filter_i64_bytes-avx2}

-- 1.5, 2.5, 3.5, 1.0, 2.0
abbrev prices : List ℕ
prices =
    4609434218613702656 ∷ 4612811918334230528 ∷ 4615063718147915776 ∷ 4607182418800017408
    ∷ 4611686018427387904 ∷ []

-- Those from 1.5 up to 2.5.
prices_found :
    range_filter_f64_values true prices 4609434218613702656 4612811918334230528 ≡ 0 ∷ 4 ∷ []
unfolding range_filter_f64_values bypass_io.Db.Simd.range_filter_f64_values_avx
    bypass_io.Db.Simd.lane_loop bypass_io.Db.Simd.positions bypass_io.Db.Simd.push_mask_indices
    bypass_io.Db.Simd.trailing_zeros bypass_io.Db.Float.f64_lt bypass_io.Db.Float.f64_ge
    bypass_io.Db.Float.f64_key bypass_io.Db.Float.is_nan
prices_found = refl

f64_filters-avx_example :
    (range_filter_f64_values true prices 0 9 ≡ range_filter_f64_values false prices 0 9)
    × (gt_filter_f64_values true prices 0 ≡ gt_filter_f64_values false prices 0)
    × (range_filter_f64_bytes true (1 ∷ []) 0 9 ≡ range_filter_f64_bytes false (1 ∷ []) 0 9)
    × (gt_filter_f64_bytes true (1 ∷ []) 0 ≡ gt_filter_f64_bytes false (1 ∷ []) 0)
f64_filters-avx_example = f64_filters-avx (1 ∷ []) prices 0 9

-- Five words: 1, -1, 3, 4 and 5.
abbrev stamps : List ℕ
stamps =
    1 ∷ replicate 7 0
    ++ (replicate 8 255 ++ (3 ∷ replicate 7 0 ++ (4 ∷ replicate 7 0 ++ (5 ∷ replicate 7 0))))

range_filter_i64_bytes-avx2_example :
    range_filter_i64_bytes true stamps (2 ^ 64 - 1) 5
    ≡ range_filter_i64_bytes false stamps (2 ^ 64 - 1) 5
range_filter_i64_bytes-avx2_example =
    range_filter_i64_bytes-avx2 stamps (2 ^ 64 - 1) 5 (omega arith) (ground arith)

stamps_found : range_filter_i64_bytes true stamps (2 ^ 64 - 1) 5 ≡ ok (0 ∷ 1 ∷ 2 ∷ 3 ∷ [])
unfolding range_filter_i64_bytes bypass_io.Db.Simd.range_filter_i64_bytes_avx2
    bypass_io.Db.Simd.words_of bypass_io.Db.Segment.chunks bypass_io.Prelude.from_le_bytes
    bypass_io.Db.Simd.lane_loop bypass_io.Db.Simd.positions bypass_io.Db.Simd.push_mask_indices
    bypass_io.Db.Simd.trailing_zeros
stamps_found = refl
