-- ===== src/Db/Simd/Lanes.antt =====
-- The vector loops of bypass-db/src/scan.rs, and the plain loops that they stand in for.
use bypass_io.Prelude.{
  ℕ, suc, ◌+◌, ◌^◌, ◌<◌, ◌≡◌, refl, ap, Bool, true, false, ◌&&◌, List, [], ◌∷◌, ◌++◌, length, arith,
  take, drop, map, zero, ◌/◌, from_le_bytes, IsByte,
}
use native.Mathlib.Nat.{one-le-pow, pow-succ'}
use bypass_io.Prelude.Predicates.{All}
use bypass_io.Db.Segment.{chunks}
use bypass_io.Db.Float.{f64_gt}
use bypass_io.Db.Int64.{i64_lt, i64_le}
use bypass_io.Db.Simd.{
  positions, push_mask_indices, trailing_zeros, movemask, lane_loop, i64_checked_pred, ge_start,
  words_of, in_range_f64, range_filter_i64_bytes, range_filter_f64_values, gt_filter_f64_values,
  range_filter_f64_bytes, gt_filter_f64_bytes, range_filter_i64_bytes_avx2,
  range_filter_f64_values_avx, gt_filter_f64_values_avx, range_filter_f64_bytes_avx,
  gt_filter_f64_bytes_avx, scalar_range_filter_f64, scalar_gt_filter_f64,
}

-- The indices that a mask of four bits gives, from a base on.
abbrev four : Bool → Bool → Bool → Bool → ℕ → List ℕ
four a b c d base = positions (λ t. t) base (a ∷ b ∷ c ∷ d ∷ [])

push_mask_indices-movemask :
    (a b c d : Bool) (base : ℕ) → push_mask_indices 5 (movemask a b c d) base ≡ four a b c d base
unfolding push_mask_indices trailing_zeros positions
push_mask_indices-movemask true true true true base = ground arith
push_mask_indices-movemask true true true false base = ground arith
push_mask_indices-movemask true true false true base = ground arith
push_mask_indices-movemask true true false false base = ground arith
push_mask_indices-movemask true false true true base = ground arith
push_mask_indices-movemask true false true false base = ground arith
push_mask_indices-movemask true false false true base = ground arith
push_mask_indices-movemask true false false false base = ground arith
push_mask_indices-movemask false true true true base = ground arith
push_mask_indices-movemask false true true false base = ground arith
push_mask_indices-movemask false true false true base = ground arith
push_mask_indices-movemask false true false false base = ground arith
push_mask_indices-movemask false false true true base = ground arith
push_mask_indices-movemask false false true false base = ground arith
push_mask_indices-movemask false false false true base = ground arith
push_mask_indices-movemask false false false false base = ground arith

positions-four :
    (test : ℕ → Bool) (idx a b c d : ℕ) (rest : List ℕ)
    → positions test idx (a ∷ b ∷ c ∷ d ∷ rest)
      ≡ four (test a) (test b) (test c) (test d) idx ++ positions test (idx + 4) rest
unfolding positions
positions-four test idx a b c d rest = ground arith

-- Tests that agree on the values find the same positions.
pub positions-ext :
    (f g : ℕ → Bool) (base : ℕ) (vs : List ℕ)
    → All (λ v. f v ≡ g v) vs
    → positions f base vs ≡ positions g base vs
unfolding positions
positions-ext f g base [] h = refl
positions-ext f g base (v ∷ vs) h = rw (h.0, positions-ext f g (suc base) vs h.1)

-- Taking four lanes at a time finds the positions that the plain loop finds, when the vector test
-- agrees with the scalar one.
lane_loop-positions :
    (vector scalar : ℕ → Bool) (idx : ℕ) (vs : List ℕ)
    → All (λ v. vector v ≡ scalar v) vs
    → lane_loop vector scalar idx vs ≡ positions scalar idx vs
unfolding lane_loop
lane_loop-positions vector scalar idx (a ∷ b ∷ c ∷ d ∷ rest) h = ground (
  arith,
  push_mask_indices-movemask (scalar a) (scalar b) (scalar c) (scalar d) idx,
  positions-four scalar idx a b c d rest,
  lane_loop-positions vector scalar (idx + 4) rest h.1.1.1.1,
)
lane_loop-positions vector scalar idx [] h = refl
lane_loop-positions vector scalar idx (a ∷ []) h = refl
lane_loop-positions vector scalar idx (a ∷ b ∷ []) h = refl
lane_loop-positions vector scalar idx (a ∷ b ∷ c ∷ []) h = refl

All-same : (f : ℕ → Bool) (vs : List ℕ) → All (λ v. f v ≡ f v) vs
All-same f [] = tt
All-same f (v ∷ vs) = (refl, All-same f vs)

-- With vector instructions and without them, the filters of `f64` columns find the same rows, in
-- order, whatever the values and the bounds, those that are no numbers included; on bytes that are
-- no whole words both give the same error.
pub f64_filters-avx :
    (bs values : List ℕ) (min max : ℕ)
    → (range_filter_f64_values true values min max ≡ range_filter_f64_values false values min max)
      × (gt_filter_f64_values true values min ≡ gt_filter_f64_values false values min)
      × (range_filter_f64_bytes true bs min max ≡ range_filter_f64_bytes false bs min max)
      × (gt_filter_f64_bytes true bs min ≡ gt_filter_f64_bytes false bs min)
unfolding range_filter_f64_values gt_filter_f64_values range_filter_f64_bytes gt_filter_f64_bytes
    range_filter_f64_values_avx gt_filter_f64_values_avx range_filter_f64_bytes_avx
    gt_filter_f64_bytes_avx scalar_range_filter_f64 scalar_gt_filter_f64
f64_filters-avx bs values min max = (
  lane_loop-positions (in_range_f64 min max) (in_range_f64 min max) 0 values (All-same _ values),
  lane_loop-positions _ _ 0 values (All-same _ values),
  rw (
      lane_loop-positions (in_range_f64 min max) (in_range_f64 min max) 0 (words_of bs)
        (All-same _ (words_of bs))),
  rw (
      lane_loop-positions (λ v. f64_gt v min) (λ v. f64_gt v min) 0 (words_of bs)
        (All-same _ (words_of bs))),
)

ge_start-pred :
    (start v : ℕ)
    → start < 2 ^ 64
    → v < 2 ^ 64
    → ge_start (i64_checked_pred start) v ≡ i64_le start v
ge_start-pred start v hs hv = ground arith

from_le_bytes-take-lt : (n : ℕ) (bs : List ℕ) → All IsByte bs → from_le_bytes (take n bs) < 256 ^ n
unfolding from_le_bytes
from_le_bytes-take-lt zero bs h = omega arith
from_le_bytes-take-lt (suc n) [] h = omega (arith, one-le-pow (suc n) 256 (omega arith))
from_le_bytes-take-lt (suc n) (b ∷ bs) h =
    omega (arith, from_le_bytes-take-lt n bs h.1, pow-succ' 256 n, h.0)

All-drop : (n : ℕ) (bs : List ℕ) → All IsByte bs → All IsByte (drop n bs)
All-drop zero bs h = h
All-drop (suc n) [] h = tt
All-drop (suc n) (b ∷ bs) h = All-drop n bs h.1

-- The words of a column of bytes make the two tests agree.
tests-agree :
    (n : ℕ) (bs : List ℕ) (start end : ℕ)
    → start < 2 ^ 64
    → All IsByte bs
    → All
        (λ v.
          (ge_start (i64_checked_pred start) v && i64_lt v end) ≡ (i64_le start v && i64_lt v end))
        (map from_le_bytes (chunks n 8 bs))
unfolding chunks
tests-agree zero bs start end hs hb = tt
tests-agree (suc n) bs start end hs hb = (
  ap (λ t. t && i64_lt (from_le_bytes (take 8 bs)) end)
      (ge_start-pred start (from_le_bytes (take 8 bs)) hs (from_le_bytes-take-lt 8 bs hb)),
  tests-agree n (drop 8 bs) start end hs (All-drop 8 bs hb),
)

-- On bytes, the filter of timestamps and integers finds with vector instructions what it finds
-- without them, for every bound: also for the least one, of which there is none before.
pub range_filter_i64_bytes-avx2 :
    (bs : List ℕ) (start end : ℕ)
    → start < 2 ^ 64
    → All IsByte bs
    → range_filter_i64_bytes true bs start end ≡ range_filter_i64_bytes false bs start end
unfolding range_filter_i64_bytes range_filter_i64_bytes_avx2
range_filter_i64_bytes-avx2 bs start end hs hb = rw (
    lane_loop-positions (λ v. ge_start (i64_checked_pred start) v && i64_lt v end)
      (λ v. i64_le start v && i64_lt v end) 0 (words_of bs)
      (unfold words_of in tests-agree (length bs / 8) bs start end hs hb))
