-- ===== src/Db/Predicate/Filter.antt =====
-- The filters of bypass-db/src/scan.rs by a predicate: the fast paths against the test of each row.
use bypass_io.Prelude.{ℕ, ◌≡◌, some}
use bypass_io.Db.Float.{f64_gt}
use bypass_io.Db.Simd.{in_range_f64}
use bypass_io.Db.Predicate.{ColumnPredicate}

-- What the trait's comments ask of an implementation.
pub record IsLawful (p : ColumnPredicate) : Type 0 where
  pub in_range :
      (min max : ℕ)
      → p.f64_range ≡ some (min, max)
      → (v : ℕ) → p.test_f64 v ≡ in_range_f64 min max v
  pub above :
      (threshold : ℕ) → p.f64_gt ≡ some threshold → (v : ℕ) → p.test_f64 v ≡ f64_gt v threshold
