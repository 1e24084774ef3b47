-- ===== src/Db/Segment/Pruning.antt =====
-- `overlaps_time_range` of bypass-db/src/segment.rs: which segments a scan may leave out.
use bypass_io.Prelude.{
  ℕ, suc, ◌≤◌, ◌≡◌, refl, subst, true, inl, inr, List, [], ◌∷◌, some, get_elem?, zero, arith,
  Bool-cases, leb→le, lt→ltb, ltb→lt, leb, ltb,
}
use bypass_io.Db.Int64.{i64_key, i64_lt, i64_le, i64_min, i64_max}
use bypass_io.Db.Segment.{ImmutableSegment, overlaps_time_range}

-- One step of each of the two folds.
lesser :
    (x m : ℕ) (xs : List ℕ)
    → i64_min xs ≡ some m
    → (r : ℕ) × (i64_min (x ∷ xs) ≡ some r) × (i64_key r ≤ i64_key x) × (i64_key r ≤ i64_key m)
unfolding i64_min
lesser x m xs h = elim (Bool-cases (i64_le x m)) [
  | inl e ↦ (x, rw (h, e) refl, omega arith, leb→le (i64_key x) (i64_key m) e)
  | inr e ↦ (m, rw (h, e) refl, ground (arith, e), omega arith)
]

greater :
    (x m : ℕ) (xs : List ℕ)
    → i64_max xs ≡ some m
    → (r : ℕ) × (i64_max (x ∷ xs) ≡ some r) × (i64_key x ≤ i64_key r) × (i64_key m ≤ i64_key r)
unfolding i64_max
greater x m xs h = elim (Bool-cases (i64_lt m x)) [
  | inl e ↦ (x, rw (h, e) refl, omega arith, omega (arith, ltb→lt (i64_key m) (i64_key x) e))
  | inr e ↦ (m, rw (h, e) refl, ground (arith, e), omega arith)
]

-- The least and the greatest of the values enclose each of them.
Enclosed : List ℕ → ℕ → Type 0
Enclosed ts t =
    (lo : ℕ) × (hi : ℕ) × (i64_min ts ≡ some lo)
    × (i64_max ts ≡ some hi)
    × (i64_key lo ≤ i64_key t)
    × (i64_key t ≤ i64_key hi)

bounds_head : (x : ℕ) (ts : List ℕ) → Enclosed (x ∷ ts) x
unfolding i64_min i64_max Enclosed
bounds_head x [] = (x, x, refl, refl, omega arith, omega arith)
bounds_head x (y ∷ ts) =
    let (lo, hi, least, greatest, a, b) = bounds_head y ts in
    let (l, l_is, lx, lm) = lesser x lo (y ∷ ts) least in
    let (g, g_is, gx, gm) = greater x hi (y ∷ ts) greatest in (l, g, l_is, g_is, lx, gx)

bounds : (ts : List ℕ) (i t : ℕ) → get_elem? ts i ≡ some t → Enclosed ts t
unfolding Enclosed
bounds [] i t e = cc
bounds (x ∷ ts) zero t e = subst (Enclosed (x ∷ ts)) same (bounds_head x ts)
  where
    same : x ≡ t
    same = cc
bounds (x ∷ ts) (suc i) t e =
    let (lo, hi, least, greatest, a, b) = bounds ts i t e in
    let (l, l_is, lx, lm) = lesser x lo ts least in
    let (g, g_is, gx, gm) = greater x hi ts greatest in
    (l, g, l_is, g_is, omega (arith, lm, a), omega (arith, gm, b))

le→leb : (a b : ℕ) → a ≤ b → leb a b ≡ true
le→leb a b h = ground arith

-- A segment that has the least and the greatest of its timestamps is not left out of a scan of a
-- range that has one of them.
pub overlaps_time_range-stamp :
    (g : ImmutableSegment) (ts : List ℕ) (i t start end : ℕ)
    → g.meta.min_ts ≡ i64_min ts
    → g.meta.max_ts ≡ i64_max ts
    → get_elem? ts i ≡ some t
    → i64_le start t ≡ true
    → i64_lt t end ≡ true
    → overlaps_time_range g start end ≡ true
unfolding overlaps_time_range Enclosed
overlaps_time_range-stamp g ts i t start end least greatest e after before =
    let (lo, hi, lo_is, hi_is, a, b) = bounds ts i t e in
    let enough : leb (i64_key start) (i64_key hi) ≡ true =
      le→leb _ _ (omega (arith, b, leb→le (i64_key start) (i64_key t) after)) in
    let soon : ltb (i64_key lo) (i64_key end) ≡ true =
      lt→ltb _ _ (omega (arith, a, ltb→lt (i64_key t) (i64_key end) before)) in
    rw (least, greatest, lo_is, hi_is, enough, soon) refl
