-- ===== src/Db/Table/Scan/Taking.antt =====
-- `filter_time_batch` of bypass-db/src/table.rs on a batch that fits its schema.
use bypass_io.Prelude.{
  ℕ, suc, ◌+◌, ◌<◌, ◌≤◌, ◌≡◌, refl, sym, ap, subst, Bool, inl, inr, List, [], ◌∷◌, some, ok, length,
  get_elem?_total, arith, Bool-cases, ◌&&◌,
}
use bypass_io.Prelude.Predicates.{All, All-get_elem?}
use bypass_io.Db.Schema.{ColumnDef, Schema, timestamp_column}
use bypass_io.Db.Batch.{
  ColumnData, f64_data, i64_data, timestamp_data, fixed_str_data, Columns, RowBatch, column, pick,
  take_data, take_columns, take_indices, timestamp_values, data_row_count, matches_dtype,
}
use bypass_io.Db.Batch.WellFormed.{Suits, Fits, WellFormed}
use bypass_io.Db.Int64.{i64_le, i64_lt}
use bypass_io.Db.Simd.{positions}
use bypass_io.Db.Table.{filter_time_batch}

pick_total :
    {A : Type 0} (P : A → Type 0) (vs : List A) (is : List ℕ)
    → All P vs
    → All (λ i. i < length vs) is
    → (out : List A) × (pick vs is ≡ some out) × (length out ≡ length is) × All P out
unfolding pick
pick_total P vs [] hv h = ([], refl, refl, tt)
pick_total P vs (i ∷ is) hv h =
    let (v, found) = get_elem?_total vs i h.0 in
    let (out, rest, size, kept) = pick_total P vs is hv h.1 in
    (v ∷ out, ground (arith, found, rest), ap suc size, (All-get_elem? P vs i hv found, kept))

All-true : {A : Type 0} (vs : List A) → All (λ v. Unit {0}) vs
All-true [] = tt
All-true (v ∷ vs) = (tt, All-true vs)

-- Rows that a column has can be taken from it, and what is taken suits the column's definition.
pub take_data-Suits :
    (n : ℕ) (c : ColumnDef) (d : ColumnData) (is : List ℕ)
    → Suits n c c.name d
    → All (λ i. i < n) is
    → (out : ColumnData) × (take_data d is ≡ some out) × Suits (length is) c c.name out
unfolding take_data data_row_count matches_dtype
take_data-Suits n c (f64_data vs) is h lt =
    let (out, found, size, kept) =
      pick_total (λ v. Unit {0}) vs is (All-true vs)
        (subst (λ k. All (λ i. i < k) is) (sym h.counted) lt) in
    (
      f64_data out,
      ground (arith, found),
      record { named = refl; typed = h.typed; counted = size; wide = tt },
    )
take_data-Suits n c (i64_data vs) is h lt =
    let (out, found, size, kept) =
      pick_total (λ v. Unit {0}) vs is (All-true vs)
        (subst (λ k. All (λ i. i < k) is) (sym h.counted) lt) in
    (
      i64_data out,
      ground (arith, found),
      record { named = refl; typed = h.typed; counted = size; wide = tt },
    )
take_data-Suits n c (timestamp_data vs) is h lt =
    let (out, found, size, kept) =
      pick_total (λ v. Unit {0}) vs is (All-true vs)
        (subst (λ k. All (λ i. i < k) is) (sym h.counted) lt) in
    (
      timestamp_data out,
      ground (arith, found),
      record { named = refl; typed = h.typed; counted = size; wide = tt },
    )
take_data-Suits n c (fixed_str_data w vs) is h lt =
    let (out, found, size, kept) =
      pick_total (λ v. length v ≡ w) vs is h.wide
        (subst (λ k. All (λ i. i < k) is) (sym h.counted) lt) in
    (
      fixed_str_data w out,
      ground (arith, found),
      record { named = refl; typed = h.typed; counted = size; wide = kept },
    )

pub take_columns-Fits :
    (n : ℕ) (cs : List ColumnDef) (cols : Columns) (is : List ℕ)
    → Fits n cs cols
    → All (λ i. i < n) is
    → (out : Columns) × (take_columns cols is ≡ some out) × Fits (length is) cs out
unfolding take_columns
take_columns-Fits n [] [] is h lt = ([], refl, tt)
take_columns-Fits n [] (x ∷ cols) is h lt = absurd h
take_columns-Fits n (c ∷ cs) [] is h lt = absurd h
take_columns-Fits n (c ∷ cs) ((m, d) ∷ cols) is h lt =
    let (one, taken, suits) =
      take_data-Suits n c d is (subst (λ name. Suits n c name d) h.0.named h.0) lt in
    let (out, rest, fits) = take_columns-Fits n cs cols is h.1 lt in
    (
      (m, one) ∷ out,
      ground (arith, taken, rest),
      (subst (λ name. Suits (length is) c name one) (sym h.0.named) suits, fits),
    )

-- The timestamps of a range, as the scans test them.
abbrev pub within : ℕ → ℕ → ℕ → Bool
within start end v = i64_le start v && i64_lt v end

positions-lt :
    {A : Type 0} (test : A → Bool) (base n : ℕ) (vs : List A)
    → base + length vs ≤ n
    → All (λ i. i < n) (positions test base vs) × (length (positions test base vs) ≤ length vs)
unfolding positions
positions-lt test base n [] h = (tt, omega arith)
positions-lt test base n (v ∷ vs) h =
    let rest = positions-lt test (suc base) n vs (omega (arith, h)) in
    elim (Bool-cases (test v)) [
      | inl e ↦ rw e ((omega (arith, h), rest.0), omega (arith, rest.1))
      | inr e ↦ rw e (rest.0, omega (arith, rest.1))
    ]

-- The rows of a time range of a batch that fits the schema.
pub filter_time_batch-WellFormed :
    (s : Schema) (b : RowBatch) (start end : ℕ) (stamp : ColumnDef) (ts : List ℕ)
    → WellFormed s b
    → timestamp_column s ≡ some stamp
    → column b stamp.name ≡ some (timestamp_data ts)
    → length ts ≡ b.row_count
    → (rows : RowBatch) × (filter_time_batch s b start end ≡ some (ok rows))
      × (take_columns b.columns (positions (within start end) 0 ts) ≡ some rows.columns)
      × WellFormed s rows
      × (rows.row_count ≡ length (positions (within start end) 0 ts))
      × (rows.row_count ≤ b.row_count)
      × All (λ i. i < b.row_count) (positions (within start end) 0 ts)
unfolding filter_time_batch take_indices timestamp_values
filter_time_batch-WellFormed s b start end stamp ts fits at found sized =
    let low = positions-lt (within start end) 0 b.row_count ts (omega (arith, sized)) in
    let (out, taken, kept) =
      take_columns-Fits b.row_count s.columns b.columns (positions (within start end) 0 ts) fits
        low.0 in
    (
      record { columns = out; row_count = length (positions (within start end) 0 ts) },
      ground (arith, at, found, taken),
      taken,
      kept,
      refl,
      omega (arith, low.1, sized),
      low.0,
    )
