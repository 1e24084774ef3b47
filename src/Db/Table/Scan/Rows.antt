-- ===== src/Db/Table/Scan/Rows.antt =====
-- `Table::scan_time_range` of bypass-db/src/table.rs against all that the table holds.
use bypass_io.Prelude.{
  ℕ, suc, ◌+◌, ◌^◌, ◌<◌, ◌≤◌, ◌≡◌, refl, sym, ap, ap₂, ◌∙◌, subst, Bool, false, inl, inr, List, [],
  ◌∷◌, ◌++◌, append-nil, some, Result, ok, length, get_elem?, arith, Bool-cases, ◌==◌,
}
use bypass_io.Db.Schema.{ColumnDef, Schema}
use bypass_io.Db.Schema.Validity.{IsValid}
use bypass_io.Db.Batch.{
  ColumnData, f64_data, i64_data, timestamp_data, fixed_str_data, Columns, RowBatch, take_columns,
  data_row_count,
}
use bypass_io.Db.Batch.WellFormed.{Fits}
use bypass_io.Db.Batch.Cells.{Value, View, view, cells, join}
use bypass_io.Db.Segment.{ImmutableSegment, overlaps_time_range}
use bypass_io.Db.Segment.Pruning.{overlaps_time_range-stamp}
use bypass_io.Db.Segment.Mapping.{Sealing}
use bypass_io.Db.Rows.{RowSelection, iter, from_indices, is_empty, len}
use bypass_io.Db.Rows.Order.{iter-from_indices, index_at-iter}
use bypass_io.Db.Error.{TableError}
use bypass_io.Db.Scan.{ScanResult}
use bypass_io.Db.ScanResult.{append_mapped_columns, mapped_columns}
use bypass_io.Db.ScanResult.Cells.{Typed, scan_view, append_scan_columns-Typed}
use bypass_io.Db.Simd.{positions}
use bypass_io.Db.Table.{filter_time_batch}
use bypass_io.Db.Table.Scan.{scan_segment}
use bypass_io.Db.Table.Scan.Taking.{within, filter_time_batch-WellFormed}
use bypass_io.Db.Table.Scan.Segments.{map_columns-taken}
use bypass_io.Db.Table.Scan.Stamps.{stamp_alone, Stamps-of_segment}

no_cells : (d : ColumnData) → data_row_count d ≡ 0 → cells d ≡ []
unfolding data_row_count cells
no_cells (f64_data []) e = refl
no_cells (f64_data (v ∷ vs)) e = absurd (omega arith)
no_cells (i64_data []) e = refl
no_cells (i64_data (v ∷ vs)) e = absurd (omega arith)
no_cells (timestamp_data []) e = refl
no_cells (timestamp_data (v ∷ vs)) e = absurd (omega arith)
no_cells (fixed_str_data w []) e = refl
no_cells (fixed_str_data w (v ∷ vs)) e = absurd (omega arith)

-- A batch without rows adds no cells.
join-no_rows :
    (v : View) (cs : List ColumnDef) (cols : Columns) → Fits 0 cs cols → join v (view cols) ≡ v
unfolding join view
join-no_rows [] cs cols h = refl
join-no_rows (x ∷ v) [] [] h = refl
join-no_rows (x ∷ v) [] (y ∷ cols) h = absurd h
join-no_rows (x ∷ v) (c ∷ cs) [] h = absurd h
join-no_rows ((n, xs) ∷ v) (c ∷ cs) ((m, d) ∷ cols) h =
    ap₂ (λ (l : List Value) (r : View). (n, l) ∷ r)
      (ap (λ (l : List Value). xs ++ l) (no_cells d h.0.counted) ∙ append-nil xs)
      (join-no_rows v cs cols h.1)

positions-none :
    {A : Type 0} (test : A → Bool) (base : ℕ) (vs : List A)
    → ((i : ℕ) (v : A) → get_elem? vs i ≡ some v → test v ≡ false)
    → positions test base vs ≡ []
unfolding positions
positions-none test base [] h = refl
positions-none test base (v ∷ vs) h =
    rw (h 0 v refl) (positions-none test (suc base) vs (λ i w e. h (suc i) w e))

-- A segment that is left out has no timestamp in the range.
pruned-none :
    (s : Schema) (b : RowBatch) (g : ImmutableSegment) (start end : ℕ) (h : Sealing s b g)
    → overlaps_time_range g start end ≡ false
    → positions (within start end) 0 h.ts ≡ []
pruned-none s b g start end h apart = positions-none (within start end) 0 h.ts λ i t e.
    elim (Bool-cases (within start end t)) [
      | inr out ↦ out
      | inl inside ↦ absurd (
          cc (
            apart,
            overlaps_time_range-stamp g h.ts i t start end h.least h.greatest e
                (ground (arith, inside)) (ground (arith, inside)),
          ))
    ]

-- The rows of a range, and a result that has taken them up.
pub record Scanned (s : Schema) (b : RowBatch) (start end : ℕ) (r : ScanResult)
    (done : Result TableError ScanResult) : Type 0 where
  pub rows : RowBatch
  pub filtered : filter_time_batch s b start end ≡ some (ok rows)
  pub fewer : rows.row_count ≤ b.row_count
  pub out : ScanResult
  pub is_out : done ≡ ok out
  pub typed : Typed s.columns out.columns
  pub found : scan_view out.columns ≡ join (scan_view r.columns) (view rows.columns)
  pub counted : out.row_count ≡ r.row_count + rows.row_count

module _ (avx : Bool) where
  pub scan_segment-Sealing :
      (s : Schema) (b : RowBatch) (g : ImmutableSegment) (start end : ℕ) (r : ScanResult)
      → IsValid s
      → (h : Sealing s b g) → 0 < b.row_count
      → start < 2 ^ 64
      → Typed s.columns r.columns
      → r.row_count + b.row_count < 2 ^ 64
      → Scanned s b start end r (scan_segment avx s h.stamp start end g r)
  unfolding scan_segment is_empty append_mapped_columns
  scan_segment-Sealing s b g start end r valid h some_rows word typed small =
      let st = Stamps-of_segment avx s b g start end valid h some_rows word in
      let (rows, filtered, taken, whole, count, fewer, low) =
        filter_time_batch-WellFormed s b start end h.stamp h.ts h.fits h.stamped h.stamps
          st.sized in
      let is : List ℕ = positions (within start end) 0 h.ts in
      let sel : RowSelection = from_indices is st.tmap.row_count in
      let iterated : iter sel ≡ is = iter-from_indices is st.tmap.row_count in
      let size : len sel ≡ length is = sym (index_at-iter sel 0).1 ∙ ap length iterated in
      let none_taken : rows.row_count ≡ 0
          → scan_view r.columns ≡ join (scan_view r.columns) (view rows.columns) =
        λ zero_rows. sym (
          join-no_rows (scan_view r.columns) s.columns rows.columns
            (subst (λ n. Fits n s.columns rows.columns) zero_rows whole)) in
      elim (Bool-cases (overlaps_time_range g start end)) [
        | inr apart ↦
            let no_rows : rows.row_count ≡ 0 =
              count ∙ ap length (pruned-none s b g start end h apart) in
            record {
              rows = rows;
              filtered = filtered;
              fewer = fewer;
              out = r;
              is_out = rw apart refl;
              typed = typed;
              found = none_taken no_rows;
              counted = omega (arith, no_rows);
            }
        | inl over ↦ elim (Bool-cases (len sel == 0)) [
          | inl no_hit ↦
              let no_rows : rows.row_count ≡ 0 = ground (arith, no_hit, size, count) in
              record {
                rows = rows;
                filtered = filtered;
                fewer = fewer;
                out = r;
                is_out = rw (over, st.mapped, st.filtered, no_hit) refl;
                typed = typed;
                found = none_taken no_rows;
                counted = omega (arith, no_rows);
              }
          | inr hits ↦
              let (ms, mapped, typed', same) =
                map_columns-taken g h.stamp st.tmap sel s.columns b.columns rows.columns st.mapped
                  h.mappable (subst (λ n. Fits n s.columns b.columns) (sym h.counted) h.fits)
                  h.sealable (stamp_alone s h.stamp valid h.stamped)
                  (omega (arith, h.counted, some_rows))
                  (ap (take_columns b.columns) iterated ∙ taken) in
              let (out, added, outs, joined, total) =
                append_scan_columns-Typed s.columns r (mapped_columns ms sel) (len sel) typed typed'
                  (omega (arith, size, count, fewer, small)) in
              record {
                rows = rows;
                filtered = filtered;
                fewer = fewer;
                out = out;
                is_out = rw (over, st.mapped, st.filtered, hits, mapped, added) refl;
                typed = outs;
                found = joined ∙ ap (join (scan_view r.columns)) same;
                counted = omega (arith, total, size, count);
              }
        ]
      ]
