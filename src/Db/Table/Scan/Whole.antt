-- ===== src/Db/Table/Scan/Whole.antt =====
-- `Table::scan_time_range` of bypass-db/src/table.rs on a table that holds batches.
use bypass_io.Prelude.{
  ℕ, ◌+◌, ◌^◌, ◌<◌, ◌≤◌, ◌≡◌, refl, sym, ap, ◌∙◌, subst, Bool, List, [], ◌∷◌, ◌++◌, some, Result,
  ok, arith,
}
use bypass_io.Db.Schema.{ColumnDef, Schema, timestamp_column}
use bypass_io.Db.Schema.Validity.{IsValid}
use bypass_io.Db.Batch.{RowBatch, empty}
use bypass_io.Db.Batch.Cells.{view, join}
use bypass_io.Db.Segment.{ImmutableSegment}
use bypass_io.Db.Error
use bypass_io.Db.Scan.{ScanResult}
use bypass_io.Db.ScanResult.{empty_result, append_batch, data_columns}
use bypass_io.Db.ScanResult.Cells.{
  Typed, scan_view, append_scan_columns-Typed, data_columns-Typed, empty_scan_columns-Typed,
}
use bypass_io.Db.Table.{Table, filter_time_batch}
use bypass_io.Db.Table.Contents.{gather, gather-snoc, gathered, AllSealed, Holds}
use bypass_io.Db.Table.Scan.{scan_segment, scan_sealed, scan_active, scan_time_range}
use bypass_io.Db.Table.Scan.Taking.{filter_time_batch-WellFormed}
use bypass_io.Db.Table.Scan.Rows.{Scanned, scan_segment-Sealing}
use bypass_io.Db.Table.Scan.Stamps.{active_stamps}

abbrev pub total_rows : List RowBatch → ℕ
total_rows [] = 0
total_rows (b ∷ bs) = b.row_count + total_rows bs

-- Batch by batch, the rows of a time range.
abbrev pub AllFiltered : Schema → ℕ → ℕ → List RowBatch → List RowBatch → Type 0
AllFiltered s start end [] [] = Unit
AllFiltered s start end [] (f ∷ fs) = ⊥
AllFiltered s start end (b ∷ bs) [] = ⊥
AllFiltered s start end (b ∷ bs) (f ∷ fs) =
    (filter_time_batch s b start end ≡ some (ok f)) × AllFiltered s start end bs fs

AllFiltered-snoc :
    (s : Schema) (start end : ℕ) (bs fs : List RowBatch) (b f : RowBatch)
    → AllFiltered s start end bs fs
    → filter_time_batch s b start end ≡ some (ok f)
    → AllFiltered s start end (bs ++ (b ∷ [])) (fs ++ (f ∷ []))
AllFiltered-snoc s start end [] [] b f h e = (e, tt)
AllFiltered-snoc s start end [] (x ∷ fs) b f h e = absurd h
AllFiltered-snoc s start end (x ∷ bs) [] b f h e = absurd h
AllFiltered-snoc s start end (x ∷ bs) (y ∷ fs) b f h e =
    (h.0, AllFiltered-snoc s start end bs fs b f h.1 e)

-- What the loop over the segments has found.
record Swept (s : Schema) (start end : ℕ) (ps : List RowBatch) (r : ScanResult)
    (done : Result Error.TableError ScanResult) : Type 0 where
  fs : List RowBatch
  out : ScanResult
  is_out : done ≡ ok out
  filtered : AllFiltered s start end ps fs
  typed : Typed s.columns out.columns
  found : scan_view out.columns ≡ gather (scan_view r.columns) fs
  counted : out.row_count ≤ r.row_count + total_rows ps

module _ (avx : Bool) where
  scan_sealed-AllSealed :
      (s : Schema) (stamp : ColumnDef) (start end : ℕ) (gs : List ImmutableSegment)
      (ps : List RowBatch) (r : ScanResult)
      → IsValid s
      → timestamp_column s ≡ some stamp
      → AllSealed s gs ps
      → start < 2 ^ 64
      → Typed s.columns r.columns
      → r.row_count + total_rows ps < 2 ^ 64
      → Swept s start end ps r (scan_sealed avx s stamp start end gs r)
  unfolding scan_sealed
  scan_sealed-AllSealed s stamp start end [] [] r valid at h word typed small = record {
    fs = [];
    out = r;
    is_out = refl;
    filtered = tt;
    typed = typed;
    found = refl;
    counted = omega arith;
  }
  scan_sealed-AllSealed s stamp start end [] (p ∷ ps) r valid at h word typed small = absurd h
  scan_sealed-AllSealed s stamp start end (g ∷ gs) [] r valid at h word typed small = absurd h
  scan_sealed-AllSealed s stamp start end (g ∷ gs) (p ∷ ps) r valid at h word typed small =
      let same : h.1.stamp ≡ stamp = cc (h.1.stamped, at) in
      let one =
        subst (λ c. Scanned s p start end r (scan_segment avx s c start end g r)) same
          (scan_segment-Sealing avx s p g start end r valid h.1 h.0 word typed
            (omega (arith, small))) in
      let rest =
        scan_sealed-AllSealed s stamp start end gs ps one.out valid at h.2 word one.typed
          (omega (arith, one.counted, one.fewer, small)) in
      record {
        fs = one.rows ∷ rest.fs;
        out = rest.out;
        is_out = rw one.is_out rest.is_out;
        filtered = (one.filtered, rest.filtered);
        typed = rest.typed;
        found = rest.found ∙ ap (λ v. gather v rest.fs) one.found;
        counted = omega (arith, rest.counted, one.counted, one.fewer);
      }

  -- On a table that holds these batches and has a valid schema, and whose rows are less than 2 ^ 64
  -- many, a scan of a time range succeeds, with vector instructions and without. The cells that it
  -- finds, in mapped segments and in memory, are those of the rows of the range, sealed batch by sealed
  -- batch and last of the active batch, and all these batches together have the cells of all that were
  -- appended.
  pub scan_time_range-Holds :
      (is_utf8 : List ℕ → Bool) (t : Table) (bs : List RowBatch) (start end : ℕ)
      → IsValid t.schema
      → (h : Holds is_utf8 t bs) → start < 2 ^ 64
      → total_rows h.parts + t.active.row_count < 2 ^ 64
      → (out : ScanResult) × (fs : List RowBatch) × (scan_time_range avx t start end
          ≡ some (ok out))
        × AllFiltered t.schema start end (h.parts ++ (t.active ∷ [])) fs
        × (scan_view out.columns ≡ gathered t.schema fs)
        × (gathered t.schema (h.parts ++ (t.active ∷ [])) ≡ gathered t.schema bs)
  unfolding scan_time_range scan_active append_batch empty_result empty
  scan_time_range-Holds is_utf8 t bs start end valid h word small =
      let (stamp, ts, at, there, sized) = active_stamps t.schema t.active valid h.fits in
      let blank = empty_scan_columns-Typed t.schema.columns in
      let swept =
        scan_sealed-AllSealed t.schema stamp start end t.sealed h.parts (empty_result t.schema)
          valid at h.kept word blank.0 (omega (arith, small)) in
      let (rows, filtered, taken, whole, count, fewer, low) =
        filter_time_batch-WellFormed t.schema t.active start end stamp ts h.fits at there sized in
      let memory = data_columns-Typed rows.row_count t.schema.columns rows.columns whole in
      let (out, added, typed, joined, total) =
        append_scan_columns-Typed t.schema.columns swept.out (data_columns rows.columns)
          rows.row_count swept.typed memory.0 (omega (arith, swept.counted, fewer, small)) in
      (
        out,
        swept.fs ++ (rows ∷ []),
        ground (arith, at, swept.is_out, filtered, added),
        AllFiltered-snoc t.schema start end h.parts swept.fs t.active rows swept.filtered filtered,
        joined
            ∙ ap (join (scan_view swept.out.columns)) memory.1
            ∙ ap (λ v. join v (view rows.columns))
                (swept.found ∙ ap (λ v. gather v swept.fs) blank.1)
            ∙ sym (gather-snoc (view (empty t.schema).columns) swept.fs rows),
        h.contents,
      )
