-- ===== src/Db/Table/Scan/Stamps.antt =====
-- The timestamps of a batch and of the segment that it was sealed into, as the scans of
-- bypass-db/src/table.rs see them.
use bypass_io.Prelude.{
  ℕ, ◌^◌, ◌<◌, ◌≡◌, sym, ap, ◌∙◌, subst, Bool, List, some, ok, length, get_elem?, arith,
}
use bypass_io.Prelude.Predicates.{All}
use bypass_io.Db.Schema.{ColumnDef, Schema, timestamp_column}
use bypass_io.Db.Schema.Validity.{IsValid}
use bypass_io.Db.Batch.{timestamp_data, RowBatch, column, data_row_count}
use bypass_io.Db.Batch.WellFormed.{WellFormed}
use bypass_io.Db.Segment.{ImmutableSegment, map_column, column_bytes, column_words}
use bypass_io.Db.Segment.Files.{Sealable}
use bypass_io.Db.Mapped.{MappedColumn}
use bypass_io.Db.Predicate.{range_filter_i64_mapped}
use bypass_io.Db.Segment.Mapping.{Sealing, map_column-Stored}
use bypass_io.Db.Segment.RoundTrip.{
  Fits-Found, Distinct-of_indices, All-of_indices, Found-at, stamps,
}
use bypass_io.Db.Simd.{positions}
use bypass_io.Db.Table.Scan.Taking.{within}
use bypass_io.Db.Table.Scan.Segments.{column-At, range_filter-column_words}

-- The column of the timestamps is the only one of its name.
pub stamp_alone :
    (s : Schema) (stamp : ColumnDef)
    → IsValid s
    → timestamp_column s ≡ some stamp
    → All (λ c. c.name ≡ stamp.name → c ≡ stamp) s.columns
unfolding timestamp_column
stamp_alone s stamp valid at =
    All-of_indices (λ c. c.name ≡ stamp.name → c ≡ stamp) s.columns
      λ i c e same. some_inj (
        sym e
        ∙ ap (get_elem? s.columns) (valid.distinct i s.timestamp_column c stamp e at same)
        ∙ at)
  where
    some_inj : {a b : ColumnDef} → some a ≡ some b → a ≡ b
    some_inj e = cc

-- What the scan sees of the timestamps of a segment.
pub record Stamps (avx : Bool) (s : Schema) (b : RowBatch) (g : ImmutableSegment)
    (stamp : ColumnDef) (ts : List ℕ) (start end : ℕ) : Type 0 where
  pub tmap : MappedColumn
  pub mapped : map_column g stamp.name stamp.dtype ≡ ok tmap
  pub filtered : range_filter_i64_mapped avx tmap start end ≡ ok (positions (within start end) 0 ts)
  pub total : tmap.row_count ≡ b.row_count
  pub sized : length ts ≡ b.row_count

pub Stamps-of_segment :
    (avx : Bool) (s : Schema) (b : RowBatch) (g : ImmutableSegment) (start end : ℕ)
    → IsValid s
    → (h : Sealing s b g) → 0 < b.row_count
    → start < 2 ^ 64
    → Stamps avx s b g h.stamp h.ts start end
unfolding timestamp_column column column_bytes data_row_count
Stamps-of_segment avx s b g start end valid h some_rows word =
    let found =
      Fits-Found b.row_count s.columns b.columns (Distinct-of_indices s.columns valid.distinct)
        h.fits in
    let c =
      column-At g b.row_count b.columns s.columns b.columns s.timestamp_column h.stamp h.mappable
        found h.fits h.sealable h.stamped in
    let is_stamp : c.data_of ≡ timestamp_data h.ts = cc (c.found, h.stamps) in
    let file : c.stored.0 ≡ column_words h.ts = cc (c.stored.1, ap column_bytes is_stamp) in
    record {
      tmap = record {
        name = h.stamp.name;
        dtype = h.stamp.dtype;
        row_count = g.meta.row_count;
        mmap = c.stored.0;
      };
      mapped =
          map_column-Stored g h.stamp c.data_of c.stored c.suits.typed c.sealable
            (c.suits.counted ∙ sym h.counted) (omega (arith, h.counted, some_rows));
      filtered =
          range_filter-column_words avx _ h.ts start end file (subst Sealable is_stamp c.sealable).0
            word;
      total = h.counted;
      sized = sym (ap data_row_count is_stamp) ∙ c.suits.counted;
    }

-- The timestamps of a batch that fits a valid schema.
pub active_stamps :
    (s : Schema) (b : RowBatch)
    → IsValid s
    → WellFormed s b
    → (stamp : ColumnDef) × (ts : List ℕ) × (timestamp_column s ≡ some stamp)
      × (column b stamp.name ≡ some (timestamp_data ts))
      × (length ts ≡ b.row_count)
unfolding timestamp_column column data_row_count
active_stamps s b valid fits =
    let found =
      Fits-Found b.row_count s.columns b.columns (Distinct-of_indices s.columns valid.distinct)
        fits in
    let (c, at, typed) = valid.stamped in
    let (d, there, matched, counted) =
      Found-at b.columns b.row_count s.columns b.columns s.timestamp_column c found fits at in
    let (ts, is_stamp) = stamps d c.dtype matched typed in
    (c, ts, at, there ∙ ap some is_stamp, sym (ap data_row_count is_stamp) ∙ counted)
