-- ===== src/Db/Segment/Mapping.antt =====
-- The columns of a sealed segment, as `map_column` of bypass-db/src/segment.rs maps them.
use native.Mathlib.Nat.{mul-pos}
use bypass_io.Prelude.{
  ℕ, ◌*◌, ◌^◌, ◌<◌, ◌≡◌, ◌≢◌, refl, sym, ap, ◌∙◌, true, ltb, subst, Option, none, List, [], ◌∷◌,
  ◌++◌, some, ok, length, arith, lt→ltb, bytes_eq_iff, bytes_eq_refl, ==_refl,
}
use bypass_io.Prelude.Predicates.{All}
use bypass_io.Db.Schema.{DType, f64, i64, timestamp, fixed_str, ColumnDef, Schema, timestamp_column}
use bypass_io.Db.Batch.{
  ColumnData, f64_data, i64_data, timestamp_data, fixed_str_data, Columns, RowBatch, column,
  data_row_count, matches_dtype,
}
use bypass_io.Db.Batch.WellFormed.{WellFormed}
use bypass_io.Db.Int64.{i64_min, i64_max}
use bypass_io.Db.Segment.{
  Files, read_file, ColumnMeta, ImmutableSegment, col_suffix, find_meta, dtype_meta, column_bytes,
  map_column, read_batch, validate_column_meta, expected_column_bytes, type_width, same_width,
}
use bypass_io.Db.Segment.Files.{Sealable, length-column_words, column_strings-chunks}

abbrev pub meta_of : ColumnDef → ColumnMeta
meta_of c = record {
  name = c.name;
  dtype = (dtype_meta c.dtype).0;
  fixed_width = (dtype_meta c.dtype).1;
  file = c.name ++ col_suffix;
}

-- The file and the metadata of one column.
abbrev pub Stored : Files → List ColumnMeta → ColumnDef → ColumnData → Type 0
Stored files metas c d =
    (bs : List ℕ) × (column_bytes d ≡ ok bs)
    × (find_meta metas c.name ≡ some (meta_of c))
    × (read_file files (c.name ++ col_suffix) ≡ some bs)

abbrev pub Mappable : Files → List ColumnMeta → List ColumnDef → Columns → Type 0
Mappable files metas [] [] = Unit
Mappable files metas [] (x ∷ cols) = ⊥
Mappable files metas (c ∷ cs) [] = ⊥
Mappable files metas (c ∷ cs) ((m, d) ∷ cols) =
    Stored files metas c d × Mappable files metas cs cols

pub find_meta-here :
    (c : ColumnDef) (metas : List ColumnMeta)
    → find_meta (meta_of c ∷ metas) c.name ≡ some (meta_of c)
unfolding find_meta
find_meta-here c metas = ground (arith, bytes_eq_refl c.name)

-- One more column before, of another name.
pub Mappable-cons :
    (c : ColumnDef) (files : Files) (metas : List ColumnMeta) (cs : List ColumnDef) (cols : Columns)
    → All (λ e. e.name ≢ c.name) cs
    → Mappable files metas cs cols
    → Mappable files (meta_of c ∷ metas) cs cols
unfolding find_meta
Mappable-cons c files metas [] [] ne h = tt
Mappable-cons c files metas [] (x ∷ cols) ne h = absurd h
Mappable-cons c files metas (e ∷ cs) [] ne h = absurd h
Mappable-cons c files metas (e ∷ cs) ((m, d) ∷ cols) ne h = (
  (
    h.0.0,
    h.0.1,
    ground (arith, h.0.2, bytes_eq_iff c.name e.name, λ (same : c.name ≡ e.name). ne.0 (sym same)),
    h.0.3,
  ),
  Mappable-cons c files metas cs cols ne.1 h.1,
)

-- The segment holds this batch: it reads back, its columns can be mapped, and its bounds are those of
-- the timestamps.
pub record Sealing (s : Schema) (b : RowBatch) (g : ImmutableSegment) : Type 0 where
  pub back : read_batch g s ≡ ok b
  pub fits : WellFormed s b
  pub sealable : All (λ x. Sealable x.1) b.columns
  pub counted : g.meta.row_count ≡ b.row_count
  pub mappable : Mappable g.files g.meta.columns s.columns b.columns
  pub ts : List ℕ
  pub stamp : ColumnDef
  pub stamped : timestamp_column s ≡ some stamp
  pub stamps : column b stamp.name ≡ some (timestamp_data ts)
  pub least : g.meta.min_ts ≡ i64_min ts
  pub greatest : g.meta.max_ts ≡ i64_max ts

-- The file of a column has the bytes that the metadata ask for.
length-column_bytes :
    (d : ColumnData) (dtype : DType) (bs : List ℕ)
    → matches_dtype d dtype ≡ true
    → Sealable d
    → column_bytes d ≡ ok bs
    → (length bs ≡ data_row_count d * type_width dtype)
      × (data_row_count d * type_width dtype < 2 ^ 64)
unfolding column_bytes matches_dtype data_row_count
length-column_bytes (f64_data vs) f64 bs t h e = ground (arith, length-column_words vs, e, h.1)
length-column_bytes (i64_data vs) i64 bs t h e = ground (arith, length-column_words vs, e, h.1)
length-column_bytes (timestamp_data vs) timestamp bs t h e =
    ground (arith, length-column_words vs, e, h.1)
length-column_bytes (fixed_str_data w vs) (fixed_str v) bs t h e =
    let (out, written, size, cut) = column_strings-chunks w vs h.0 in
    ground (arith, written, size, t, e, h.1)
length-column_bytes d dtype bs t h e = absurd (ground arith)

type_width-pos :
    (d : ColumnData) (dtype : DType)
    → matches_dtype d dtype ≡ true
    → Sealable d
    → 0 < type_width dtype
unfolding matches_dtype
type_width-pos (f64_data vs) f64 t h = omega arith
type_width-pos (i64_data vs) i64 t h = omega arith
type_width-pos (timestamp_data vs) timestamp t h = omega arith
type_width-pos (fixed_str_data w vs) (fixed_str v) t h = ground (arith, t, h.2)
type_width-pos d dtype t h = absurd (ground arith)

validate-meta_of : (c : ColumnDef) → validate_column_meta (meta_of c) c.dtype ≡ ok tt
unfolding validate_column_meta
validate-meta_of c =
    ground (arith, bytes_eq_refl (dtype_meta c.dtype).0, widths (dtype_meta c.dtype).1)
  where
    widths : (w : Option ℕ) → same_width w w ≡ true
    widths none = refl
    widths (some w) = ==_refl w

-- A column with a row that was sealed is mapped, with the bytes of its file.
pub map_column-Stored :
    (g : ImmutableSegment) (c : ColumnDef) (d : ColumnData)
    → (h : Stored g.files g.meta.columns c d) → matches_dtype d c.dtype ≡ true
    → Sealable d
    → data_row_count d ≡ g.meta.row_count
    → 0 < g.meta.row_count
    → map_column g c.name c.dtype
      ≡ ok (record { name = c.name; dtype = c.dtype; row_count = g.meta.row_count; mmap = h.0 })
unfolding map_column expected_column_bytes
map_column-Stored g c d (bs, written, found, there) typed sealable counted some_rows =
    let size = length-column_bytes d c.dtype bs typed sealable written in
    let wide = type_width-pos d c.dtype typed sealable in
    let whole : length bs ≡ g.meta.row_count * type_width c.dtype =
      size.0 ∙ ap (λ n. n * type_width c.dtype) counted in
    let fits : ltb (g.meta.row_count * type_width c.dtype) (2 ^ 64) ≡ true =
      lt→ltb _ _ (subst (λ n. n * type_width c.dtype < 2 ^ 64) counted size.1) in
    let nonzero : 0 < g.meta.row_count * type_width c.dtype = mul-pos some_rows wide in
    ground (arith, found, there, validate-meta_of c, whole, fits, nonzero)
