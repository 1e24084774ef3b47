-- ===== src/Db/Segment.antt =====
-- bypass-db/src/segment.rs: sealed segments. A segment's directory is its column files and the
-- metadata that `meta.json` holds; what serde_json writes and reads, and errors of the file system,
-- are left out.
pub mod Files
pub mod Mapping
pub mod RoundTrip
pub mod Pruning
mod Tests
use bypass_io.Prelude.{
  ℕ, zero, suc, ◌+◌, ◌*◌, ◌/◌, ◌%◌, ◌^◌, ◌==◌, Bool, true, false, not, ◌&&◌, ◌||◌, List, [], ◌∷◌,
  ◌++◌, Option, none, some, Result, ok, err, ◌>>=◌, ◌>>◌, guard, ok_or, bytes_eq, length, take,
  drop, map, if◌then◌else◌, ltb, leb, to_le_bytes, from_le_bytes, checked_mul, usize_mod,
}
use bypass_io.Db.Schema.{
  Name, DType, f64, i64, timestamp, fixed_str, ColumnDef, Schema, timestamp_column,
}
use bypass_io.Db.Batch.{
  ColumnData, f64_data, i64_data, timestamp_data, fixed_str_data, Columns, RowBatch, column,
  timestamp_values,
}
use bypass_io.Db.Error.{TableError, missing_column, segment, io}
use bypass_io.Db.Int64.{i64_lt, i64_le, i64_min, i64_max}
use bypass_io.Db.Mapped.{MappedColumn}

pub record SegmentRef : Type 0 where
  pub id : ℕ
  pub row_count : ℕ
  pub min_ts : Option ℕ
  pub max_ts : Option ℕ

pub record Manifest : Type 0 where
  pub version : ℕ
  pub wal_records_applied : ℕ
  pub next_segment_id : ℕ
  pub sealed_segments : List SegmentRef

-- `Manifest::new`
unfoldable pub new_manifest : Manifest
new_manifest = record {
  version = 1;
  wal_records_applied = 0;
  next_segment_id = 1;
  sealed_segments = [];
}

pub record ColumnMeta : Type 0 where
  pub name : Name
  pub dtype : Name
  pub fixed_width : Option ℕ
  pub file : Name

pub record SegmentMeta : Type 0 where
  pub id : ℕ
  pub row_count : ℕ
  pub min_ts : Option ℕ
  pub max_ts : Option ℕ
  pub columns : List ColumnMeta

-- `SegmentMeta::to_ref`; the path is the directory name of the id.
unfoldable pub to_ref : SegmentMeta → SegmentRef
to_ref m = record { id = m.id; row_count = m.row_count; min_ts = m.min_ts; max_ts = m.max_ts }

-- `SegmentMeta::column`
unfoldable pub find_meta : List ColumnMeta → Name → Option ColumnMeta
find_meta [] n = none
find_meta (c ∷ cs) n = if bytes_eq c.name n then some c else find_meta cs n

abbrev pub Files : Type 0
Files = List (Name × List ℕ)

-- `fs::read` of a file of the directory: what was written last under the name.
unfoldable pub read_file : Files → Name → Option (List ℕ)
read_file [] n = none
read_file ((m, bs) ∷ files) n = if bytes_eq m n then some bs else read_file files n

-- `fs::write`
abbrev pub write_file : Files → Name → List ℕ → Files
write_file files n bs = (n, bs) ∷ files

pub record ImmutableSegment : Type 0 where
  pub files : Files
  pub meta : SegmentMeta

-- `ImmutableSegment::overlaps_time_range`
unfoldable pub overlaps_time_range : ImmutableSegment → ℕ → ℕ → Bool
overlaps_time_range s start end = elim s.meta.min_ts [
  | none ↦ false
  | some min_ts ↦ elim s.meta.max_ts [
    | none ↦ false
    | some max_ts ↦ i64_le start max_ts && i64_lt min_ts end
  ]
]

has_byte : ℕ → Name → Bool
has_byte b [] = false
has_byte b (c ∷ cs) = c == b || has_byte b cs

has_two_dots : Name → Bool
has_two_dots [] = false
has_two_dots (c ∷ []) = false
has_two_dots (c ∷ d ∷ cs) = (c == b'.' && d == b'.') || has_two_dots (d ∷ cs)

-- ".col"
abbrev pub col_suffix : Name
col_suffix = b'.' ∷ b'c' ∷ b'o' ∷ b'l' ∷ []

unfoldable pub column_file_name : Name → Result TableError Name
unfolding has_byte has_two_dots
column_file_name name =
    if has_byte b'/' name || (has_byte b'\\' name || has_two_dots name)
    then err segment
    else ok (name ++ col_suffix)

-- "F64", "I64", "Timestamp" and "FixedStr", with the width.
unfoldable pub dtype_meta : DType → Name × Option ℕ
dtype_meta f64 = (b'F' ∷ b'6' ∷ b'4' ∷ [], none)
dtype_meta i64 = (b'I' ∷ b'6' ∷ b'4' ∷ [], none)
dtype_meta timestamp = (b'T' ∷ b'i' ∷ b'm' ∷ b'e' ∷ b's' ∷ b't' ∷ b'a' ∷ b'm' ∷ b'p' ∷ [], none)
dtype_meta (fixed_str width) =
    (b'F' ∷ b'i' ∷ b'x' ∷ b'e' ∷ b'd' ∷ b'S' ∷ b't' ∷ b'r' ∷ [], some width)

unfoldable pub column_words : List ℕ → List ℕ
column_words [] = []
column_words (v ∷ vs) = to_le_bytes 8 v ++ column_words vs

unfoldable pub column_strings : ℕ → List (List ℕ) → Result TableError (List ℕ)
column_strings w [] = ok []
column_strings w (v ∷ vs) = do
  guard (length v == w) segment
  rest ← column_strings w vs
  ok (v ++ rest)

-- The bytes that `write_column` writes.
unfoldable pub column_bytes : ColumnData → Result TableError (List ℕ)
unfolding column_words column_strings
column_bytes (f64_data vs) = ok (column_words vs)
column_bytes (i64_data vs) = ok (column_words vs)
column_bytes (timestamp_data vs) = ok (column_words vs)
column_bytes (fixed_str_data w vs) = column_strings w vs

-- `chunks_exact(w)`, as many chunks as there are.
unfoldable pub chunks : ℕ → ℕ → List ℕ → List (List ℕ)
chunks zero w bs = []
chunks (suc n) w bs = take w bs ∷ chunks n w (drop w bs)

-- `read_f64_values` and `read_i64_values`; the product wraps in a release build.
unfoldable pub read_values : List ℕ → ℕ → Result TableError (List ℕ)
unfolding chunks
read_values bs row_count =
    if length bs == row_count * 8 % usize_mod
    then ok (map from_le_bytes (chunks (length bs / 8) 8 bs))
    else err segment

unfoldable pub read_strings : ℕ → List ℕ → ℕ → Result TableError (List (List ℕ))
unfolding chunks
read_strings width bs row_count = do
  expected ← ok_or (checked_mul row_count width) segment
  guard (length bs == expected) segment
  ok (chunks (length bs / width) width bs)

-- `read_column` after the file is read. A width of 0, at which `chunks_exact` panics, is ruled out
-- by the schema.
unfoldable pub decode_column_file : DType → List ℕ → ℕ → Result TableError ColumnData
unfolding read_values read_strings
decode_column_file f64 bs n = do vs ← read_values bs n; ok (f64_data vs)
decode_column_file i64 bs n = do vs ← read_values bs n; ok (i64_data vs)
decode_column_file timestamp bs n = do vs ← read_values bs n; ok (timestamp_data vs)
decode_column_file (fixed_str w) bs n = do vs ← read_strings w bs n; ok (fixed_str_data w vs)

unfoldable pub read_column : Files → Name → DType → ℕ → Result TableError ColumnData
unfolding read_file decode_column_file
read_column files name dtype n = do
  file ← column_file_name name
  bs ← ok_or (read_file files file) io
  decode_column_file dtype bs n

unfoldable pub read_columns : Files → List ColumnDef → ℕ → Result TableError Columns
read_columns files [] n = ok []
read_columns files (c ∷ cs) n = do
  d ← read_column files c.name c.dtype n
  rest ← read_columns files cs n
  ok ((c.name, d) ∷ rest)

-- `ImmutableSegment::read_batch`
unfoldable pub read_batch : ImmutableSegment → Schema → Result TableError RowBatch
read_batch s schema = do
  cols ← read_columns s.files schema.columns s.meta.row_count
  ok (record { columns = cols; row_count = s.meta.row_count })

-- The loop of `seal_batch`: writes a file and adds the metadata for each column of the schema.
unfoldable pub seal_columns :
    RowBatch → List ColumnDef → Files → Result TableError (List ColumnMeta × Files)
seal_columns b [] files = ok ([], files)
seal_columns b (c ∷ cs) files = do
  file ← column_file_name c.name
  d ← ok_or (column b c.name) (missing_column c.name)
  bs ← column_bytes d
  let (dtype, fixed_width) = dtype_meta c.dtype
  (metas, files') ← seal_columns b cs (write_file files file bs)
  ok (
    record { name = c.name; dtype = dtype; fixed_width = fixed_width; file = file } ∷ metas,
    files',
  )

-- `seal_batch`, into a directory with these files.
unfoldable pub seal_batch : Schema → ℕ → RowBatch → Files → Result TableError ImmutableSegment
seal_batch schema segment_id b files = do
  stamp ← ok_or (timestamp_column schema) segment
  timestamps ← elim (column b stamp.name) [
    | none ↦ err (missing_column stamp.name)
    | some d ↦ ok_or (timestamp_values d) (missing_column stamp.name)
  ]
  (metas, files') ← seal_columns b schema.columns files
  ok (record {
    files = files';
    meta = record {
      id = segment_id;
      row_count = b.row_count;
      min_ts = i64_min timestamps;
      max_ts = i64_max timestamps;
      columns = metas;
    };
  })

abbrev pub same_width : Option ℕ → Option ℕ → Bool
same_width none none = true
same_width (some w) (some v) = w == v
same_width _ _ = false

unfoldable pub validate_column_meta : ColumnMeta → DType → Result TableError (Unit {0})
unfolding dtype_meta
validate_column_meta c dtype =
    let (expected, width) = dtype_meta dtype in
    guard (bytes_eq c.dtype expected && same_width c.fixed_width width) segment

abbrev pub type_width : DType → ℕ
type_width (fixed_str w) = w
type_width _ = 8

unfoldable pub expected_column_bytes : DType → ℕ → Result TableError ℕ
expected_column_bytes dtype n = ok_or (checked_mul n (type_width dtype)) segment

-- `ImmutableSegment::map_column`
unfoldable pub map_column : ImmutableSegment → Name → DType → Result TableError MappedColumn
map_column s name dtype = do
  c ← ok_or (find_meta s.meta.columns name) (missing_column name)
  validate_column_meta c dtype
  expected ← expected_column_bytes dtype s.meta.row_count
  bs ← ok_or (read_file s.files c.file) io
  guard (length bs == expected) segment
  guard (not (expected == 0)) segment
  ok (record { name = name; dtype = dtype; row_count = s.meta.row_count; mmap = bs })
