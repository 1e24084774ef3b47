-- ===== src/Db/Segment/RoundTrip.antt =====
-- Sealing a batch and reading the segment, in bypass-db/src/segment.rs.
use mathlib.Core.List.{append_cancel_right}
use bypass_io.Prelude.{
  ℕ, zero, suc, ◌≡◌, ◌≢◌, refl, sym, ap, ◌∙◌, true, List, [], ◌∷◌, ◌++◌, some, ok, get_elem?, arith,
  bytes_eq_refl, bytes_eq_iff,
}
use bypass_io.Prelude.Predicates.{All}
use bypass_io.Db.Schema.{Name, DType, timestamp, ColumnDef, Schema, timestamp_column}
use bypass_io.Db.Schema.Validity.{IsValid}
use bypass_io.Db.Batch.{
  ColumnData, timestamp_data, Columns, RowBatch, data_row_count, matches_dtype, find_column, column,
  timestamp_values,
}
use bypass_io.Db.Batch.WellFormed.{Suits, Fits, WellFormed}
use bypass_io.Db.Int64.{i64_min, i64_max}
use bypass_io.Db.Segment.{
  Files, read_file, write_file, ColumnMeta, ImmutableSegment, col_suffix, column_file_name,
  read_column, read_columns, decode_column_file, read_batch, seal_columns, seal_batch,
}
use bypass_io.Db.Segment.Mapping.{meta_of, Mappable, Mappable-cons, find_meta-here, Sealing}
use bypass_io.Db.Segment.Files.{Sealable, decode_column_file-column_bytes}

abbrev pub IsFileName : Name → Type 0
IsFileName n = column_file_name n ≡ ok (n ++ col_suffix)

-- Different names, each column's from those behind it.
abbrev pub Distinct : List ColumnDef → Type 0
Distinct [] = Unit
Distinct (c ∷ cs) = All (λ e. e.name ≢ c.name) cs × Distinct cs

-- Each column of the schema is found, by its name, in `whole`.
abbrev pub Found : Columns → List ColumnDef → Columns → Type 0
Found whole [] cols = Unit
Found whole (c ∷ cs) [] = ⊥
Found whole (c ∷ cs) ((n, d) ∷ cols) = (find_column whole c.name ≡ some d) × Found whole cs cols

Found-cons :
    (m : Name) (x : ColumnData) (whole : Columns) (cs : List ColumnDef) (cols : Columns)
    → All (λ e. e.name ≢ m) cs
    → Found whole cs cols
    → Found ((m, x) ∷ whole) cs cols
unfolding find_column
Found-cons m x whole [] cols ne h = tt
Found-cons m x whole (c ∷ cs) ((n, d) ∷ cols) ne h = (
  ground (arith, h.0, bytes_eq_iff m c.name, λ (e : m ≡ c.name). ne.0 (sym e)),
  Found-cons m x whole cs cols ne.1 h.1,
)
Found-cons m x whole (c ∷ cs) [] ne h = absurd h

pub Fits-Found :
    (n : ℕ) (cs : List ColumnDef) (cols : Columns)
    → Distinct cs
    → Fits n cs cols
    → Found cols cs cols
unfolding find_column
Fits-Found n [] [] ne h = tt
Fits-Found n [] (x ∷ cols) ne h = absurd h
Fits-Found n (c ∷ cs) [] ne h = absurd h
Fits-Found n (c ∷ cs) ((m, d) ∷ cols) ne h = (
  ground (arith, h.0.named, bytes_eq_iff m c.name),
  Found-cons m d cols cs cols (rw h.0.named ne.0) (Fits-Found n cs cols ne.1 h.1),
)

-- What sealing the rest of the columns leaves of the files before it, and what is read from it.
record Sealed (b : RowBatch) (n : ℕ) (cs : List ColumnDef) (cols : Columns) (files : Files)
    : Type 0 where
  metas : List ColumnMeta
  after : Files
  sealed : seal_columns b cs files ≡ ok (metas, after)
  kept :
      (file : Name)
      → All (λ c. c.name ++ col_suffix ≢ file) cs
      → read_file after file ≡ read_file files file
  back : read_columns after cs n ≡ ok cols
  mappable : Mappable after metas cs cols

module _ (b : RowBatch) (n : ℕ) where
  -- The files of the other columns have other names.
  other_files :
      (c : ColumnDef) (cs : List ColumnDef)
      → All (λ e. e.name ≢ c.name) cs
      → All (λ e. e.name ++ col_suffix ≢ c.name ++ col_suffix) cs
  other_files c [] h = tt
  other_files c (e ∷ cs) h =
      (λ same. h.0 (append_cancel_right e.name c.name col_suffix same), other_files c cs h.1)

  seal_columns-Sealed :
      (cs : List ColumnDef) (cols : Columns) (files : Files)
      → Distinct cs
      → All (λ c. IsFileName c.name) cs
      → All (λ x. Sealable x.1) cols
      → Found b.columns cs cols
      → Fits n cs cols
      → Sealed b n cs cols files
  unfolding seal_columns read_columns read_column read_file column
  seal_columns-Sealed [] [] files ne ns ss f h = record {
    metas = [];
    after = files;
    sealed = refl;
    kept = λ file o. refl;
    back = refl;
    mappable = tt;
  }
  seal_columns-Sealed [] (x ∷ cols) files ne ns ss f h = absurd h
  seal_columns-Sealed (c ∷ cs) [] files ne ns ss f h = absurd h
  seal_columns-Sealed (c ∷ cs) ((m, d) ∷ cols) files ne ns ss f h =
      let file = c.name ++ col_suffix in
      let (bs, written, decoded) = decode_column_file-column_bytes c.dtype d h.0.typed ss.0 in
      let rest = seal_columns-Sealed cs cols (write_file files file bs) ne.1 ns.1 ss.1 f.1 h.1 in
      let here : read_file rest.after file ≡ some bs =
        rest.kept file (other_files c cs ne.0) ∙ ground (arith, bytes_eq_refl file) in
      record {
        metas = meta_of c ∷ rest.metas;
        after = rest.after;
        sealed = ground (arith, ns.0, f.0, written, rest.sealed);
        kept = λ other o. rest.kept other o.1 ∙ ground (arith, bytes_eq_iff file other, o.0);
        back = read_back c cs cols m d bs rest.after ns.0 here decoded h.0 rest.back;
        mappable = (
          (bs, written, find_meta-here c rest.metas, here),
          Mappable-cons c rest.after rest.metas cs cols ne.0 rest.mappable,
        );
      }
    where
      read_back :
          (c : ColumnDef) (cs : List ColumnDef) (cols : Columns) (m : Name) (d : ColumnData)
          (bs : List ℕ) (after : Files)
          → IsFileName c.name
          → read_file after (c.name ++ col_suffix) ≡ some bs
          → decode_column_file c.dtype bs (data_row_count d) ≡ ok d
          → Suits n c m d
          → read_columns after cs n ≡ ok cols
          → read_columns after (c ∷ cs) n ≡ ok ((m, d) ∷ cols)
      read_back c cs cols m d bs after named here decoded suits back =
          ground (arith, named, here, decoded, suits.counted, suits.named, back)

pub All-of_indices :
    (P : ColumnDef → Type 0) (cs : List ColumnDef)
    → ((i : ℕ) (c : ColumnDef) → get_elem? cs i ≡ some c → P c)
    → All P cs
All-of_indices P [] h = tt
All-of_indices P (c ∷ cs) h = (h 0 c refl, All-of_indices P cs (λ i e. h (suc i) e))

pub Distinct-of_indices :
    (cs : List ColumnDef)
    → ((i j : ℕ) (a b : ColumnDef)
        → get_elem? cs i ≡ some a
        → get_elem? cs j ≡ some b
        → a.name ≡ b.name
        → i ≡ j)
    → Distinct cs
Distinct-of_indices [] h = tt
Distinct-of_indices (c ∷ cs) h = (
  All-of_indices (λ e. e.name ≢ c.name) cs
      (λ i e found same. omega (arith, h (suc i) 0 e c found refl same)),
  Distinct-of_indices cs (λ i j a b x y same. omega (arith, h (suc i) (suc j) a b x y same)),
)

-- The column at an index of the schema is found by its name.
pub Found-at :
    (whole : Columns) (n : ℕ) (cs : List ColumnDef) (cols : Columns) (i : ℕ) (c : ColumnDef)
    → Found whole cs cols
    → Fits n cs cols
    → get_elem? cs i ≡ some c
    → (d : ColumnData) × (find_column whole c.name ≡ some d)
      × (matches_dtype d c.dtype ≡ true)
      × (data_row_count d ≡ n)
Found-at whole n [] cols i c f h e = cc
Found-at whole n (x ∷ cs) [] i c f h e = absurd h
Found-at whole n (x ∷ cs) ((m, d) ∷ cols) zero c f h e =
    (d, ground (arith, f.0, e), ground (arith, h.0.typed, e), h.0.counted)
Found-at whole n (x ∷ cs) ((m, d) ∷ cols) (suc i) c f h e = Found-at whole n cs cols i c f.1 h.1 e

pub stamps :
    (d : ColumnData) (dtype : DType)
    → matches_dtype d dtype ≡ true
    → dtype ≡ timestamp
    → (ts : List ℕ) × (d ≡ timestamp_data ts)
unfolding matches_dtype
stamps (timestamp_data ts) dtype t e = (ts, refl)
stamps d dtype t e = absurd (ground arith)

-- A batch that fits a valid schema, whose column names can be file names, is sealed into a segment
-- that holds it.
pub sealing :
    (s : Schema) (id : ℕ) (b : RowBatch) (files : Files)
    → IsValid s
    → WellFormed s b
    → All (λ c. IsFileName c.name) s.columns
    → All (λ x. Sealable x.1) b.columns
    → (g : ImmutableSegment) × (seal_batch s id b files ≡ ok g) × Sealing s b g
unfolding seal_batch read_batch column timestamp_column timestamp_values
sealing s id b files valid fits named sealable =
    let ne = Distinct-of_indices s.columns valid.distinct in
    let found = Fits-Found b.row_count s.columns b.columns ne fits in
    let r =
      seal_columns-Sealed b b.row_count s.columns b.columns files ne named sealable found fits in
    let (c, at, typed) = valid.stamped in
    let (d, there, matched, counted) =
      Found-at b.columns b.row_count s.columns b.columns s.timestamp_column c found fits at in
    let (ts, is_stamp) = stamps d c.dtype matched typed in
    (
      record {
        files = r.after;
        meta = record {
          id = id;
          row_count = b.row_count;
          min_ts = i64_min ts;
          max_ts = i64_max ts;
          columns = r.metas;
        };
      },
      ground (arith, at, there, is_stamp, r.sealed),
      record {
        back = ground (arith, r.back);
        fits = fits;
        sealable = sealable;
        counted = refl;
        mappable = r.mappable;
        ts = ts;
        stamp = c;
        stamped = at;
        stamps = there ∙ ap some is_stamp;
        least = refl;
        greatest = refl;
      },
    )

-- A batch that fits a valid schema, whose column names can be file names, is sealed into a segment
-- with its row count and the least and greatest of its timestamps, and reading the segment gives
-- back the batch.
pub read_batch-seal_batch :
    (s : Schema) (id : ℕ) (b : RowBatch) (files : Files)
    → IsValid s
    → WellFormed s b
    → All (λ c. IsFileName c.name) s.columns
    → All (λ x. Sealable x.1) b.columns
    → (g : ImmutableSegment) × (ts : List ℕ) × (seal_batch s id b files ≡ ok g)
      × (read_batch g s ≡ ok b)
      × (g.meta.min_ts ≡ i64_min ts)
      × (g.meta.max_ts ≡ i64_max ts)
      × (c : ColumnDef) × (timestamp_column s ≡ some c)
      × (column b c.name ≡ some (timestamp_data ts))
read_batch-seal_batch s id b files valid fits named sealable =
    let (g, done, h) = sealing s id b files valid fits named sealable in
    (g, h.ts, done, h.back, h.least, h.greatest, h.stamp, h.stamped, h.stamps)
