-- ===== src/Db/Table/Scan/Segments.antt =====
-- A sealed segment in the scans of bypass-db/src/table.rs: what is found in its mapped columns is what
-- is found in the batch that was sealed.
use bypass_io.Prelude.{
  ℕ, zero, suc, ◌%◌, ◌^◌, ◌<◌, ◌≡◌, refl, sym, ap, ap₂, ◌∙◌, subst, Bool, true, false, inl, inr,
  List, [], ◌∷◌, Option, none, some, ok, length, get_elem?, arith, Bool-cases, bytes_eq,
  bytes_eq_iff, IsByte, to_le_bytes-All, to_le_bytes, if◌then◌else◌,
}
use bypass_io.Prelude.Predicates.{All, All-append}
use bypass_io.Db.Schema.{Name, ColumnDef}
use bypass_io.Db.Batch.{ColumnData, Columns, find_column, take_data, take_columns}
use bypass_io.Db.Batch.WellFormed.{Suits, Fits}
use bypass_io.Db.Batch.Cells.{Value, View, view, cells}
use bypass_io.Db.Mapped.{MappedColumn}
use bypass_io.Db.Mapped.Cells.{words_of-column_words}
use bypass_io.Db.Segment.{ImmutableSegment, column_words, map_column}
use bypass_io.Db.Segment.Files.{Sealable, length-column_words}
use bypass_io.Db.Segment.Mapping.{Stored, Mappable, map_column-Stored}
use bypass_io.Db.Segment.RoundTrip.{Found}
use bypass_io.Db.Rows.{RowSelection, iter}
use bypass_io.Db.ScanResult.{mapped_columns}
use bypass_io.Db.ScanResult.Cells.{Typed, scan_view}
use bypass_io.Db.ScanResult.Mapped.{from_mapped-cells}
use bypass_io.Db.Simd.{positions, range_filter_i64_bytes}
use bypass_io.Db.Simd.Lanes.{range_filter_i64_bytes-avx2}
use bypass_io.Db.Predicate.{range_filter_i64_mapped}
use bypass_io.Db.Table.Scan.{map_columns}
use bypass_io.Db.Table.Scan.Taking.{within}

column_words-All : (vs : List ℕ) → All IsByte (column_words vs)
unfolding column_words
column_words-All [] = tt
column_words-All (v ∷ vs) =
    All-append IsByte (to_le_bytes 8 v) (column_words vs) (to_le_bytes-All 8 v)
      (column_words-All vs)

range_filter-plain :
    (ts : List ℕ) (start end : ℕ)
    → All (λ v. v < 2 ^ 64) ts
    → range_filter_i64_bytes false (column_words ts) start end
      ≡ ok (positions (within start end) 0 ts)
unfolding range_filter_i64_bytes
range_filter-plain ts start end words = ground (arith, whole, words_of-column_words ts words)
  where
    whole : (length (column_words ts) % 8) ≡ 0
    whole = omega (arith, length-column_words ts)

-- The filter of the mapped timestamps, with vector instructions or without.
pub range_filter-column_words :
    (avx : Bool) (m : MappedColumn) (ts : List ℕ) (start end : ℕ)
    → m.mmap ≡ column_words ts
    → All (λ v. v < 2 ^ 64) ts
    → start < 2 ^ 64
    → range_filter_i64_mapped avx m start end ≡ ok (positions (within start end) 0 ts)
unfolding range_filter_i64_mapped
range_filter-column_words avx m ts start end e words word =
    ap (λ bs. range_filter_i64_bytes avx bs start end) e
    ∙ either avx
    ∙ range_filter-plain ts start end words
  where
    either :
        (a : Bool)
        → range_filter_i64_bytes a (column_words ts) start end
          ≡ range_filter_i64_bytes false (column_words ts) start end
    either false = refl
    either true = range_filter_i64_bytes-avx2 (column_words ts) start end word (column_words-All ts)

-- What is known of the column of one definition.
pub record At (g : ImmutableSegment) (n : ℕ) (whole : Columns) (c : ColumnDef) : Type 0 where
  pub data_of : ColumnData
  pub found : find_column whole c.name ≡ some data_of
  pub stored : Stored g.files g.meta.columns c data_of
  pub suits : Suits n c c.name data_of
  pub sealable : Sealable data_of

pub column-At :
    (g : ImmutableSegment) (n : ℕ) (whole : Columns) (cs : List ColumnDef) (cols : Columns) (i : ℕ)
    (c : ColumnDef)
    → Mappable g.files g.meta.columns cs cols
    → Found whole cs cols
    → Fits n cs cols
    → All (λ x. Sealable x.1) cols
    → get_elem? cs i ≡ some c
    → At g n whole c
column-At g n whole [] cols i c m f h s e = cc
column-At g n whole (x ∷ cs) [] i c m f h s e = absurd h
column-At g n whole (x ∷ cs) ((name, d) ∷ cols) zero c m f h s e =
    subst (At g n whole) (some_inj e) (record {
      data_of = d;
      found = f.0;
      stored = m.0;
      suits = subst (λ k. Suits n x k d) h.0.named h.0;
      sealable = s.0;
    })
  where
    some_inj : {a b : ColumnDef} → some a ≡ some b → a ≡ b
    some_inj e = cc
column-At g n whole (x ∷ cs) ((name, d) ∷ cols) (suc i) c m f h s e =
    column-At g n whole cs cols i c m.1 f.1 h.1 s.1 e

take_columns-cons :
    (name : Name) (d : ColumnData) (cols : Columns) (is : List ℕ) (out : Columns)
    → take_columns ((name, d) ∷ cols) is ≡ some out
    → (d' : ColumnData) × (rest : Columns) × (take_data d is ≡ some d')
      × (take_columns cols is ≡ some rest)
      × ((name, d') ∷ rest ≡ out)
unfolding take_columns
take_columns-cons name d cols is out e = go (take_data d is) (take_columns cols is) refl refl
  where
    go :
        (one : Option ColumnData) (others : Option Columns)
        → take_data d is ≡ one
        → take_columns cols is ≡ others
        → (d' : ColumnData) × (rest : Columns) × (one ≡ some d')
          × (others ≡ some rest)
          × ((name, d') ∷ rest ≡ out)
    go none others p q = absurd (ground (arith, p, e))
    go (some d') none p q = absurd (ground (arith, p, q, e))
    go (some d') (some rest) p q = (d', rest, refl, refl, ground (arith, p, q, e))

-- The columns that a scan maps of a segment, against those of the batch.
pub map_columns-taken :
    (g : ImmutableSegment) (stamp : ColumnDef) (tmap : MappedColumn) (rows : RowSelection)
    (cs : List ColumnDef) (cols out : Columns)
    → map_column g stamp.name stamp.dtype ≡ ok tmap
    → Mappable g.files g.meta.columns cs cols
    → Fits g.meta.row_count cs cols
    → All (λ x. Sealable x.1) cols
    → All (λ c. c.name ≡ stamp.name → c ≡ stamp) cs
    → 0 < g.meta.row_count
    → take_columns cols (iter rows) ≡ some out
    → (ms : List (Name × MappedColumn)) × (map_columns g stamp.name tmap cs ≡ ok ms)
      × Typed cs (mapped_columns ms rows)
      × (scan_view (mapped_columns ms rows) ≡ view out)
unfolding map_columns mapped_columns scan_view view take_columns
map_columns-taken g stamp tmap rows [] [] out at m h s one some_rows e =
    ([], refl, tt, ground (arith, e))
map_columns-taken g stamp tmap rows [] (x ∷ cols) out at m h s one some_rows e = absurd h
map_columns-taken g stamp tmap rows (c ∷ cs) [] out at m h s one some_rows e = absurd h
map_columns-taken g stamp tmap rows (c ∷ cs) ((name, d) ∷ cols) out at m h s one some_rows e =
    let (d', rest, taken, others, made) = take_columns-cons name d cols (iter rows) out e in
    let suits : Suits g.meta.row_count c c.name d =
      subst (λ k. Suits g.meta.row_count c k d) h.0.named h.0 in
    let mapped_one = map_column-Stored g c d m.0 suits.typed s.0 suits.counted some_rows in
    let mc : MappedColumn = record {
      name = c.name;
      dtype = c.dtype;
      row_count = g.meta.row_count;
      mmap = m.0.0;
    } in
    let chosen : (if bytes_eq c.name stamp.name then ok tmap else map_column g c.name c.dtype)
        ≡ ok mc =
      elim (Bool-cases (bytes_eq c.name stamp.name)) [
        | inl same ↦
            let is_stamp : c ≡ stamp =
              one.0 (ground (arith, same, bytes_eq_iff c.name stamp.name)) in
            rw same (sym at ∙ ap (λ k. map_column g k.name k.dtype) (sym is_stamp) ∙ mapped_one)
        | inr other ↦ rw other mapped_one
      ] in
    let (ms, mapped_rest, typed, found) =
      map_columns-taken g stamp tmap rows cs cols rest at m.1 h.1 s.1 one.1 some_rows others in
    let read = from_mapped-cells mc c.dtype d d' rows suits.typed s.0 (refl, m.0.1) taken in
    (
      (c.name, mc) ∷ ms,
      ground (arith, chosen, mapped_rest),
      (refl, read.0, typed),
      ap₂ (λ (l : List Value) (r : View). (c.name, l) ∷ r) read.1 found
          ∙ ap (λ (k : Name). (k, cells d') ∷ view rest) (sym h.0.named)
          ∙ ap view made,
    )
