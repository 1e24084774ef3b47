-- ===== src/Db/Batch/WellFormed.antt =====
-- A batch that fits a schema: its columns are the schema's, in order, with one row count.
use mathlib.Core.List.{map-append}
use bypass_io.Prelude.{
  ℕ, suc, ◌+◌, ◌<◌, ◌≡◌, refl, sym, ap, ◌∙◌, true, List, [], ◌∷◌, ◌++◌, ok, bytes_eq_iff, ==_refl,
  length, length-append, arith, lt→ltb, ◌^◌,
}
use bypass_io.Prelude.Predicates.{All, All-append}
use bypass_io.Db.Schema.{Name, DType, f64, i64, timestamp, fixed_str, ColumnDef, Schema}
use bypass_io.Db.Batch.Cells.{word, bytes, cells, view, join}
use bypass_io.Db.Batch.{
  ColumnData, f64_data, i64_data, timestamp_data, fixed_str_data, Columns, RowBatch, data_row_count,
  matches_dtype, append_data, empty_data, empty_columns, empty, append_columns, append,
}

-- Each value of a fixed-width column has the width.
abbrev pub IsWide : ColumnData → Type 0
IsWide (fixed_str_data w vs) = All (λ v. length v ≡ w) vs
IsWide (f64_data vs) = Unit
IsWide (i64_data vs) = Unit
IsWide (timestamp_data vs) = Unit

pub record Suits (n : ℕ) (c : ColumnDef) (name : Name) (d : ColumnData) : Type 0 where
  pub named : name ≡ c.name
  pub typed : matches_dtype d c.dtype ≡ true
  pub counted : data_row_count d ≡ n
  pub wide : IsWide d

abbrev pub Fits : ℕ → List ColumnDef → Columns → Type 0
Fits n [] [] = Unit
Fits n [] (x ∷ cols) = ⊥
Fits n (c ∷ cs) [] = ⊥
Fits n (c ∷ cs) ((name, d) ∷ cols) = Suits n c name d × Fits n cs cols

abbrev pub WellFormed : Schema → RowBatch → Type 0
WellFormed s b = Fits b.row_count s.columns b.columns

pub length-Fits :
    (n : ℕ) (cs : List ColumnDef) (cols : Columns) → Fits n cs cols → length cols ≡ length cs
length-Fits n [] [] h = refl
length-Fits n [] (x ∷ cols) h = absurd h
length-Fits n (c ∷ cs) [] h = absurd h
length-Fits n (c ∷ cs) (x ∷ cols) h = ap suc (length-Fits n cs cols h.1)

empty_data-Suits :
    (n : Name) (d : DType) → Suits 0 (record { name = n; dtype = d }) n (empty_data d)
unfolding empty_data matches_dtype data_row_count
empty_data-Suits n f64 = record { named = refl; typed = refl; counted = refl; wide = tt }
empty_data-Suits n i64 = record { named = refl; typed = refl; counted = refl; wide = tt }
empty_data-Suits n timestamp = record { named = refl; typed = refl; counted = refl; wide = tt }
empty_data-Suits n (fixed_str w) = record {
  named = refl;
  typed = ==_refl w;
  counted = refl;
  wide = tt;
}

empty_columns-Fits : (cs : List ColumnDef) → Fits 0 cs (empty_columns cs)
unfolding empty_columns
empty_columns-Fits [] = tt
empty_columns-Fits (c ∷ cs) = (empty_data-Suits c.name c.dtype, empty_columns-Fits cs)

-- The empty batch of a schema fits it.
pub empty-WellFormed : (s : Schema) → WellFormed s (empty s)
unfolding empty
empty-WellFormed s = empty_columns-Fits s.columns

-- A column of words.
numeric-Suits :
    (con : List ℕ → ColumnData) (n m : ℕ) (c : ColumnDef) (ln rn : Name) (a b : List ℕ)
    → ((xs : List ℕ) → data_row_count (con xs) ≡ length xs)
    → ((xs ys : List ℕ) → matches_dtype (con xs) c.dtype ≡ matches_dtype (con ys) c.dtype)
    → ((xs : List ℕ) → IsWide (con xs))
    → Suits n c ln (con a)
    → Suits m c rn (con b)
    → Suits (n + m) c ln (con (a ++ b))
numeric-Suits con n m c ln rn a b rows typed wide hl hr = record {
  named = hl.named;
  typed = typed (a ++ b) a ∙ hl.typed;
  counted = omega (arith, rows (a ++ b), rows a, rows b, hl.counted, hr.counted, length-append a b);
  wide = wide (a ++ b);
}

same_width :
    (w v : ℕ) (d : DType) (a b : List (List ℕ))
    → matches_dtype (fixed_str_data w a) d ≡ true
    → matches_dtype (fixed_str_data v b) d ≡ true
    → w ≡ v
unfolding matches_dtype
same_width w v d a b p q = ground arith

-- Two columns of one type join; the join has the type, the rows of both and their cells.
append_data-Suits :
    (n m : ℕ) (c : ColumnDef) (ln rn : Name) (l r : ColumnData)
    → Suits n c ln l
    → Suits m c rn r
    → (d : ColumnData) × (append_data l r ≡ ok d)
      × Suits (n + m) c ln d
      × (cells d ≡ cells l ++ cells r)
unfolding append_data data_row_count matches_dtype cells
append_data-Suits n m c ln rn (f64_data a) (f64_data b) hl hr = (
  f64_data (a ++ b),
  refl,
  numeric-Suits f64_data n m c ln rn a b (λ xs. refl) (λ xs ys. refl) (λ xs. tt) hl hr,
  map-append word a b,
)
append_data-Suits n m c ln rn (i64_data a) (i64_data b) hl hr = (
  i64_data (a ++ b),
  refl,
  numeric-Suits i64_data n m c ln rn a b (λ xs. refl) (λ xs ys. refl) (λ xs. tt) hl hr,
  map-append word a b,
)
append_data-Suits n m c ln rn (timestamp_data a) (timestamp_data b) hl hr = (
  timestamp_data (a ++ b),
  refl,
  numeric-Suits timestamp_data n m c ln rn a b (λ xs. refl) (λ xs ys. refl) (λ xs. tt) hl hr,
  map-append word a b,
)
append_data-Suits n m c ln rn (fixed_str_data w a) (fixed_str_data v b) hl hr =
    let same : w ≡ v = same_width w v c.dtype a b hl.typed hr.typed in
    (
      fixed_str_data w (a ++ b),
      ground arith,
      record {
        named = hl.named;
        typed = hl.typed;
        counted = omega (arith, hl.counted, hr.counted, length-append a b);
        wide = All-append (λ x. length x ≡ w) a b hl.wide (rw same hr.wide);
      },
      map-append bytes a b,
    )
append_data-Suits n m c ln rn l r hl hr = absurd (ground (arith, hl.typed, hr.typed))

-- Appending a batch that fits the schema to one that does succeeds, unless the row count overflows;
-- the result fits the schema, has the rows of both, and each of its columns holds the cells of the
-- two columns one after the other.
append_columns-Fits :
    (n m : ℕ) (cs : List ColumnDef) (left right : Columns)
    → Fits n cs left
    → Fits m cs right
    → (cols : Columns) × (append_columns left right ≡ (ok tt, cols))
      × Fits (n + m) cs cols
      × (view cols ≡ join (view left) (view right))
unfolding append_columns view join
append_columns-Fits n m [] [] [] hl hr = ([], refl, tt, refl)
append_columns-Fits n m (c ∷ cs) ((ln, l) ∷ left) ((rn, r) ∷ right) hl hr =
    let (d, step, suits, joined) = append_data-Suits n m c ln rn l r hl.0 hr.0 in
    let (rest, steps, fits, joins) = append_columns-Fits n m cs left right hl.1 hr.1 in
    let same : ln ≡ rn = hl.0.named ∙ sym hr.0.named in
    (
      (ln, d) ∷ rest,
      ground (arith, step, steps, bytes_eq_iff ln rn),
      (suits, fits),
      ground (arith, joined, joins),
    )
append_columns-Fits n m cs left right hl hr = absurd (ground arith)

-- Appending a batch that fits the schema to one that does succeeds, unless the row counts add up to
-- more than a `usize`: the result fits the schema, has the rows of both, and each of its columns
-- holds the cells of the left one and then those of the right one.
pub append-WellFormed :
    (s : Schema) (a b : RowBatch)
    → WellFormed s a
    → WellFormed s b
    → a.row_count + b.row_count < 2 ^ 64
    → (c : RowBatch) × (append a b ≡ (ok tt, c))
      × WellFormed s c
      × (c.row_count ≡ a.row_count + b.row_count)
      × (view c.columns ≡ join (view a.columns) (view b.columns))
unfolding append
append-WellFormed s a b ha hb small =
    let (cols, step, fits, joined) =
      append_columns-Fits a.row_count b.row_count s.columns a.columns b.columns ha hb in
    (
      record { columns = cols; row_count = a.row_count + b.row_count },
      ground (
        arith,
        step,
        length-Fits a.row_count s.columns a.columns ha,
        length-Fits b.row_count s.columns b.columns hb,
        lt→ltb (a.row_count + b.row_count) (2 ^ 64),
      ),
      fits,
      refl,
      joined,
    )
