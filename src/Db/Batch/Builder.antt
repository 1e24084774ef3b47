-- ===== src/Db/Batch/Builder.antt =====
-- `RowBatchBuilder::build`: what it accepts, and what an accepted batch guarantees.
use bypass_io.Prelude.{
  ℕ, ◌==◌, ◌≡◌, ◌≢◌, refl, sym, ap, subst, ◌∙◌, false, List, [], ◌∷◌, Option, none, some, Result,
  ok, >>=-eq-ok, guard, length, arith, Bool-cases, ◌⊎◌, inl, inr, ==_iff,
}
use bypass_io.Prelude.Predicates.{All}
use bypass_io.Db.Schema.{Name, ColumnDef, Schema}
use bypass_io.Db.Batch.{
  ColumnData, f64_data, i64_data, timestamp_data, fixed_str_data, BatchError, Columns, RowBatch,
  find_column, any_other_width, validate_fixed_str_width, next_row_count, build_column,
  build_columns, build, unwrap_or, schema_mismatch,
}
use bypass_io.Db.Batch.WellFormed.{IsWide, Suits, Fits, WellFormed}

any_other_width-All :
    (w : ℕ) (vs : List (List ℕ)) → any_other_width w vs ≡ false → All (λ v. length v ≡ w) vs
unfolding any_other_width
any_other_width-All w [] h = tt
any_other_width-All w (v ∷ vs) h = elim (Bool-cases (length v == w)) [
  | inl e ↦ ((==_iff (length v) w).0 e, any_other_width-All w vs (rw e at h))
  | inr e ↦ absurd (ground arith)
]

All-any_other_width :
    (w : ℕ) (vs : List (List ℕ)) → All (λ v. length v ≡ w) vs → any_other_width w vs ≡ false
unfolding any_other_width
All-any_other_width w [] h = refl
All-any_other_width w (v ∷ vs) h =
    ground (arith, All-any_other_width w vs h.1, (==_iff (length v) w).1 h.0)

validate-IsWide : (n : Name) (d : ColumnData) → validate_fixed_str_width n d ≡ ok tt → IsWide d
unfolding validate_fixed_str_width
validate-IsWide n (fixed_str_data w vs) h = any_other_width-All w vs (ground arith)
validate-IsWide n (f64_data vs) h = tt
validate-IsWide n (i64_data vs) h = tt
validate-IsWide n (timestamp_data vs) h = tt

IsWide-validate : (n : Name) (d : ColumnData) → IsWide d → validate_fixed_str_width n d ≡ ok tt
unfolding validate_fixed_str_width
IsWide-validate n (fixed_str_data w vs) h = ground (arith, All-any_other_width w vs h)
IsWide-validate n (f64_data vs) h = refl
IsWide-validate n (i64_data vs) h = refl
IsWide-validate n (timestamp_data vs) h = refl

-- One accepted round: the column found suits the schema's, and agrees with the rows so far.
build_column-Suits :
    (cols : Columns) (c : ColumnDef) (count : Option ℕ) (d : ColumnData) (k : ℕ)
    → build_column cols c count ≡ ok (d, k)
    → Suits k c c.name d × ((m : ℕ) → count ≡ some m → m ≡ k)
unfolding build_column next_row_count
build_column-Suits cols c count d k h = (
  record {
    named = refl;
    typed = ground arith;
    counted = ground arith;
    wide = validate-IsWide c.name d (ground arith);
  },
  λ m e. ground arith,
)

build_columns-Fits :
    (cols : Columns) (cs : List ColumnDef) (count : Option ℕ) (ordered : Columns) (last : Option ℕ)
    → build_columns cols cs count ≡ ok (ordered, last)
    → ((m : ℕ) → count ≡ some m → last ≡ some m)
      × ((n : ℕ) → last ≡ some n → Fits n cs ordered)
      × (last ≡ none → Fits 0 cs ordered)
unfolding build_columns
build_columns-Fits cols [] count ordered last h =
    let nil : ◌≡◌ {A = Columns} [] ordered = cc in
    (λ m e. cc, λ n e. subst (Fits n []) nil tt, λ e. subst (Fits 0 []) nil tt)
build_columns-Fits cols (c ∷ cs) count ordered last h =
    let ((d, k), one, more) = >>=-eq-ok (build_column cols c count) _ h in
    let ((rest, last'), others, made) = >>=-eq-ok (build_columns cols cs (some k)) _ more in
    let (suits, agree) = build_column-Suits cols c count d k one in
    let (keep, fits, none_fits) = build_columns-Fits cols cs (some k) rest last' others in
    let whole : (c.name, d) ∷ rest ≡ ordered = cc made in
    let stop : last' ≡ last = cc made in
    let counted : last ≡ some k = sym stop ∙ keep k refl in
    (
      λ m e. counted ∙ ap some (sym (agree m e)),
      λ n e. subst (Fits n (c ∷ cs)) whole (fits_at n d k rest (cc) suits (fits n (stop ∙ e))),
      λ e. absurd (cc counted),
    )
  where
    fits_at :
        (n : ℕ) (d : ColumnData) (k : ℕ) (rest : Columns)
        → k ≡ n
        → Suits k c c.name d
        → Fits n cs rest
        → Fits n (c ∷ cs) ((c.name, d) ∷ rest)
    fits_at n d k rest e suits fits = (subst (λ m. Suits m c c.name d) e suits, fits)

-- A batch that `build` accepts fits the schema: the schema's columns in the schema's order, of the
-- schema's types and widths, all with the row count of the batch.
pub build-WellFormed :
    (s : Schema) (cols : Columns) (b : RowBatch) → build s cols ≡ ok b → WellFormed s b
unfolding build
build-WellFormed s cols b h =
    let (u, sized, rest) =
      >>=-eq-ok (guard (length cols == length s.columns) schema_mismatch) _ h in
    let ((ordered, count), loop, made) = >>=-eq-ok (build_columns cols s.columns none) _ rest in
    batch_fits ordered count made (build_columns-Fits cols s.columns none ordered count loop)
  where
    batch_fits :
        (ordered : Columns) (count : Option ℕ)
        → ◌≡◌ {A = Result BatchError RowBatch}
            (ok (record { columns = ordered; row_count = unwrap_or 0 count }))
            (ok b)
        → ((m : ℕ) → ◌≡◌ {A = Option ℕ} none (some m) → count ≡ some m)
          × ((n : ℕ) → count ≡ some n → Fits n s.columns ordered)
          × (count ≡ none → Fits 0 s.columns ordered)
        → WellFormed s b
    batch_fits ordered none made f =
        let e : ◌≡◌ {A = RowBatch} (record { columns = ordered; row_count = 0 }) b = cc in
        subst (WellFormed s) e (f.2 refl)
    batch_fits ordered (some n) made f =
        let e : ◌≡◌ {A = RowBatch} (record { columns = ordered; row_count = n }) b = cc in
        subst (WellFormed s) e (f.1 n refl)

-- Each column of the schema is found among those that were added, with the data of the batch.
abbrev pub Supplies : Columns → List ColumnDef → Columns → Type 0
Supplies cols [] ordered = Unit
Supplies cols (c ∷ cs) [] = ⊥
Supplies cols (c ∷ cs) ((n, d) ∷ ordered) =
    (find_column cols c.name ≡ some d) × Supplies cols cs ordered

module _ (cols : Columns) (n : ℕ) where
  build_column_complete :
      (c : ColumnDef) (m : Name) (d : ColumnData) (count : Option ℕ)
      → (count ≡ none) ⊎ (count ≡ some n)
      → Suits n c m d
      → find_column cols c.name ≡ some d
      → build_column cols c count ≡ ok (d, n)
  unfolding build_column next_row_count
  build_column_complete c m d count start suits found =
      ground (arith, suits.typed, suits.counted, IsWide-validate c.name d suits.wide)

  build_columns_complete :
      (cs : List ColumnDef) (ordered : Columns)
      → Fits n cs ordered
      → Supplies cols cs ordered
      → build_columns cols cs (some n) ≡ ok (ordered, some n)
  unfolding build_columns
  build_columns_complete [] [] fits found = refl
  build_columns_complete [] (x ∷ ordered) fits found = absurd fits
  build_columns_complete (c ∷ cs) [] fits found = absurd fits
  build_columns_complete (c ∷ cs) ((m, d) ∷ ordered) fits found = ground (
    arith,
    build_column_complete c m d (some n) (inr refl) fits.0 found.0,
    build_columns_complete cs ordered fits.1 found.1,
    fits.0.named,
  )

  first_columns_complete :
      (cs : List ColumnDef) (ordered : Columns)
      → cs ≢ []
      → Fits n cs ordered
      → Supplies cols cs ordered
      → build_columns cols cs none ≡ ok (ordered, some n)
  unfolding build_columns
  first_columns_complete [] ordered ne fits found = absurd (ne refl)
  first_columns_complete (c ∷ cs) [] ne fits found = absurd fits
  first_columns_complete (c ∷ cs) ((m, d) ∷ ordered) ne fits found = ground (
    arith,
    build_column_complete c m d none (inl refl) fits.0 found.0,
    build_columns_complete cs ordered fits.1 found.1,
    fits.0.named,
  )

-- `build` accepts the columns of a batch that fits the schema in whatever order they were added,
-- and gives that batch.
pub build_complete :
    (s : Schema) (cols : Columns) (b : RowBatch)
    → s.columns ≢ []
    → WellFormed s b
    → length cols ≡ length s.columns
    → Supplies cols s.columns b.columns
    → build s cols ≡ ok b
unfolding build
build_complete s cols b ne fits sized found =
    rw ((==_iff (length cols) (length s.columns)).1 sized)
      (ground (arith, first_columns_complete cols b.row_count s.columns b.columns ne fits found))
