-- ===== src/Db/Table/Contents.antt =====
-- All that a table of bypass-db/src/table.rs holds: its sealed segments and its active batch against
-- the batches that were appended.
use bypass_io.Prelude.{
  ℕ, suc, ◌≤◌, ◌<◌, ◌≡◌, refl, sym, ap, ap₂, ◌∙◌, Bool, List, [], ◌∷◌, ◌++◌, append-nil,
  append_assoc, length, arith,
}
use bypass_io.Db.Schema.{ColumnDef, Schema, DType, f64, i64, timestamp, fixed_str}
use bypass_io.Db.Batch.{RowBatch, Columns, empty, empty_columns, empty_data}
use bypass_io.Db.Batch.Cells.{Value, View, view, cells, join}
use bypass_io.Db.Batch.WellFormed.{WellFormed, length-Fits, empty-WellFormed}
use bypass_io.Db.Segment.Mapping.{Sealing}
use bypass_io.Db.Segment.{SegmentRef, ImmutableSegment, to_ref}
use bypass_io.Db.Table.{Table}
use bypass_io.Db.Table.Durable.{Durable}

-- Batch after batch, the cells of each behind those that are there.
abbrev pub gather : View → List RowBatch → View
gather v [] = v
gather v (b ∷ bs) = gather (join v (view b.columns)) bs

-- All that these batches hold, in a table of this schema.
abbrev pub gathered : Schema → List RowBatch → View
gathered s bs = gather (view (empty s).columns) bs

-- The segments hold these batches.
abbrev pub AllSealed : Schema → List ImmutableSegment → List RowBatch → Type 0
AllSealed s [] [] = Unit
AllSealed s [] (b ∷ bs) = ⊥
AllSealed s (g ∷ gs) [] = ⊥
AllSealed s (g ∷ gs) (b ∷ bs) = (0 < b.row_count) × Sealing s b g × AllSealed s gs bs

length-join : (a b : View) → length (join a b) ≡ length a
unfolding join
length-join [] b = refl
length-join (x ∷ a) [] = refl
length-join ((n, xs) ∷ a) ((m, ys) ∷ b) = ap suc (length-join a b)

length-gather : (v : View) (bs : List RowBatch) → length (gather v bs) ≡ length v
length-gather v [] = refl
length-gather v (b ∷ bs) =
    length-gather (join v (view b.columns)) bs ∙ length-join v (view b.columns)

join_assoc : (a b c : View) → length a ≤ length b → join (join a b) c ≡ join a (join b c)
unfolding join
join_assoc [] b c h = refl
join_assoc (x ∷ a) [] c h = absurd (omega arith)
join_assoc ((n, xs) ∷ a) ((m, ys) ∷ b) [] h = refl
join_assoc ((n, xs) ∷ a) ((m, ys) ∷ b) ((o, zs) ∷ c) h =
    ap₂ (λ (l : List Value) (r : View). (n, l) ∷ r) (append_assoc xs ys zs)
      (join_assoc a b c (omega arith))

pub gather-snoc :
    (v : View) (bs : List RowBatch) (b : RowBatch)
    → gather v (bs ++ (b ∷ [])) ≡ join (gather v bs) (view b.columns)
gather-snoc v [] b = refl
gather-snoc v (x ∷ bs) b = gather-snoc (join v (view x.columns)) bs b

no_cells : (d : DType) → cells (empty_data d) ≡ []
unfolding cells empty_data
no_cells f64 = refl
no_cells i64 = refl
no_cells timestamp = refl
no_cells (fixed_str w) = refl

-- An empty batch adds no cells.
join-empty : (v : View) (cs : List ColumnDef) → join v (view (empty_columns cs)) ≡ v
unfolding join view empty_columns
join-empty [] cs = refl
join-empty (x ∷ v) [] = refl
join-empty ((n, xs) ∷ v) (c ∷ cs) =
    ap₂ (λ (l : List Value) (r : View). (n, l) ∷ r)
      (ap (λ (l : List Value). xs ++ l) (no_cells c.dtype) ∙ append-nil xs) (join-empty v cs)

length-view : (cols : Columns) → length (view cols) ≡ length cols
unfolding view
length-view [] = refl
length-view ((n, d) ∷ cols) = ap suc (length-view cols)

pub AllSealed-snoc :
    (s : Schema) (gs : List ImmutableSegment) (bs : List RowBatch) (g : ImmutableSegment)
    (b : RowBatch)
    → AllSealed s gs bs
    → 0 < b.row_count
    → Sealing s b g
    → AllSealed s (gs ++ (g ∷ [])) (bs ++ (b ∷ []))
AllSealed-snoc s [] [] g b h some_rows e = (some_rows, e, tt)
AllSealed-snoc s [] (x ∷ bs) g b h some_rows e = absurd h
AllSealed-snoc s (x ∷ gs) [] g b h some_rows e = absurd h
AllSealed-snoc s (x ∷ gs) (y ∷ bs) g b h some_rows e =
    (h.0, h.1, AllSealed-snoc s gs bs g b h.2 some_rows e)

abbrev pub refs : List ImmutableSegment → List SegmentRef
refs [] = []
refs (g ∷ gs) = to_ref g.meta ∷ refs gs

pub refs-snoc :
    (gs : List ImmutableSegment) (g : ImmutableSegment)
    → refs (gs ++ (g ∷ [])) ≡ refs gs ++ (to_ref g.meta ∷ [])
refs-snoc [] g = refl
refs-snoc (x ∷ gs) g = ap (λ l. to_ref x.meta ∷ l) (refs-snoc gs g)

module _ (is_utf8 : List ℕ → Bool) where
  -- The table holds these batches: they are durable, and the segments and the active batch together
  -- have their cells.
  pub record Holds (t : Table) (bs : List RowBatch) : Type 0 where
    pub durable : Durable is_utf8 t bs
    pub fits : WellFormed t.schema t.active
    pub listed : t.manifest.sealed_segments ≡ refs t.sealed
    pub parts : List RowBatch
    pub kept : AllSealed t.schema t.sealed parts
    pub contents : gathered t.schema (parts ++ (t.active ∷ [])) ≡ gathered t.schema bs

  wide_enough :
      (s : Schema) (ps : List RowBatch) (b : RowBatch)
      → WellFormed s b
      → length (gathered s ps) ≤ length (view b.columns)
  unfolding empty
  wide_enough s ps b fits = omega (
    arith,
    length-gather (view (empty s).columns) ps,
    length-view (empty_columns s.columns),
    length-Fits 0 s.columns (empty s).columns (empty-WellFormed s),
    length-view b.columns,
    length-Fits b.row_count s.columns b.columns fits,
  )

  -- One more batch, behind the active one.
  pub gathered-append :
      (s : Schema) (ps bs : List RowBatch) (a rows a' : RowBatch)
      → WellFormed s a
      → gathered s (ps ++ (a ∷ [])) ≡ gathered s bs
      → view a'.columns ≡ join (view a.columns) (view rows.columns)
      → gathered s (ps ++ (a' ∷ [])) ≡ gathered s (bs ++ (rows ∷ []))
  gathered-append s ps bs a rows a' fits same joined =
      let start = view (empty s).columns in
      gather-snoc start ps a'
      ∙ ap (join (gather start ps)) joined
      ∙ sym (
          join_assoc (gather start ps) (view a.columns) (view rows.columns)
            (wide_enough s ps a fits))
      ∙ ap (λ v. join v (view rows.columns)) (sym (gather-snoc start ps a) ∙ same)
      ∙ sym (gather-snoc start bs rows)

  pub gathered-empty :
      (s : Schema) (ps : List RowBatch) → gathered s (ps ++ (empty s ∷ [])) ≡ gathered s ps
  unfolding empty
  gathered-empty s ps =
      gather-snoc (view (empty s).columns) ps (empty s) ∙ join-empty (gathered s ps) s.columns
