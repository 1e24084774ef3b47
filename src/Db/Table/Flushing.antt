-- ===== src/Db/Table/Flushing.antt =====
-- `Table::append` and `Table::flush` of bypass-db/src/table.rs, and all that the table holds.
use bypass_io.Prelude.{
  ℕ, zero, suc, ◌+◌, ◌^◌, ◌<◌, ◌≡◌, ◌≢◌, ◌==◌, refl, sym, ap, ◌∙◌, Bool, true, false, inl, inr,
  List, [], ◌∷◌, ◌++◌, append_assoc, some, ok, err, Bool-cases, length, length-append, drop, arith,
  lt→ltb, ltb,
}
use bypass_io.Prelude.Predicates.{All}
use bypass_io.Db.Schema.{Schema}
use bypass_io.Db.Schema.Validity.{IsValid}
use bypass_io.Db.Batch.{RowBatch, empty}
use bypass_io.Db.Batch.WellFormed.{WellFormed, empty-WellFormed}
use bypass_io.Db.Error
use bypass_io.Db.Payload.{encode_batch}
use bypass_io.Db.Payload.RoundTrip.{StoredAll}
use bypass_io.Db.Segment.{Files, Manifest, ImmutableSegment, seal_batch, to_ref}
use bypass_io.Db.Segment.RoundTrip.{IsFileName, sealing}
use bypass_io.Db.Segment.Mapping.{Sealing}
use bypass_io.Db.Segment.Files.{Sealable}
use bypass_io.Db.Wal.{Written, complete, sync}
use bypass_io.Db.Table.{Table, append, recover_batches, flush, open_table, replay}
use bypass_io.Db.Table.Durable.{append-Durable, open_table-Durable, records-Durable, length-Decoded}
use bypass_io.Db.Table.Contents.{
  refs, refs-snoc, AllSealed-snoc, Holds, gathered-append, gathered-empty,
}

-- An append leaves the segments and the manifest alone.
append_keeps :
    (os : Written) (t : Table) (rows : RowBatch)
    → ((append os t rows).1.schema ≡ t.schema)
      × ((append os t rows).1.sealed ≡ t.sealed)
      × ((append os t rows).1.manifest ≡ t.manifest)
unfolding append
append_keeps os t rows = ground arith

drop_all {ℓ} : {A : Type ℓ} (xs : List A) (n : ℕ) → n ≡ length xs → drop n xs ≡ []
drop_all [] zero e = refl
drop_all [] (suc n) e = refl
drop_all (x ∷ xs) zero e = absurd (omega arith)
drop_all (x ∷ xs) (suc n) e = drop_all xs n (omega arith)

-- The table that a flush leaves, whose segment is `g`.
abbrev pub flushed : Table → ImmutableSegment → ℕ → Table
flushed t g applied = record t {
  active = empty t.schema;
  sealed = t.sealed ++ (g ∷ []);
  manifest = record t.manifest {
    next_segment_id = t.manifest.next_segment_id + 1;
    sealed_segments = t.manifest.sealed_segments ++ (to_ref g.meta ∷ []);
    wal_records_applied = applied;
  };
}

module _ (is_utf8 : List ℕ → Bool) where
  pub flushed-Holds :
      (t : Table) (bs : List RowBatch) (g : ImmutableSegment)
      → (h : Holds is_utf8 t bs) → 0 < t.active.row_count
      → Sealing t.schema t.active g
      → Holds is_utf8 (flushed t g (length h.durable.rs)) bs
  unfolding replay
  flushed-Holds t bs g h some_rows back = record {
    durable = record {
      rs = h.durable.rs;
      logs = h.durable.logs;
      decoded = h.durable.decoded;
      applied = omega (arith, same);
      replayed = ap (replay (empty t.schema)) (drop_all bs (length h.durable.rs) same);
    };
    fits = empty-WellFormed t.schema;
    listed = ap (λ l. l ++ (to_ref g.meta ∷ [])) h.listed ∙ sym (refs-snoc t.sealed g);
    parts = h.parts ++ (t.active ∷ []);
    kept = AllSealed-snoc t.schema t.sealed h.parts g t.active h.kept some_rows back;
    contents = gathered-empty is_utf8 t.schema (h.parts ++ (t.active ∷ [])) ∙ h.contents;
  }
    where
      same : length h.durable.rs ≡ length bs
      same = length-Decoded is_utf8 t.schema h.durable.rs bs h.durable.decoded

  -- On a table that holds these batches and has a valid schema, whose active columns can be sealed
  -- and whose segment ids are not used up, a flush succeeds when the system syncs the log and stores
  -- the manifest: the table holds the same batches, none of its rows are in memory, and opening its
  -- files gives back the table.
  pub flush-Holds :
      (t : Table) (bs : List RowBatch) (files : Files)
      → IsValid t.schema
      → Holds is_utf8 t bs
      → All (λ c. IsFileName c.name) t.schema.columns
      → All (λ x. Sealable x.1) t.active.columns
      → t.manifest.next_segment_id + 1 < 2 ^ 64
      → (t' : Table) × (flush true files true t ≡ some (ok tt, t'))
        × Holds is_utf8 t' bs
        × (t'.active.row_count ≡ 0)
        × (open_table is_utf8 t'.schema t'.manifest t'.sealed t'.wal.file ≡ some (ok t'))
  unfolding flush sync empty
  flush-Holds t bs files valid h named sealable room = elim (Bool-cases (t.active.row_count == 0)) [
    | inl none_active ↦ (
      t,
      ground (arith, none_active),
      h,
      ground (arith, none_active),
      open_table-Durable is_utf8 t bs h.durable,
    )
    | inr some_active ↦
        let made =
          sealing t.schema t.manifest.next_segment_id t.active files valid h.fits named sealable in
        let g = made.0 in
        let after = flushed-Holds t bs g h (ground (arith, some_active)) made.2 in
        (
          flushed t g (length h.durable.rs),
          ground (
            arith,
            some_active,
            made.1,
            records-Durable is_utf8 t bs h.durable,
            lt→ltb (t.manifest.next_segment_id + 1) (2 ^ 64) room,
          ),
          after,
          refl,
          open_table-Durable is_utf8 (flushed t g (length h.durable.rs)) bs after.durable,
        )
  ]

  -- On a table that holds these batches and has a valid schema, appending a batch that fits the
  -- schema, can be stored and is not too large succeeds when the system writes all of the record: the
  -- table then holds the new batch behind the others, whichever of them are sealed, and recovery from
  -- the log gives back all of them.
  pub append-Holds :
      (t : Table) (bs : List RowBatch) (rows : RowBatch)
      → IsValid t.schema
      → (h : Holds is_utf8 t bs) → WellFormed t.schema rows
      → StoredAll is_utf8 t.schema.columns rows.columns
      → t.active.row_count + rows.row_count < 2 ^ 64
      → length rows.columns < 2 ^ 64
      → length h.durable.rs + 1 < 2 ^ 64
      → ((payload : List ℕ) → encode_batch rows ≡ ok payload → length payload < 2 ^ 32)
      → (t' : Table) × (append complete t rows ≡ (ok rows.row_count, t'))
        × Holds is_utf8 t' (bs ++ (rows ∷ []))
        × (recover_batches is_utf8 t' ≡ some (ok (bs ++ (rows ∷ []))))
  append-Holds t bs rows valid h fits stored counted narrow room small =
      let (t', done, durable, recovered, fits', joined) =
        append-Durable is_utf8 t bs rows valid h.fits h.durable fits stored counted narrow room
          small in
      let kept = append_keeps complete t rows in
      let schema_kept : t'.schema ≡ t.schema = sym (ap (λ r. r.1.schema) done) ∙ kept.0 in
      let sealed_kept : t'.sealed ≡ t.sealed = sym (ap (λ r. r.1.sealed) done) ∙ kept.1 in
      let manifest_kept : t'.manifest ≡ t.manifest = sym (ap (λ r. r.1.manifest) done) ∙ kept.2 in
      (
        t',
        done,
        record {
          durable = durable;
          fits = fits';
          listed =
              ap (λ (m : Manifest). m.sealed_segments) manifest_kept
              ∙ h.listed
              ∙ sym (ap refs sealed_kept);
          parts = h.parts;
          kept = rw (schema_kept, sealed_kept) h.kept;
          contents = rw schema_kept (
              gathered-append is_utf8 t.schema h.parts bs t.active rows t'.active h.fits h.contents
                joined);
        },
        recovered,
      )

seal_batch-meta :
    (s : Schema) (id : ℕ) (b : RowBatch) (files : Files) (g : ImmutableSegment)
    → seal_batch s id b files ≡ ok g
    → g.meta.id ≡ id
unfolding seal_batch
seal_batch-meta s id b files g e = ground arith

-- A flush of `t` whose manifest was not stored, with these files in the new segment's directory, and
-- a second flush that left `t'`: two segments of different ids have been sealed, each holds the rows
-- in memory, the manifest lists both, and the table has the second.
abbrev pub SealedTwice : Files → Table → Table → Type 0
SealedTwice files t t' =
    (first : ImmutableSegment) × (second : ImmutableSegment) × (seal_batch t.schema
        t.manifest.next_segment_id t.active files
      ≡ ok first)
    × Sealing t.schema t.active first
    × Sealing t.schema t.active second
    × (first.meta.id ≢ second.meta.id)
    × (t'.manifest.sealed_segments
        ≡ t.manifest.sealed_segments ++ (to_ref first.meta ∷ to_ref second.meta ∷ []))
    × (t'.sealed ≡ t.sealed ++ (second ∷ []))

-- On a table that holds these batches, has rows in memory and a valid schema, whose active columns
-- can be sealed and whose segment ids are not used up by two more: when the manifest cannot be
-- stored a flush returns an error and keeps the rows in memory, but lists the new segment; the next
-- flush, whose manifest is stored, seals the same rows once more. The manifest that it stores lists
-- two segments whose files both hold these rows, while the table has one more in memory.
pub flush_again :
    (is_utf8 : List ℕ → Bool) (t : Table) (bs : List RowBatch) (files files' : Files)
    → IsValid t.schema
    → Holds is_utf8 t bs
    → All (λ c. IsFileName c.name) t.schema.columns
    → All (λ x. Sealable x.1) t.active.columns
    → t.manifest.next_segment_id + 2 < 2 ^ 64
    → 0 < t.active.row_count
    → (t' : Table) × (t'' : Table) × (flush true files false t ≡ some (err Error.io, t'))
      × (t'.active ≡ t.active)
      × (t'.manifest.sealed_segments ≢ t.manifest.sealed_segments)
      × (flush true files' true t' ≡ some (ok tt, t''))
      × SealedTwice files t t''
unfolding flush sync
flush_again is_utf8 t bs files files' valid h named sealable room rows_active =
    let made =
      sealing t.schema t.manifest.next_segment_id t.active files valid h.fits named sealable in
    let again =
      sealing t.schema (t.manifest.next_segment_id + 1) t.active files' valid h.fits named
        sealable in
    let first = seal_batch-meta t.schema t.manifest.next_segment_id t.active files made.0 made.1 in
    let second =
      seal_batch-meta t.schema (t.manifest.next_segment_id + 1) t.active files' again.0 again.1 in
    let read = records-Durable is_utf8 t bs h.durable in
    let listed : Manifest = record t.manifest {
      next_segment_id = t.manifest.next_segment_id + 1;
      sealed_segments = t.manifest.sealed_segments ++ (to_ref made.0.meta ∷ []);
      wal_records_applied = length h.durable.rs;
    } in
    let some_active : (t.active.row_count == 0) ≡ false = ground arith in
    let fits_once : ltb (t.manifest.next_segment_id + 1) (2 ^ 64) ≡ true = ground arith in
    let fits_twice : ltb (t.manifest.next_segment_id + 1 + 1) (2 ^ 64) ≡ true = ground arith in
    (
      record t { manifest = listed },
      flushed (record t { manifest = listed }) again.0 (length h.durable.rs),
      ground (arith, some_active, made.1, read, fits_once),
      refl,
      λ e. absurd (
          omega (
            arith,
            ap length e,
            length-append t.manifest.sealed_segments (to_ref made.0.meta ∷ []),
          )),
      ground (arith, some_active, again.1, read, fits_twice),
      (
        made.0,
        again.0,
        made.1,
        made.2,
        again.2,
        λ e. absurd (omega (arith, first, second, e)),
        append_assoc t.manifest.sealed_segments (to_ref made.0.meta ∷ [])
            (to_ref again.0.meta ∷ []),
        refl,
      ),
    )
