-- ===== src/Db/Table/Durable.antt =====
-- What `Table::append` of bypass-db/src/table.rs makes durable, and what recovery gives back.
use bypass_io.Prelude.{
  ℕ, zero, suc, ◌≤◌, drop, length-append, ◌+◌, ◌^◌, ◌<◌, ◌≡◌, refl, sym, ap, ◌∙◌, Bool, List, [],
  ◌∷◌, ◌++◌, append-nil, some, ok, err, length, arith, Result,
}
use bypass_io.Db.Schema.{ColumnDef, Schema}
use bypass_io.Db.Schema.Validity.{IsValid}
use bypass_io.Db.Batch.{RowBatch, Columns, column, find_column, empty, BatchError}
use bypass_io.Db.Batch
use bypass_io.Db.Batch.Cells.{view, join}
use bypass_io.Db.Batch.WellFormed.{WellFormed, Fits, length-Fits, append-WellFormed}
use bypass_io.Db.Payload.{encode_batch, decode_batch}
use bypass_io.Db.Payload.RoundTrip.{StoredAll, decode_batch-encode_batch}
use bypass_io.Db.Segment.RoundTrip.{Found, Fits-Found, Distinct-of_indices}
use bypass_io.Db.Wal.{WalRecord, complete, records, open_writer}
use bypass_io.Db.Wal.Log.{log_bytes}
use bypass_io.Db.Wal.Recovery.{records_torn_header}
use bypass_io.Db.Wal.Writer.{Logs, append-Logs, open_writer-Logs, new_record}
use bypass_io.Db.Table.{
  Table, validate_columns, validate_batch_matches_schema, append, decode_all, replay, open_table,
  recover_batches_after, recover_batches,
}

validate_columns-Fits :
    (rows : RowBatch) (n : ℕ) (cs : List ColumnDef) (cols : Columns)
    → Found rows.columns cs cols
    → Fits n cs cols
    → validate_columns rows cs ≡ ok tt
unfolding validate_columns column
validate_columns-Fits rows n [] cols f h = refl
validate_columns-Fits rows n (c ∷ cs) [] f h = absurd h
validate_columns-Fits rows n (c ∷ cs) ((m, d) ∷ cols) f h =
    ground (arith, f.0, h.0.typed, validate_columns-Fits rows n cs cols f.1 h.1)

-- A batch that fits a valid schema is accepted.
validate-WellFormed :
    (s : Schema) (rows : RowBatch)
    → IsValid s
    → WellFormed s rows
    → validate_batch_matches_schema s rows ≡ ok tt
unfolding validate_batch_matches_schema
validate-WellFormed s rows valid fits = ground (
  arith,
  length-Fits rows.row_count s.columns rows.columns fits,
  validate_columns-Fits rows rows.row_count s.columns rows.columns
      (Fits-Found rows.row_count s.columns rows.columns
        (Distinct-of_indices s.columns valid.distinct) fits)
      fits,
)

drop-snoc {ℓ} :
    {A : Type ℓ} (k : ℕ) (xs : List A) (x : A)
    → k ≤ length xs
    → drop k (xs ++ (x ∷ [])) ≡ drop k xs ++ (x ∷ [])
drop-snoc zero xs x h = refl
drop-snoc (suc k) [] x h = absurd (omega arith)
drop-snoc (suc k) (y ∷ xs) x h = drop-snoc k xs x (omega arith)

replay-cons :
    (b start : RowBatch) (r : Result BatchError (Unit {0}) × RowBatch) (bs : List RowBatch)
    (active active' rows : RowBatch)
    → Batch.append start b ≡ r
    → replay start (b ∷ bs) ≡ ok active
    → ((next : RowBatch)
        → replay next bs ≡ ok active
        → replay next (bs ++ (rows ∷ [])) ≡ ok active')
    → replay start (b ∷ bs ++ (rows ∷ [])) ≡ ok active'
unfolding replay
replay-cons b start (err f, next) bs active active' rows step h more =
    absurd (ground (arith, step, h))
replay-cons b start (ok u, next) bs active active' rows step h more =
    ground (arith, step, more next (ground (arith, step, h)))

-- Replaying one more batch appends it.
replay-snoc :
    (start : RowBatch) (bs : List RowBatch) (active active' rows : RowBatch)
    → replay start bs ≡ ok active
    → Batch.append active rows ≡ (ok tt, active')
    → replay start (bs ++ (rows ∷ [])) ≡ ok active'
unfolding replay
replay-snoc start [] active active' rows h e = ground (arith, same, e)
  where
    same : start ≡ active
    same = cc
replay-snoc start (b ∷ bs) active active' rows h e =
    replay-cons b start (Batch.append start b) bs active active' rows refl h
      (λ next g. replay-snoc next bs active active' rows g e)

module _ (is_utf8 : List ℕ → Bool) where
  -- The payloads of the records are those of the batches.
  abbrev pub Decoded : Schema → List WalRecord → List RowBatch → Type 0
  Decoded s [] [] = Unit
  Decoded s [] (b ∷ bs) = ⊥
  Decoded s (r ∷ rs) [] = ⊥
  Decoded s (r ∷ rs) (b ∷ bs) = (decode_batch is_utf8 s r.payload ≡ ok b) × Decoded s rs bs

  -- The log of the table holds these batches, in order, and those that no segment has are the active
  -- one.
  pub record Durable (t : Table) (bs : List RowBatch) : Type 0 where
    pub rs : List WalRecord
    pub logs : Logs t.wal rs
    pub decoded : Decoded t.schema rs bs
    pub applied : t.manifest.wal_records_applied ≤ length bs
    pub replayed : replay (empty t.schema) (drop t.manifest.wal_records_applied bs) ≡ ok t.active

  Decoded-snoc :
      (s : Schema) (rs : List WalRecord) (bs : List RowBatch) (r : WalRecord) (b : RowBatch)
      → Decoded s rs bs
      → decode_batch is_utf8 s r.payload ≡ ok b
      → Decoded s (rs ++ (r ∷ [])) (bs ++ (b ∷ []))
  Decoded-snoc s [] [] r b h e = (e, tt)
  Decoded-snoc s [] (x ∷ bs) r b h e = absurd h
  Decoded-snoc s (x ∷ rs) [] r b h e = absurd h
  Decoded-snoc s (x ∷ rs) (y ∷ bs) r b h e = (h.0, Decoded-snoc s rs bs r b h.1 e)

  pub length-Decoded :
      (s : Schema) (rs : List WalRecord) (bs : List RowBatch)
      → Decoded s rs bs
      → length rs ≡ length bs
  length-Decoded s [] [] h = refl
  length-Decoded s [] (x ∷ bs) h = absurd h
  length-Decoded s (x ∷ rs) [] h = absurd h
  length-Decoded s (x ∷ rs) (y ∷ bs) h = ap suc (length-Decoded s rs bs h.1)

  decode_all-Decoded :
      (s : Schema) (rs : List WalRecord) (bs : List RowBatch)
      → Decoded s rs bs
      → decode_all is_utf8 s rs ≡ ok bs
  unfolding decode_all
  decode_all-Decoded s [] [] h = refl
  decode_all-Decoded s [] (b ∷ bs) h = absurd h
  decode_all-Decoded s (r ∷ rs) [] h = absurd h
  decode_all-Decoded s (r ∷ rs) (b ∷ bs) h = ground (arith, h.0, decode_all-Decoded s rs bs h.1)

  -- The log of a durable table is read as its records.
  pub records-Durable :
      (t : Table) (bs : List RowBatch) (h : Durable t bs) → records t.wal.file ≡ some (ok h.rs)
  records-Durable t bs h =
      ap records (h.logs.written ∙ sym (append-nil (log_bytes h.rs)))
      ∙ records_torn_header h.rs [] h.logs.fit (omega arith)

  -- Recovery gives back the batches of a durable table.
  recover_batches-Durable :
      (t : Table) (bs : List RowBatch) → Durable t bs → recover_batches is_utf8 t ≡ some (ok bs)
  unfolding recover_batches recover_batches_after
  recover_batches-Durable t bs h =
      ground (arith, decode_all-Decoded t.schema h.rs bs h.decoded, records-Durable t bs h)

  Decoded-drop :
      (s : Schema) (k : ℕ) (rs : List WalRecord) (bs : List RowBatch)
      → Decoded s rs bs
      → Decoded s (drop k rs) (drop k bs)
  Decoded-drop s zero rs bs h = h
  Decoded-drop s (suc k) [] [] h = tt
  Decoded-drop s (suc k) [] (b ∷ bs) h = absurd h
  Decoded-drop s (suc k) (r ∷ rs) [] h = absurd h
  Decoded-drop s (suc k) (r ∷ rs) (b ∷ bs) h = Decoded-drop s k rs bs h.1

  -- Opening the files of a durable table gives back the table: its active batch is rebuilt from the
  -- records that no segment has, and the writer continues the sequence.
  pub open_table-Durable :
      (t : Table) (bs : List RowBatch)
      → Durable t bs
      → open_table is_utf8 t.schema t.manifest t.sealed t.wal.file ≡ some (ok t)
  unfolding open_table recover_batches_after
  open_table-Durable t bs h = ground (
    arith,
    opened,
    records-Durable t bs h,
    decode_all-Decoded t.schema (drop t.manifest.wal_records_applied h.rs)
        (drop t.manifest.wal_records_applied bs)
        (Decoded-drop t.schema t.manifest.wal_records_applied h.rs bs h.decoded),
    h.replayed,
  )
    where
      opened : open_writer t.wal.file ≡ some (ok t.wal)
      opened = open_writer-Logs t.wal h.rs h.logs

  -- On a durable table whose active batch fits its valid schema, appending a batch that fits it too,
  -- can be stored and is not too large succeeds when the system writes all of the record: the count
  -- of its rows is returned, the active batch fits the schema and has the cells of the new one behind
  -- its own, and recovery from the log then gives back all the batches, the new one last.
  pub append-Durable :
      (t : Table) (bs : List RowBatch) (rows : RowBatch)
      → IsValid t.schema
      → WellFormed t.schema t.active
      → (h : Durable t bs) → WellFormed t.schema rows
      → StoredAll is_utf8 t.schema.columns rows.columns
      → t.active.row_count + rows.row_count < 2 ^ 64
      → length rows.columns < 2 ^ 64
      → length h.rs + 1 < 2 ^ 64
      → ((payload : List ℕ) → encode_batch rows ≡ ok payload → length payload < 2 ^ 32)
      → (t' : Table) × (append complete t rows ≡ (ok rows.row_count, t'))
        × Durable t' (bs ++ (rows ∷ []))
        × (recover_batches is_utf8 t' ≡ some (ok (bs ++ (rows ∷ []))))
        × WellFormed t'.schema t'.active
        × (view t'.active.columns ≡ join (view t.active.columns) (view rows.columns))
  unfolding append
  append-Durable t bs rows valid fits h fits' stored counted narrow room small =
      let (payload, encoded, decoded) =
        decode_batch-encode_batch is_utf8 t.schema rows stored (omega (arith, counted)) narrow in
      let size : length payload < 2 ^ 32 = small payload encoded in
      let (writer, logged, logs) = append-Logs t.wal h.rs payload h.logs size room in
      let (active, added, whole, sum, cells_of) =
        append-WellFormed t.schema t.active rows fits fits' counted in
      let after : Table = record t { active = active; wal = writer } in
      let durable : Durable after (bs ++ (rows ∷ [])) = record {
        rs = h.rs ++ (new_record t.wal payload ∷ []);
        logs = logs;
        decoded =
            Decoded-snoc t.schema h.rs bs (new_record t.wal payload) rows h.decoded
              (decoded (omega (arith, size)));
        applied = omega (arith, h.applied, length-append bs (rows ∷ []));
        replayed =
            ap (replay (empty t.schema))
              (drop-snoc t.manifest.wal_records_applied bs rows h.applied)
            ∙ replay-snoc (empty t.schema) (drop t.manifest.wal_records_applied bs) t.active active
                rows h.replayed added;
      } in
      (
        after,
        ground (arith, validate-WellFormed t.schema rows valid fits', encoded, logged, added),
        durable,
        recover_batches-Durable after (bs ++ (rows ∷ [])) durable,
        whole,
        cells_of,
      )
