-- ===== src/Db/Table.antt =====
-- `Table` of bypass-db/src/table.rs: the active batch, the sealed segments, the manifest and the log.
-- What the system does with a write, a sync or the manifest's file is an argument. The outer `none` of
-- a result is the log reader out of fuel, which never happens, or a panic.
pub mod Durable
pub mod Contents
pub mod Flushing
pub mod Scan
mod Tests
use bypass_io.Prelude.{
  ℕ, ◌+◌, ◌==◌, Bool, true, false, not, ◌&&◌, List, [], ◌∷◌, ◌++◌, Option, none, some, Result, ok,
  err, ◌>>=◌, ◌>>◌, guard, ok_or, map_err, length, drop, if◌then◌else◌, checked_add,
}
use bypass_io.Db.Schema.{Name, ColumnDef, Schema, timestamp_column}
use bypass_io.Db.Batch.{
  RowBatch, column, matches_dtype, empty, take_indices, timestamp_values, schema_mismatch,
  column_type_mismatch,
}
use bypass_io.Db.Batch
use bypass_io.Db.Error
use bypass_io.Db.Error.{TableError, missing_column}
use bypass_io.Db.Int64.{i64_lt, i64_le}
use bypass_io.Db.Payload.{encode_batch, decode_batch}
use bypass_io.Db.Segment.{Files, Manifest, ImmutableSegment, seal_batch, to_ref}
use bypass_io.Db.Simd.{positions}
use bypass_io.Db.Wal
use bypass_io.Db.Wal.{WalRecord, WalWriter, Written, records, sync, open_writer}

pub record Table : Type 0 where
  pub schema : Schema
  pub active : RowBatch
  pub sealed : List ImmutableSegment
  pub manifest : Manifest
  pub wal : WalWriter

-- The loop of `validate_batch_matches_schema`.
unfoldable pub validate_columns : RowBatch → List ColumnDef → Result TableError (Unit {0})
validate_columns rows [] = ok tt
validate_columns rows (c ∷ cs) = do
  data_of ← ok_or (column rows c.name) (missing_column c.name)
  guard (matches_dtype data_of c.dtype) (Error.batch (column_type_mismatch c.name c.dtype))
  validate_columns rows cs

unfoldable pub validate_batch_matches_schema : Schema → RowBatch → Result TableError (Unit {0})
validate_batch_matches_schema schema rows = do
  guard (length schema.columns == length rows.columns) (Error.batch schema_mismatch)
  validate_columns rows schema.columns

-- `Table::append`, with the table that it leaves.
unfoldable pub append : Written → Table → RowBatch → Result TableError ℕ × Table
append os t rows = elim (validate_batch_matches_schema t.schema rows >> encode_batch rows) [
  | err e ↦ (err e, t)
  | ok payload ↦
      let (logged, writer) = Wal.append os t.wal payload in
      elim logged [
        | err e ↦ (err (Error.wal e), record t { wal = writer })
        | ok seq_no ↦
            let (added, rest) = Batch.append t.active rows in
            (
              map_err Error.batch added >> ok rows.row_count,
              record t { active = rest; wal = writer },
            )
      ]
]

-- The loop of `Table::open`.
unfoldable pub replay : RowBatch → List RowBatch → Result TableError RowBatch
replay active [] = ok active
replay active (b ∷ bs) =
    let (added, rest) = Batch.append active b in
    elim added [ err e ↦ err (Error.batch e) | ok u ↦ replay rest bs ]

module _ (is_utf8 : List ℕ → Bool) where
  unfoldable pub decode_all : Schema → List WalRecord → Result TableError (List RowBatch)
  decode_all schema [] = ok []
  decode_all schema (r ∷ rs) = do
    b ← decode_batch is_utf8 schema r.payload
    rest ← decode_all schema rs
    ok (b ∷ rest)

  -- `recover_batches_after`, of the log with these bytes.
  unfoldable pub recover_batches_after :
      Schema → List ℕ → ℕ → Option (Result TableError (List RowBatch))
  recover_batches_after schema bs applied_records = elim (records bs) [
    | none ↦ none
    | some (err e) ↦ some (err (Error.wal e))
    | some (ok rs) ↦ some (decode_all schema (drop applied_records rs))
  ]

  -- `Table::recover_batches`
  unfoldable pub recover_batches : Table → Option (Result TableError (List RowBatch))
  recover_batches t = recover_batches_after t.schema t.wal.file 0

  -- `Table::open`, of a manifest and segments that were loaded, and the bytes of the log.
  unfoldable pub open_table :
      Schema → Manifest → List ImmutableSegment → List ℕ → Option (Result TableError Table)
  open_table schema m segments bs = elim (open_writer bs) [
    | none ↦ none
    | some (err e) ↦ some (err (Error.wal e))
    | some (ok writer) ↦ elim (recover_batches_after schema bs m.wal_records_applied) [
      | none ↦ none
      | some (err e) ↦ some (err e)
      | some (ok bs') ↦ elim (replay (empty schema) bs') [
        | err e ↦ some (err e)
        | ok rows ↦ some (
            ok (record {
              schema = schema;
              active = rows;
              sealed = segments;
              manifest = m;
              wal = writer;
            }))
      ]
    ]
  ]

-- `Table::flush`, with the table that it leaves: whether the log is synced, the files that the new
-- segment's directory has, and whether the manifest is stored. The manifest is changed in memory
-- before it is stored.
unfoldable pub flush : Bool → Files → Bool → Table → Option (Result TableError (Unit {0}) × Table)
flush synced files stored t = elim (sync synced) [
  | err e ↦ some (err (Error.wal e), t)
  | ok u ↦
      if t.active.row_count == 0
      then some (ok tt, t)
      else elim (seal_batch t.schema t.manifest.next_segment_id t.active files) [
        | err e ↦ some (err e, t)
        | ok g ↦ elim (checked_add t.manifest.next_segment_id 1) [
          | none ↦ some (err Error.manifest, t)
          | some next ↦
              let m : Manifest = record t.manifest {
                next_segment_id = next;
                sealed_segments = t.manifest.sealed_segments ++ (to_ref g.meta ∷ []);
              } in
              elim (records t.wal.file) [
                | none ↦ none
                | some (err e) ↦ some (err (Error.wal e), record t { manifest = m })
                | some (ok rs) ↦
                    let m' : Manifest = record m { wal_records_applied = length rs } in
                    if stored
                    then some (
                      ok tt,
                      record t {
                        active = empty t.schema;
                        sealed = t.sealed ++ (g ∷ []);
                        manifest = m';
                      },
                    )
                    else some (err Error.io, record t { manifest = m' })
              ]
        ]
      ]
]

abbrev pub payloads : List WalRecord → List (List ℕ)
payloads [] = []
payloads (r ∷ rs) = r.payload ∷ payloads rs

-- `Table::recover_records`
unfoldable pub recover_records : Table → Option (Result TableError (List (List ℕ)))
recover_records t = elim (records t.wal.file) [
  | none ↦ none
  | some (err e) ↦ some (err (Error.wal e))
  | some (ok rs) ↦ some (ok (payloads rs))
]

-- `filter_time_batch`; `none` is an index out of bounds.
unfoldable pub filter_time_batch : Schema → RowBatch → ℕ → ℕ → Option (Result TableError RowBatch)
filter_time_batch schema b start end = elim (timestamp_column schema) [
  | none ↦ none
  | some stamp ↦ elim (column b stamp.name) [
    | none ↦ some (err (missing_column stamp.name))
    | some d ↦ elim (timestamp_values d) [
      | none ↦ some (err (missing_column stamp.name))
      | some ts ↦ elim (take_indices b (positions (λ v. i64_le start v && i64_lt v end) 0 ts)) [
        | none ↦ none
        | some rows ↦ some (ok rows)
      ]
    ]
  ]
]
