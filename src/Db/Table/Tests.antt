-- ===== src/Db/Table/Tests.antt =====
-- The theorems on tables at a fresh table.
use bypass_io.Prelude.{
  ℕ, ◌+◌, ◌<◌, ◌^◌, ◌≡◌, ◌≢◌, refl, ap, subst, Bool, true, false, err, List, [], ◌∷◌, ◌++◌, some,
  ok, arith, bytes_eq, length, Result,
}
use bypass_io.Prelude.Predicates.{All}
use bypass_io.Db.Schema.{timestamp, f64, ColumnDef, Schema, new}
use bypass_io.Db.Schema.Validity.{IsValid, new-IsValid}
use bypass_io.Db.Batch.{f64_data, timestamp_data, RowBatch, empty}
use bypass_io.Db.Batch.Cells.{view, join, cells}
use bypass_io.Db.Batch.WellFormed.{WellFormed, empty-WellFormed}
use bypass_io.Db.Payload.RoundTrip.{StoredAll, decode_batch-encode_batch}
use bypass_io.Db.Segment.{new_manifest, column_file_name}
use bypass_io.Db.Segment.{ImmutableSegment, seal_batch}
use bypass_io.Db.Segment.RoundTrip.{sealing}
use bypass_io.Db.Segment.Mapping.{Sealing}
use bypass_io.Db.Segment.Files.{Sealable}
use bypass_io.Db.Error
use bypass_io.Db.Payload.{encode_batch, decode_batch}
use bypass_io.Db.Wal.{complete, WalRecord}
use bypass_io.Db.Wal.Log.{log_bytes}
use bypass_io.Db.Table.{Table, append, flush, replay, recover_batches, open_table}
use bypass_io.Db.Table.Contents.{Holds, gathered}
use bypass_io.Db.Table.Scan.{scan_time_range}
use bypass_io.Db.Table.Scan.Whole.{AllFiltered, scan_time_range-Holds}
use bypass_io.Db.Scan.{ScanResult}
use bypass_io.Db.ScanResult.Cells.{scan_view}
use bypass_io.Db.Table.Flushing.{
  flushed, flushed-Holds, append-Holds, flush-Holds, flush_again, SealedTwice,
}
use bypass_io.Db.Table.Durable.{Durable, open_table-Durable}

abbrev is_short : List ℕ → Bool
is_short bs = true

abbrev ts : ColumnDef
ts = record { name = b't' ∷ []; dtype = timestamp }

abbrev price : ColumnDef
price = record { name = b'p' ∷ []; dtype = f64 }

abbrev ticks : Schema
ticks = record { name = b'x' ∷ []; columns = price ∷ ts ∷ []; timestamp_column = 1 }

abbrev fresh : Table
fresh = record {
  schema = ticks;
  active = empty ticks;
  sealed = [];
  manifest = new_manifest;
  wal = record { file = []; next_seq_no = 0 };
}

abbrev one_row : RowBatch
one_row = record {
  columns = (b'p' ∷ [], f64_data (5 ∷ [])) ∷ (b't' ∷ [], timestamp_data (10 ∷ [])) ∷ [];
  row_count = 1;
}

ticks-IsValid : IsValid ticks
unfolding new bytes_eq
ticks-IsValid = (new-IsValid (b'x' ∷ []) (price ∷ ts ∷ []) ticks refl).2

fresh-Durable : Durable is_short fresh []
unfolding bypass_io.Db.Wal.Log.log_bytes new_manifest bypass_io.Db.Table.replay
fresh-Durable = record {
  rs = [];
  logs = record { written = refl; fit = tt; numbered = tt; next = refl };
  decoded = tt;
  applied = omega arith;
  replayed = refl;
}

one_row-WellFormed : WellFormed ticks one_row
unfolding bypass_io.Db.Batch.matches_dtype bypass_io.Db.Batch.data_row_count
one_row-WellFormed = (
  record { named = refl; typed = refl; counted = refl; wide = tt },
  (record { named = refl; typed = refl; counted = refl; wide = tt }, tt),
)

one_row-StoredAll : StoredAll is_short ticks.columns one_row.columns
unfolding bypass_io.Db.Batch.matches_dtype
one_row-StoredAll = (
  record {
    named = refl;
    text = refl;
    short = omega arith;
    typed = refl;
    storable = (omega arith, (omega arith, tt));
  },
  (
    record {
      named = refl;
      text = refl;
      short = omega arith;
      typed = refl;
      storable = (omega arith, (omega arith, tt));
    },
    tt,
  ),
)

open_table-Durable_example : open_table is_short ticks new_manifest [] [] ≡ some (ok fresh)
open_table-Durable_example = open_table-Durable is_short fresh [] fresh-Durable

abbrev one_payload : List ℕ
one_payload =
    1 ∷ 0 ∷ 0 ∷ 0 ∷ 0 ∷ 0 ∷ 0 ∷ 0 ∷ 2 ∷ 0 ∷ 0 ∷ 0 ∷ 0 ∷ 0 ∷ 0 ∷ 0 ∷ 1 ∷ 0 ∷ 0 ∷ 0 ∷ b'p' ∷ 0 ∷ 1 ∷ 0
    ∷ 0 ∷ 0 ∷ 0 ∷ 0 ∷ 0 ∷ 0 ∷ 5 ∷ 0 ∷ 0 ∷ 0 ∷ 0 ∷ 0 ∷ 0 ∷ 0 ∷ 1 ∷ 0 ∷ 0 ∷ 0 ∷ b't' ∷ 2 ∷ 1 ∷ 0 ∷ 0
    ∷ 0 ∷ 0 ∷ 0 ∷ 0 ∷ 0 ∷ 10 ∷ 0 ∷ 0 ∷ 0 ∷ 0 ∷ 0 ∷ 0 ∷ 0 ∷ []

one_encoded : encode_batch one_row ≡ ok one_payload
unfolding bypass_io.Db.Payload.encode_batch bypass_io.Db.Payload.encode_columns
    bypass_io.Db.Payload.encode_data bypass_io.Db.Payload.write_bytes
    bypass_io.Db.Payload.write_words bypass_io.Db.Payload.write_usize bypass_io.Prelude.to_le_bytes
one_encoded = refl

one_decoded : decode_batch is_short ticks one_payload ≡ ok one_row
one_decoded =
    let (bs, encoded, decoded) =
      decode_batch-encode_batch is_short ticks one_row one_row-StoredAll (omega arith)
        (omega arith) in
    let same : bs ≡ one_payload = cc (encoded, one_encoded) in
    subst (λ b. decode_batch is_short ticks b ≡ ok one_row) same
      (decoded (omega (arith, ap length same)))

abbrev one_record : WalRecord
one_record = record { seq_no = 0; payload = one_payload }

-- The table after one append, and a flush of it would seal its row.
abbrev one : Table
one = record {
  schema = ticks;
  active = one_row;
  sealed = [];
  manifest = new_manifest;
  wal = record { file = log_bytes (one_record ∷ []); next_seq_no = 1 };
}

fresh-Holds : Holds is_short fresh []
unfolding new_manifest view join empty
fresh-Holds = record {
  durable = fresh-Durable;
  fits = empty-WellFormed ticks;
  listed = refl;
  parts = [];
  kept = tt;
  contents = refl;
}

one-Holds : Holds is_short one (one_row ∷ [])
unfolding new_manifest replay bypass_io.Db.Batch.append empty bypass_io.Db.Batch.append_columns
    bytes_eq bypass_io.Db.Batch.append_data view join cells
one-Holds = record {
  durable = record {
    rs = one_record ∷ [];
    logs = record {
      written = refl;
      fit = (record { seq_word = omega arith; len_word = omega arith }, tt);
      numbered = (refl, tt);
      next = refl;
    };
    decoded = (one_decoded, tt);
    applied = omega arith;
    replayed = refl;
  };
  fits = one_row-WellFormed;
  listed = refl;
  parts = [];
  kept = tt;
  contents = refl;
}

one_row-Sealable : All (λ x. Sealable x.1) one_row.columns
one_row-Sealable = (((omega arith, tt), omega arith), (((omega arith, tt), omega arith), tt))

append-Holds_example :
    (t : Table) × (append complete fresh one_row ≡ (ok 1, t))
    × Holds is_short t (one_row ∷ [])
    × (recover_batches is_short t ≡ some (ok (one_row ∷ [])))
unfolding empty fresh-Holds fresh-Durable
append-Holds_example =
    append-Holds is_short fresh [] one_row ticks-IsValid fresh-Holds one_row-WellFormed
      one_row-StoredAll (omega arith) (omega arith) (omega arith)
      (λ payload e. omega (arith, ap length (is_one payload e)))
  where
    is_one : (payload : List ℕ) → encode_batch one_row ≡ ok payload → payload ≡ one_payload
    is_one payload e = cc (e, one_encoded)

flush-Holds_example :
    (t : Table) × (flush true [] true one ≡ some (ok tt, t))
    × Holds is_short t (one_row ∷ [])
    × (t.active.row_count ≡ 0)
    × (open_table is_short t.schema t.manifest t.sealed t.wal.file ≡ some (ok t))
unfolding new_manifest column_file_name
flush-Holds_example =
    flush-Holds is_short one (one_row ∷ []) [] ticks-IsValid one-Holds (refl, (refl, tt))
      one_row-Sealable (omega arith)

flush_again_example :
    (t : Table) × (u : Table) × (flush true [] false one ≡ some (err Error.io, t))
    × (t.active ≡ one_row)
    × (t.manifest.sealed_segments ≢ [])
    × (flush true [] true t ≡ some (ok tt, u))
    × SealedTwice [] one u
unfolding new_manifest column_file_name
flush_again_example =
    flush_again is_short one (one_row ∷ []) [] [] ticks-IsValid one-Holds (refl, (refl, tt))
      one_row-Sealable (omega arith) (omega arith)

-- The row of `one`, sealed.
one_sealed :
    (g : ImmutableSegment) × (seal_batch ticks 1 one_row [] ≡ ok g) × Sealing ticks one_row g
unfolding column_file_name
one_sealed =
    sealing ticks 1 one_row [] ticks-IsValid one_row-WellFormed (refl, (refl, tt)) one_row-Sealable

abbrev two : Table
two = flushed one one_sealed.0 1

two-Holds : Holds is_short two (one_row ∷ [])
unfolding view join cells empty one-Holds
two-Holds =
    let base =
      flushed-Holds is_short one (one_row ∷ []) one_sealed.0 one-Holds (omega arith) one_sealed.2 in
    record {
      durable = base.durable;
      fits = base.fits;
      listed = base.listed;
      parts = one_row ∷ [];
      kept = (omega arith, one_sealed.2, tt);
      contents = refl;
    }

scan_time_range-Holds_example :
    (out : ScanResult) × (fs : List RowBatch) × (scan_time_range true two 10 11 ≡ some (ok out))
    × AllFiltered ticks 10 11 (one_row ∷ empty ticks ∷ []) fs
    × (scan_view out.columns ≡ gathered ticks fs)
    × (gathered ticks (one_row ∷ empty ticks ∷ []) ≡ gathered ticks (one_row ∷ []))
unfolding two-Holds empty
scan_time_range-Holds_example =
    scan_time_range-Holds true is_short two (one_row ∷ []) 10 11 ticks-IsValid two-Holds
      (omega arith) (omega arith)
