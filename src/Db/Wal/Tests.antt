-- ===== src/Db/Wal/Tests.antt =====
-- Tests of wal.rs, and the theorems about it at concrete logs.
use bypass_io.Prelude.{
  ◌≡◌, ◌<◌, ◌≤◌, ◌⊎◌, refl, List, [], ◌∷◌, ◌++◌, some, Result, ok, err, arith, take, bytes_eq,
  to_le_bytes, from_le_bytes,
}
use bypass_io.Db.Wal.{
  WalRecord, WalError, io, checksum_mismatch, payload_too_large, wal_magic, checksum32, decode_from,
  records, encode, WalWriter, append, complete, failed, open_writer, reset,
}
use bypass_io.Db.Wal.Codec.{record_bytes, header_bytes, decode_from-record_bytes}
use bypass_io.Db.Wal.Log.{log_bytes, records_total}
use bypass_io.Db.Wal.Recovery.{records_torn_header, records_torn_record, records_lost_after_cut}
use bypass_io.Db.Wal.Writer.{Logs, append-Logs, new_record}
use bypass_io.Db.Wal.Restart.{open_writer_failed}

abbrev one : WalRecord
one = record { seq_no = 0; payload = b'o' ∷ b'n' ∷ b'e' ∷ [] }

abbrev two : WalRecord
two = record { seq_no = 1; payload = b't' ∷ b'w' ∷ b'o' ∷ [] }

abbrev writer : WalWriter
writer = record { file = log_bytes (one ∷ []); next_seq_no = 1 }

writer-Logs : Logs writer (one ∷ [])
writer-Logs = record { written = refl; fit = omega arith; numbered = (refl, tt); next = refl }

-- The check value of the reflected polynomial 0xedb88320.
crc_check :
    checksum32 (b'1' ∷ b'2' ∷ b'3' ∷ b'4' ∷ b'5' ∷ b'6' ∷ b'7' ∷ b'8' ∷ b'9' ∷ []) ≡ 0xcbf4_3926
unfolding checksum32
crc_check = refl

-- `record_round_trips_through_file`
round_trips : records (log_bytes (one ∷ two ∷ [])) ≡ some (ok (one ∷ two ∷ []))
unfolding records bypass_io.Db.Wal.records_loop decode_from bypass_io.Db.Wal.decode_body
    bypass_io.Db.Wal.read_exact log_bytes record_bytes header_bytes
    bypass_io.Db.Wal.Codec.trailer_bytes checksum32 bytes_eq to_le_bytes from_le_bytes
round_trips = refl

records_total_example :
    (res : Result WalError (List WalRecord)) × (records (b'B' ∷ b'Y' ∷ []) ≡ some res)
records_total_example = records_total (b'B' ∷ b'Y' ∷ [])

records_torn_header_example :
    records (log_bytes (one ∷ two ∷ []) ++ (b'B' ∷ b'Y' ∷ b'P' ∷ b'W' ∷ 2 ∷ []))
    ≡ some (ok (one ∷ two ∷ []))
records_torn_header_example =
    records_torn_header (one ∷ two ∷ []) (b'B' ∷ b'Y' ∷ b'P' ∷ b'W' ∷ 2 ∷ []) (omega arith)
      (omega arith)

records_torn_record_example :
    records (log_bytes (one ∷ []) ++ (header_bytes two ++ (b't' ∷ b'w' ∷ []))) ≡ some (err io)
records_torn_record_example =
    records_torn_record (one ∷ []) two (b't' ∷ b'w' ∷ []) (omega arith) (omega arith) (omega arith)

records_lost_after_cut_example :
    records (log_bytes (one ∷ []) ++ (take 2 wal_magic ++ (record_bytes two ++ [])))
    ≡ some (ok (one ∷ []))
records_lost_after_cut_example =
    records_lost_after_cut (one ∷ []) 2 two [] (omega arith) (omega arith) (omega arith)

append-Logs_example :
    (w : WalWriter) × (append complete writer (b't' ∷ []) ≡ (ok 1, w))
    × Logs w (one ∷ new_record writer (b't' ∷ []) ∷ [])
append-Logs_example =
    append-Logs writer (one ∷ []) (b't' ∷ []) writer-Logs (omega arith) (omega arith)

open_writer_failed_example :
    (w : WalWriter) × (append (failed 18) writer (b't' ∷ []) ≡ (err io, w))
    × (w.next_seq_no ≡ 2)
    × (((18 < 16)
          × (records w.file ≡ some (ok (one ∷ [])))
          × (open_writer w.file ≡ some (ok (record w { next_seq_no = 1 }))))
        ⊎ ((16 ≤ 18) × (18 < 21) × (open_writer w.file ≡ some (err io)))
        ⊎ ((21 ≤ 18)
            × (records w.file ≡ some (ok (one ∷ new_record writer (b't' ∷ []) ∷ [])))
            × (open_writer w.file ≡ some (ok w))))
open_writer_failed_example =
    open_writer_failed 18 writer (one ∷ []) (b't' ∷ []) writer-Logs (omega arith) (omega arith)
