-- ===== src/Db/Error.antt =====
-- The errors of bypass-db/src/table.rs and bypass-db/src/scan.rs. A message that is formatted from
-- a path or from the system's text is left out; the fixed messages of `PayloadDecode` are constants.
use bypass_io.Prelude.{ℕ}
use bypass_io.Db.Schema.{Name}
use bypass_io.Db.Batch.{BatchError}
use bypass_io.Db.Wal.{WalError}

pub data ScanError : Type 0 where
  unknown_column : (column : Name) → ScanError
  column_order_mismatch : ScanError
  column_type_mismatch : ScanError
  row_count_overflow : ScanError
  invalid_column_bytes : (len width : ℕ) → ScanError

pub data DecodeFault : Type 0 where
  unexpected_end : DecodeFault
  offset_overflow : DecodeFault
  column_count : DecodeFault
  not_utf8 : DecodeFault
  column_order : DecodeFault
  unknown_tag : DecodeFault
  column_type : DecodeFault
  trailing_bytes : DecodeFault

pub data TableError : Type 0 where
  io : TableError
  batch : BatchError → TableError
  wal : WalError → TableError
  scan : ScanError → TableError
  missing_column : (column : Name) → TableError
  payload_too_large : (len : ℕ) → TableError
  payload_decode : DecodeFault → TableError
  segment : TableError
  manifest : TableError
