-- ===== src/Db.antt =====
-- bypass-db: the embedded column store.
pub mod Schema
pub mod Batch
pub mod Wal
pub mod Error
pub mod Payload
pub mod Int64
pub mod Mapped
pub mod Segment
pub mod Float
pub mod Rows
pub mod Simd
pub mod Scan
pub mod Predicate
pub mod ScanResult
pub mod Table
