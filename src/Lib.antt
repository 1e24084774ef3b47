-- ===== src/Lib.antt =====
-- A verification library for the column store of bypass-db, and for the rings, the SPDK requests and
-- the packet parser of bypass-io.
--
-- The parts and how they interact. bypass-db keeps a table as an active batch in memory, a
-- write-ahead log and sealed segments. A batch (batch.rs) is checked against a schema (schema.rs),
-- encoded as a payload (table.rs) and logged as a record (wal.rs). A flush writes the columns of the
-- active batch as the files of a segment (segment.rs). A scan maps those files, selects rows of them,
-- collects the selections and the rows in memory as chunks, and filters the chunks by a predicate
-- (scan.rs). bypass-io hands work between threads over rings, of one producer
-- (ring/spsc.rs) or of many (ring/mpsc.rs) and one consumer, and hands requests to devices over
-- backends: SPDK for NVMe namespaces (backend/spdk.rs) and DPDK for packets (backend/dpdk.rs).
--
-- Which file models what, with the paths from the repository's root:
--   Prelude            shared notation: Boolean tests, lists over native numbers, `Result` and its
--                      bind, machine words and their little-endian bytes, masks
--   Ring.Spsc          bypass-io/src/ring/spsc.rs: `new`, `push`, `pop`, `len`, `is_empty`,
--                      `capacity`, `drop`, over a buffer of slots and two wrapping counters;
--                      Ring.Queue is the queue that the ring refines
--   Ring.Mpsc          bypass-io/src/ring/mpsc.rs: `push` and `pop` as step relations of any number of
--                      producers and one consumer, one access of shared memory a step; `new`,
--                      `len`, `is_empty`, `capacity`, `drop`
--   Backend.Buffers    the targets of bypass-io/src/backend/mod.rs, and the fields of a buffer of
--                      bypass-io/src/buf/hugepage.rs that a backend reads
--   Backend.Spdk       bypass-io/src/backend/spdk.rs: `NvmeNamespace`, `lba_range`,
--                      `SpdkBufferSegment`, `prepare_io` and the requests of `IoBackend`, up to the
--                      calls of the runtime, which is a record of functions
--   Backend.Dpdk       bypass-io/src/backend/dpdk.rs: `DpdkPortConfig`, `DpdkConfig`,
--                      `MulticastGroup`, the checks of queues and targets, the bursts and the
--                      requests of `IoBackend`, up to the calls of the runtime
--   Backend.Packet     bypass-io/src/backend/dpdk.rs: the headers that `Packet` reads
--   Db.Schema          bypass-db/src/schema.rs: `ColumnDef::new`, `Schema::new` and its loop, the
--                      lookups
--   Db.Batch           bypass-db/src/batch.rs: `ColumnData`, `RowBatch` and `RowBatchBuilder`
--   Db.Wal             bypass-db/src/wal.rs: `checksum32`, `WalRecord::encode`,
--                      `WalRecord::decode_from`, `WalReader::records`, `WalWriter`; the log is the
--                      bytes of its file
--   Db.Payload         bypass-db/src/table.rs: `encode_batch`, `decode_batch`, `PayloadReader`
--   Db.Table           bypass-db/src/table.rs: `Table::open`, `append`, `flush`, `recover_records`,
--                      `recover_batches`, `recover_batches_after`, `validate_batch_matches_schema`,
--                      `filter_time_batch`
--   Db.Table.Scan      `Table::scan_time_range` and `scan_where`
--   Db.Segment         bypass-db/src/segment.rs: `seal_batch`, `read_batch`, `map_column`,
--                      `overlaps_time_range` and what they call; a directory is a list of files
--   Db.Mapped          `MappedColumn` of segment.rs; a mapping is the bytes of the file
--   Db.Rows            `RowSelection` of bypass-db/src/scan.rs and its iterator
--   Db.Simd            the module `simd` of scan.rs: every filter, plain and vectorised
--   Db.Scan            the chunks, `ScanColumn`, and `take_*_chunks` with their grouping
--   Db.ScanResult      `ScanResult`
--   Db.Predicate       `ColumnPredicate` with its implementations, and `filter_scan_indices`
--   Db.Int64, Db.Float the order of `i64`, and the comparisons and conversion of `f64`, on bits
--   Db.Error           the errors of table.rs and scan.rs
--
-- Numbers. A `usize` has 64 bits; sums and products that the code checks are checked, and those that
-- wrap are taken modulo 2 ^ 64. An `f64` is its 64 bits, compared as IEEE 754 says, and an `i64` its
-- two's complement bits. Indexing that would panic gives `none`.
--
-- Loops and fuel. `records_loop` has one round more than the file has bytes, as each record takes
-- some; `rows_from` has one more than the selection has rows; the mask of a vector comparison has four
-- bits, and `push_mask_indices` five rounds.
--
-- Outside. UTF-8 validity is the parameter `is_utf8` of the payload's decoder; whether a write, a
-- sync or a truncation succeeds is an argument, as is whether the processor has vector instructions.
-- The texts of errors, the JSON files of the manifest and the metadata, memory mapping itself and the
-- orderings of atomic accesses are left out: accesses of shared memory take effect in one order. The
-- runtimes of the SPDK and the DPDK backend are parameters, as is which IPv4 addresses are multicast.
-- Not modelled: `compact` of `Table`, the native runtimes, io_uring, buffer pools and allocation,
-- reactors, configuration files, the build script, the foreign interfaces and the command line.
pub mod Prelude
pub mod Ring
pub mod Db
pub mod Backend
