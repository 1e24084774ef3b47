-- ===== src/Backend/Spdk.antt =====
-- The SPDK backend of bypass-io/src/backend/spdk.rs, up to the calls of its runtime, which is a
-- record of functions as the trait is. Texts of errors are left out.
pub mod Ranges
pub mod Preparing
pub mod Vectors
pub mod Requests
mod Tests
use bypass_io.Prelude.{
  ℕ, ◌+◌, ◌*◌, ◌/◌, ◌%◌, ◌==◌, Bool, true, false, not, ◌||◌, List, [], ◌∷◌, Option, none, some,
  Result, ok, err, ◌>>=◌, ◌>>◌, guard, ok_or, ltb, leb, if◌then◌else◌, checked_add, usize_mod,
}
use bypass_io.Backend.Buffers.{
  DeviceTarget, fd, nvme_ns, net_port, HugeBufBacking, spdk_dma, huge_page, locked_fallback,
  pageable_fallback, HugeBuf,
}

pub data SpdkError : Type 0 where
  runtime_unavailable : SpdkError
  invalid_target : SpdkError
  invalid_namespace : SpdkError
  namespace_not_found : (nsid : ℕ) → SpdkError
  no_queue_pairs_configured : SpdkError
  zero_length_io : SpdkError
  unaligned_io : (offset len sector_size : ℕ) → SpdkError
  io_too_large : (len max : ℕ) → SpdkError
  io_out_of_range : (lba lba_count capacity : ℕ) → SpdkError
  dma_buffer_unavailable : SpdkError
  length_overflow : SpdkError
  submit_failed : SpdkError
  completion_timeout : SpdkError
  completion_failed : (status : ℕ) → SpdkError

pub record NvmeNamespace : Type 0 where
  pub nsid : ℕ
  pub sector_size : ℕ
  pub capacity_sectors : ℕ
  pub max_io_size : ℕ

-- `NvmeNamespace::new`
unfoldable pub new : ℕ → ℕ → ℕ → ℕ → Result SpdkError NvmeNamespace
new nsid sector_size capacity_sectors max_io_size = do
  guard (not (nsid == 0)) invalid_namespace
  guard (not (sector_size == 0)) invalid_namespace
  guard (not (capacity_sectors == 0)) invalid_namespace
  guard (not (max_io_size == 0)) invalid_namespace
  ok (record {
    nsid = nsid;
    sector_size = sector_size;
    capacity_sectors = capacity_sectors;
    max_io_size = max_io_size;
  })

pub record NvmeLbaRange : Type 0 where
  pub lba : ℕ
  pub lba_count : ℕ

pub record IoQueuePair : Type 0 where
  pub id : ℕ

-- `NvmeNamespace::lba_range`; the divisions are not by 0, since `new` refuses a sector size of 0.
unfoldable pub lba_range : NvmeNamespace → ℕ → ℕ → Result SpdkError NvmeLbaRange
lba_range ns offset len = do
  guard (not (len == 0)) zero_length_io
  guard (leb len ns.max_io_size) (io_too_large len ns.max_io_size)
  guard (offset % ns.sector_size == 0) (unaligned_io offset len ns.sector_size)
  guard (len % ns.sector_size == 0) (unaligned_io offset len ns.sector_size)
  let lba = offset / ns.sector_size
  let lba_count = len / ns.sector_size
  end ← ok_or (checked_add lba lba_count) (io_out_of_range lba lba_count ns.capacity_sectors)
  guard (leb end ns.capacity_sectors) (io_out_of_range lba lba_count ns.capacity_sectors)
  ok (record { lba = lba; lba_count = lba_count })

pub record SpdkBufferSegment : Type 0 where
  pub addr : ℕ
  pub len : ℕ
  pub backing : HugeBufBacking

abbrev pub is_pageable : HugeBufBacking → Bool
is_pageable pageable_fallback = true
is_pageable _ = false

abbrev is_none : {A : Type 0} → Option A → Bool
is_none none = true
is_none (some a) = false

-- `SpdkBufferSegment::from_pooled`
unfoldable pub from_pooled : HugeBuf → Result SpdkError SpdkBufferSegment
from_pooled buf = do
  guard (not (is_pageable buf.backing)) dma_buffer_unavailable
  guard buf.locked dma_buffer_unavailable
  guard (not (is_none buf.phys)) dma_buffer_unavailable
  ok (record { addr = buf.virt; len = buf.len; backing = buf.backing })

-- `spdk_segments`
unfoldable pub spdk_segments : List HugeBuf → Result SpdkError (List SpdkBufferSegment)
unfolding from_pooled
spdk_segments [] = ok []
spdk_segments (b ∷ bs) = do s ← from_pooled b; rest ← spdk_segments bs; ok (s ∷ rest)

-- `total_pooled_len`, from a running total on.
unfoldable pub total_from : ℕ → List HugeBuf → Result SpdkError ℕ
total_from total [] = ok total
total_from total (b ∷ bs) = do
  next ← ok_or (checked_add total b.len) length_overflow
  total_from next bs

unfoldable pub total_pooled_len : List HugeBuf → Result SpdkError ℕ
total_pooled_len bufs = total_from 0 bufs

-- `trait SpdkRuntime`
pub record SpdkRuntime : Type 0 where
  pub read_at : NvmeNamespace → IoQueuePair → SpdkBufferSegment → NvmeLbaRange → Result SpdkError ℕ
  pub write_at : NvmeNamespace → IoQueuePair → SpdkBufferSegment → NvmeLbaRange → Result SpdkError ℕ
  pub readv_at :
      NvmeNamespace → IoQueuePair → List SpdkBufferSegment → NvmeLbaRange → Result SpdkError ℕ
  pub writev_at :
      NvmeNamespace → IoQueuePair → List SpdkBufferSegment → NvmeLbaRange → Result SpdkError ℕ
  pub flush_at : NvmeNamespace → IoQueuePair → Result SpdkError (Unit {0})
  pub process_completions : IoQueuePair → ℕ → ℕ

-- `UnavailableSpdkRuntime`
abbrev pub unavailable_runtime : SpdkRuntime
unavailable_runtime = record {
  read_at = λ ns qpair segment range. err runtime_unavailable;
  write_at = λ ns qpair segment range. err runtime_unavailable;
  readv_at = λ ns qpair segments range. err runtime_unavailable;
  writev_at = λ ns qpair segments range. err runtime_unavailable;
  flush_at = λ ns qpair. err runtime_unavailable;
  process_completions = λ qpair max_completions. 0;
}

pub record SpdkBackend : Type 0 where
  pub namespaces : List NvmeNamespace
  pub qpairs : List IoQueuePair

unfoldable pub find_namespace : List NvmeNamespace → ℕ → Option NvmeNamespace
find_namespace [] nsid = none
find_namespace (ns ∷ nss) nsid = if ns.nsid == nsid then some ns else find_namespace nss nsid

-- `SpdkBackend::namespace`
unfoldable pub namespace : SpdkBackend → ℕ → Result SpdkError NvmeNamespace
unfolding find_namespace
namespace b nsid = ok_or (find_namespace b.namespaces nsid) (namespace_not_found nsid)

abbrev pub first_qpair : List IoQueuePair → Option IoQueuePair
first_qpair [] = none
first_qpair (q ∷ qs) = some q

-- `SpdkBackend::qpair`
unfoldable pub qpair : SpdkBackend → Result SpdkError IoQueuePair
qpair b = ok_or (first_qpair b.qpairs) no_queue_pairs_configured

abbrev pub nsid_of : DeviceTarget → Result SpdkError ℕ
nsid_of (nvme_ns nsid) = ok nsid
nsid_of _ = err invalid_target

unfoldable pub prepare_io :
    SpdkBackend
    → DeviceTarget
    → ℕ
    → ℕ
    → Result SpdkError (NvmeNamespace × IoQueuePair × NvmeLbaRange)
prepare_io b target len offset = do
  nsid ← nsid_of target
  ns ← namespace b nsid
  range ← lba_range ns offset len
  q ← qpair b
  ok (ns, q, range)

-- The requests of `IoBackend`.
unfoldable pub read : SpdkRuntime → SpdkBackend → DeviceTarget → HugeBuf → ℕ → Result SpdkError ℕ
read runtime b target buf offset = do
  (ns, q, range) ← prepare_io b target buf.len offset
  segment ← from_pooled buf
  runtime.read_at ns q segment range

unfoldable pub write : SpdkRuntime → SpdkBackend → DeviceTarget → HugeBuf → ℕ → Result SpdkError ℕ
write runtime b target buf offset = do
  (ns, q, range) ← prepare_io b target buf.len offset
  segment ← from_pooled buf
  runtime.write_at ns q segment range

unfoldable pub readv :
    SpdkRuntime → SpdkBackend → DeviceTarget → List HugeBuf → ℕ → Result SpdkError ℕ
readv runtime b target bufs offset = do
  len ← total_pooled_len bufs
  (ns, q, range) ← prepare_io b target len offset
  segments ← spdk_segments bufs
  runtime.readv_at ns q segments range

unfoldable pub writev :
    SpdkRuntime → SpdkBackend → DeviceTarget → List HugeBuf → ℕ → Result SpdkError ℕ
writev runtime b target bufs offset = do
  len ← total_pooled_len bufs
  (ns, q, range) ← prepare_io b target len offset
  segments ← spdk_segments bufs
  runtime.writev_at ns q segments range

unfoldable pub flush : SpdkRuntime → SpdkBackend → DeviceTarget → Result SpdkError (Unit {0})
flush runtime b target = do
  nsid ← nsid_of target
  ns ← namespace b nsid
  q ← qpair b
  runtime.flush_at ns q

abbrev pub completions_per_poll : ℕ
completions_per_poll = 256

completions : SpdkRuntime → List IoQueuePair → ℕ
completions runtime [] = 0
completions runtime (q ∷ qs) =
    (runtime.process_completions q completions_per_poll + completions runtime qs) % usize_mod

-- `poll_completions`; the sum wraps in a release build.
unfoldable pub poll_completions : SpdkRuntime → SpdkBackend → ℕ
unfolding completions
poll_completions runtime b = completions runtime b.qpairs
