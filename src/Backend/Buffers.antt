-- ===== src/Backend/Buffers.antt =====
-- The target of a request (bypass-io/src/backend/mod.rs), and what a backend reads of a buffer
-- (bypass-io/src/buf/hugepage.rs). The bytes of a buffer are left out.
use bypass_io.Prelude.{ℕ, Bool, Option}

pub data DeviceTarget : Type 0 where
  fd : ℕ → DeviceTarget
  nvme_ns : (nsid : ℕ) → DeviceTarget
  net_port : ℕ → DeviceTarget

pub data HugeBufBacking : Type 0 where
  spdk_dma : HugeBufBacking
  huge_page : HugeBufBacking
  locked_fallback : HugeBufBacking
  pageable_fallback : HugeBufBacking

pub record HugeBuf : Type 0 where
  pub virt : ℕ
  pub phys : Option ℕ
  pub len : ℕ
  pub backing : HugeBufBacking
  pub locked : Bool
