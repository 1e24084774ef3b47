-- ===== src/Backend.antt =====
-- bypass-io/src/backend: what reaches a device, and the buffers that do.
pub mod Buffers
pub mod Spdk
pub mod Packet
pub mod Dpdk
