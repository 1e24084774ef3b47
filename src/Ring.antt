-- ===== src/Ring.antt =====
-- bypass-io/src/ring: the bounded rings.
pub mod Slots
pub mod Queue
pub mod Spsc
pub mod Mpsc
