-- ===== src/Db/Wal/Checksum.antt =====
-- `checksum32` is a word of 32 bits.
use bypass_io.Prelude.{ℕ, ◌^◌, ◌<◌, List, arith}
use bypass_io.Db.Wal.{checksum32}

pub checksum32-lt : (bs : List ℕ) → checksum32 bs < 2 ^ 32
unfolding checksum32
checksum32-lt bs = omega arith
