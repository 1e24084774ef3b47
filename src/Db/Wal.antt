-- ===== src/Db/Wal.antt =====
-- bypass-db/src/wal.rs. A file is its bytes, and a reader the bytes that are left.
pub mod Checksum
pub mod Codec
pub mod Log
pub mod Recovery
pub mod Writer
pub mod Restart
mod Tests
use Prim.Native.Nat.{bit_xor}
use bypass_io.Prelude.{
  ℕ, zero, suc, ◌+◌, ◌-◌, ◌/◌, ◌%◌, ◌^◌, ◌==◌, Bool, true, false, List, [], ◌∷◌, ◌++◌, map, Option,
  none, some, Result, ok, err, ◌>>=◌, ◌>>◌, guard, ok_or, bytes_eq, length, take, drop,
  if◌then◌else◌, ltb, to_le_bytes, from_le_bytes, bit_and, checked_add,
}

-- b"BYPW"
abbrev pub wal_magic : List ℕ
wal_magic = b'B' ∷ b'Y' ∷ b'P' ∷ b'W' ∷ []

abbrev pub header_len : ℕ
header_len = 16

abbrev pub trailer_len : ℕ
trailer_len = 4

pub record WalRecord : Type 0 where
  pub seq_no : ℕ
  pub payload : List ℕ

-- The text of an I/O error is left out.
pub data WalError : Type 0 where
  io : WalError
  payload_too_large : (len : ℕ) → WalError
  sequence_overflow : WalError
  checksum_mismatch : (seq_no : ℕ) → WalError

-- One of the eight rounds of `checksum32` on a byte.
unfoldable pub crc_round : ℕ → ℕ
crc_round crc =
    let mask = (0 + 2 ^ 32 - bit_and crc 1) % 2 ^ 32 in bit_xor (crc / 2) (bit_and 0xedb8_8320 mask)

unfoldable pub crc_rounds : ℕ → ℕ → ℕ
unfolding crc_round
crc_rounds zero crc = crc
crc_rounds (suc n) crc = crc_rounds n (crc_round crc)

unfoldable pub crc_bytes : ℕ → List ℕ → ℕ
unfolding crc_rounds
crc_bytes crc [] = crc
crc_bytes crc (b ∷ bs) = crc_bytes (crc_rounds 8 (bit_xor crc b)) bs

-- `!crc` is the complement in 32 bits.
unfoldable pub checksum32 : List ℕ → ℕ
unfolding crc_bytes
checksum32 bs = 0xffff_ffff - crc_bytes 0xffff_ffff bs

-- `WalRecord::encode`
unfoldable pub encode : WalRecord → Result WalError (List ℕ)
encode r = do
  let len = length r.payload
  guard (ltb len (2 ^ 32)) (payload_too_large len)
  let out = wal_magic ++ (to_le_bytes 8 r.seq_no ++ (to_le_bytes 4 len ++ r.payload))
  ok (out ++ to_le_bytes 4 (checksum32 out))

-- `read_exact` into a buffer of `n` bytes; `none` is an unexpected end of the file.
unfoldable pub read_exact : ℕ → List ℕ → Option (List ℕ × List ℕ)
read_exact zero bs = some ([], bs)
read_exact (suc n) [] = none
read_exact (suc n) (b ∷ bs) = elim (read_exact n bs) [
  | none ↦ none
  | some (got, rest) ↦ some (b ∷ got, rest)
]

-- `WalRecord::decode_from` after a header with the magic bytes.
unfoldable pub decode_body : List ℕ → List ℕ → Result WalError (Option (WalRecord × List ℕ))
decode_body header rest = do
  let seq_no = from_le_bytes (take 8 (drop 4 header))
  let len = from_le_bytes (take 4 (drop 12 header))
  (payload, rest) ← ok_or (read_exact len rest) io
  (trailer, rest) ← ok_or (read_exact trailer_len rest) io
  guard (from_le_bytes trailer == checksum32 (header ++ payload)) (checksum_mismatch seq_no)
  ok (some (record { seq_no = seq_no; payload = payload }, rest))

-- `WalRecord::decode_from`, with the bytes that it leaves.
unfoldable pub decode_from : List ℕ → Result WalError (Option (WalRecord × List ℕ))
decode_from bs = elim (read_exact header_len bs) [
  | none ↦ ok none
  | some (header, rest) ↦
      if bytes_eq (take 4 header) wal_magic then decode_body header rest else ok none
]

-- The loop of `WalReader::records` on fuel; `none` means that the fuel ran out.
unfoldable pub records_loop : ℕ → List ℕ → Option (Result WalError (List WalRecord))
records_loop zero bs = none
records_loop (suc fuel) bs = elim (decode_from bs) [
  | err e ↦ some (err e)
  | ok none ↦ some (ok [])
  | ok (some (r, rest)) ↦ elim (records_loop fuel rest) [
    | none ↦ none
    | some (err e) ↦ some (err e)
    | some (ok rs) ↦ some (ok (r ∷ rs))
  ]
]

-- `WalReader::records`: each record takes a byte at least.
unfoldable pub records : List ℕ → Option (Result WalError (List WalRecord))
records bs = records_loop (suc (length bs)) bs

pub record WalWriter : Type 0 where
  pub file : List ℕ
  pub next_seq_no : ℕ

-- `WalWriter::open` on a file with these bytes.
unfoldable pub open_writer : List ℕ → Option (Result WalError WalWriter)
open_writer bs = elim (records bs) [
  | none ↦ none
  | some (err e) ↦ some (err e)
  | some (ok rs) ↦ some (ok (record { file = bs; next_seq_no = length rs }))
]

-- What the operating system does with a write: all of it, or an error after some of the bytes.
pub data Written : Type 0 where
  complete : Written
  failed : (count : ℕ) → Written

-- `write_all` to a file opened for appending.
unfoldable pub write_all : Written → List ℕ → List ℕ → Result WalError (Unit {0}) × List ℕ
write_all complete file bs = (ok tt, file ++ bs)
write_all (failed n) file bs = (err io, file ++ take n bs)

-- `WalWriter::append`, with the writer that it leaves. The sequence number is taken before the
-- record is encoded and written.
unfoldable pub append : Written → WalWriter → List ℕ → Result WalError ℕ × WalWriter
append os w payload = elim (checked_add w.next_seq_no 1) [
  | none ↦ (err sequence_overflow, w)
  | some next ↦ elim (encode (record { seq_no = w.next_seq_no; payload = payload })) [
    | err e ↦ (err e, record w { next_seq_no = next })
    | ok bs ↦
        let (res, file) = write_all os w.file bs in
        (res >> ok w.next_seq_no, record { file = file; next_seq_no = next })
  ]
]

-- `WalWriter::sync`: the answer of `sync_all`.
unfoldable pub sync : Bool → Result WalError (Unit {0})
sync synced = guard synced io

-- `WalWriter::reset`: whether `set_len` and `sync_all` succeed is up to the system.
unfoldable pub reset : Bool → Bool → WalWriter → Result WalError (Unit {0}) × WalWriter
reset truncated synced w =
    if truncated
    then (if synced
        then (ok tt, record { file = []; next_seq_no = 0 })
        else (err io, record w { file = [] }))
    else (err io, w)
