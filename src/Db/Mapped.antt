-- ===== src/Db/Mapped.antt =====
-- `MappedColumn` of bypass-db/src/segment.rs: a read-only mapping is the bytes of the file.
pub mod Values
pub mod Cells
mod Tests
use bypass_io.Prelude.{
  ℕ, ◌+◌, Bool, true, false, List, Option, none, some, length, if◌then◌else◌, checked_add,
  checked_mul, from_le_bytes,
}
use bypass_io.Db.Schema.{Name, DType, f64, i64, timestamp, fixed_str, dtype_eq}
use bypass_io.Db.Payload.{slice}

pub record MappedColumn : Type 0 where
  pub name : Name
  pub dtype : DType
  pub row_count : ℕ
  pub mmap : List ℕ

-- `get(start..end)` of the record of `width` bytes at `index`.
unfoldable pub value_bytes : MappedColumn → ℕ → ℕ → Option (List ℕ)
unfolding slice
value_bytes c width index = elim (checked_mul index width) [
  | none ↦ none
  | some start ↦ elim (checked_add start width) [ none ↦ none | some end ↦ slice c.mmap start end ]
]

abbrev pub word_of : Option (List ℕ) → Option ℕ
word_of none = none
word_of (some bs) = some (from_le_bytes bs)

unfoldable pub f64_value : MappedColumn → ℕ → Option ℕ
unfolding value_bytes dtype_eq
f64_value c index = if dtype_eq c.dtype f64 then word_of (value_bytes c 8 index) else none

-- `matches!(self.dtype, DType::I64 | DType::Timestamp)`
abbrev pub is_i64 : DType → Bool
is_i64 i64 = true
is_i64 timestamp = true
is_i64 _ = false

unfoldable pub i64_value : MappedColumn → ℕ → Option ℕ
unfolding value_bytes
i64_value c index = if is_i64 c.dtype then word_of (value_bytes c 8 index) else none

fixed_str_of : DType → MappedColumn → ℕ → Option (List ℕ)
fixed_str_of (fixed_str width) c index = value_bytes c width index
fixed_str_of _ c index = none

unfoldable pub fixed_str_value : MappedColumn → ℕ → Option (List ℕ)
unfolding fixed_str_of value_bytes
fixed_str_value c index = fixed_str_of c.dtype c index
