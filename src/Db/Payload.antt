-- ===== src/Db/Payload.antt =====
-- The WAL payload of a row batch: `encode_batch`, `decode_batch` and `PayloadReader` of
-- bypass-db/src/table.rs. A `usize` has 64 bits, so the conversion in `read_usize` never fails.
pub mod Reads
pub mod RoundTrip
mod Tests
use bypass_io.Prelude.{
  ℕ, zero, suc, ◌+◌, ◌-◌, ◌^◌, ◌==◌, Bool, true, false, ◌&&◌, List, [], ◌∷◌, ◌++◌, Option, none,
  some, Result, ok, err, ◌>>=◌, ◌>>◌, guard, ok_or, bytes_eq, length, get_elem?, take, drop,
  if◌then◌else◌, ltb, leb, to_le_bytes, from_le_bytes, checked_add,
}
use bypass_io.Db.Schema.{Name, DType, ColumnDef, Schema}
use bypass_io.Db.Batch.{
  ColumnData, f64_data, i64_data, timestamp_data, fixed_str_data, Columns, RowBatch, matches_dtype,
}
use bypass_io.Db.Error.{
  TableError, payload_too_large, payload_decode, DecodeFault, unexpected_end, offset_overflow,
  column_count, not_utf8, column_order, unknown_tag, column_type, trailing_bytes,
}

unfoldable pub write_usize : ℕ → List ℕ
write_usize value = to_le_bytes 8 value

unfoldable pub write_bytes : List ℕ → Result TableError (List ℕ)
write_bytes bs =
    if ltb (length bs) (2 ^ 32)
    then ok (to_le_bytes 4 (length bs) ++ bs)
    else err (payload_too_large (length bs))

-- The values of a numeric column.
unfoldable pub write_words : List ℕ → List ℕ
write_words [] = []
write_words (v ∷ vs) = to_le_bytes 8 v ++ write_words vs

-- The values of a fixed-width column.
unfoldable pub write_strings : List (List ℕ) → Result TableError (List ℕ)
unfolding write_bytes
write_strings [] = ok []
write_strings (v ∷ vs) = do bs ← write_bytes v; rest ← write_strings vs; ok (bs ++ rest)

unfoldable pub encode_data : ColumnData → Result TableError (List ℕ)
unfolding write_usize write_words write_strings
encode_data (f64_data vs) = ok (0 ∷ (write_usize (length vs) ++ write_words vs))
encode_data (i64_data vs) = ok (1 ∷ (write_usize (length vs) ++ write_words vs))
encode_data (timestamp_data vs) = ok (2 ∷ (write_usize (length vs) ++ write_words vs))
encode_data (fixed_str_data w vs) = do
  strings ← write_strings vs
  ok (3 ∷ (write_usize w ++ (write_usize (length vs) ++ strings)))

unfoldable pub encode_columns : Columns → Result TableError (List ℕ)
encode_columns [] = ok []
encode_columns ((name, d) ∷ cols) = do
  head ← write_bytes name
  body ← encode_data d
  rest ← encode_columns cols
  ok (head ++ (body ++ rest))

unfoldable pub encode_batch : RowBatch → Result TableError (List ℕ)
encode_batch rows = do
  cols ← encode_columns rows.columns
  ok (write_usize rows.row_count ++ (write_usize (length rows.columns) ++ cols))

pub record PayloadReader : Type 0 where
  pub input : List ℕ
  pub offset : ℕ

-- A method of `PayloadReader`, with the reader that it leaves.
abbrev pub Parser : Type 0 → Type 0
Parser A = PayloadReader → Result TableError (A × PayloadReader)

abbrev pub bind : {A B : Type 0} → Parser A → (A → Parser B) → Parser B
bind m f r = m r >>= λ (a, r'). f a r'

abbrev pub pure : {A : Type 0} → A → Parser A
pure a r = ok (a, r)

abbrev pub require : {A : Type 0} → Bool → DecodeFault → Parser A → Parser A
require test fault m r = guard test (payload_decode fault) >> m r

-- `input.get(start..end)`
unfoldable pub slice : List ℕ → ℕ → ℕ → Option (List ℕ)
slice input start end =
    if leb start end && leb end (length input)
    then some (take (end - start) (drop start input))
    else none

unfoldable pub read_u8 : Parser ℕ
read_u8 r = do
  byte ← ok_or (get_elem? r.input r.offset) (payload_decode unexpected_end)
  ok (byte, record r { offset = r.offset + 1 })

-- The bytes from the offset on; also the second half of `read_bytes`.
unfoldable pub read_array : ℕ → Parser (List ℕ)
unfolding slice
read_array n r = do
  end ← ok_or (checked_add r.offset n) (payload_decode offset_overflow)
  bytes ← ok_or (slice r.input r.offset end) (payload_decode unexpected_end)
  ok (bytes, record r { offset = end })

unfoldable pub read_usize : Parser ℕ
read_usize = bind (read_array 8) λ bs. pure (from_le_bytes bs)

unfoldable pub read_bytes : Parser (List ℕ)
read_bytes = bind (read_array 4) λ bs. read_array (from_le_bytes bs)

-- `for _ in 0..count { values.push(...) }` over words.
unfoldable pub read_words : ℕ → Parser (List ℕ)
read_words zero = pure []
read_words (suc n) =
    bind (read_array 8) λ bs. bind (read_words n) λ vs. pure (from_le_bytes bs ∷ vs)

unfoldable pub read_strings : ℕ → Parser (List (List ℕ))
read_strings zero = pure []
read_strings (suc n) = bind read_bytes λ v. bind (read_strings n) λ vs. pure (v ∷ vs)

unfoldable pub read_numeric : (List ℕ → ColumnData) → Parser ColumnData
read_numeric con = bind read_usize λ count. bind (read_words count) λ vs. pure (con vs)

unfoldable pub decode_data : ℕ → Parser ColumnData
decode_data tag =
    if tag == 0
    then read_numeric f64_data
    else if tag == 1
    then read_numeric i64_data
    else if tag == 2
    then read_numeric timestamp_data
    else if tag == 3
    then (bind read_usize λ width.
        bind read_usize λ count. bind (read_strings count) λ vs. pure (fixed_str_data width vs))
    else λ r. err (payload_decode unknown_tag)

unfoldable pub finish : Parser (Unit {0})
finish r = if r.offset == length r.input then ok (tt, r) else err (payload_decode trailing_bytes)

-- `String::from_utf8` succeeds exactly on the byte strings that pass `is_utf8`.
module _ (is_utf8 : List ℕ → Bool) where
  unfoldable pub decode_column : ColumnDef → Parser (Name × ColumnData)
  decode_column expected = bind read_bytes λ name. require (is_utf8 name) not_utf8 (
      require (bytes_eq name expected.name) column_order (
        bind read_u8 λ tag.
          bind (decode_data tag)
            λ d. require (matches_dtype d expected.dtype) column_type (pure (name, d))))

  unfoldable pub decode_columns : List ColumnDef → Parser Columns
  decode_columns [] = pure []
  decode_columns (c ∷ cs) =
      bind (decode_column c) λ col. bind (decode_columns cs) λ cols. pure (col ∷ cols)

  unfoldable pub decode_batch : Schema → List ℕ → Result TableError RowBatch
  decode_batch schema payload = do
    (row_count, r) ← read_usize (record { input = payload; offset = 0 })
    (count, r) ← read_usize r
    guard (count == length schema.columns) (payload_decode column_count)
    (columns, r) ← decode_columns schema.columns r
    (u, r) ← finish r
    ok (record { columns = columns; row_count = row_count })
