-- ===== src/Db/Segment/Files.antt =====
-- Column files of bypass-db/src/segment.rs: the bytes of a column, and the column of the bytes.
use native.Mathlib.Nat.{mul-div_cancel}
use bypass_io.Prelude.{
  ℕ, ◌*◌, ◌^◌, ◌<◌, ◌≡◌, refl, ap, ap₂, ◌∙◌, true, List, [], ◌∷◌, ◌++◌, map, ok, length,
  length-append, ◌>>=◌, arith, lt→ltb, take-append_of_length, drop-append_of_length, to_le_bytes,
  from_le_bytes, length-to_le_bytes, from_le_bytes-to_le_bytes,
}
use bypass_io.Prelude.Predicates.{All}
use bypass_io.Db.Schema.{DType, f64, i64, timestamp, fixed_str}
use bypass_io.Db.Batch.{
  ColumnData, f64_data, i64_data, timestamp_data, fixed_str_data, matches_dtype, data_row_count,
}
use bypass_io.Db.Segment.{
  column_words, column_strings, column_bytes, chunks, read_values, read_strings, decode_column_file,
}

-- The values of a column are words, its strings have its width, and its file has at most a `usize`
-- of bytes.
abbrev pub Sealable : ColumnData → Type 0
Sealable (f64_data vs) = All (λ v. v < 2 ^ 64) vs × (length vs * 8 < 2 ^ 64)
Sealable (i64_data vs) = All (λ v. v < 2 ^ 64) vs × (length vs * 8 < 2 ^ 64)
Sealable (timestamp_data vs) = All (λ v. v < 2 ^ 64) vs × (length vs * 8 < 2 ^ 64)
Sealable (fixed_str_data w vs) = All (λ v. length v ≡ w) vs × (length vs * w < 2 ^ 64) × (0 < w)

pub length-column_words : (vs : List ℕ) → length (column_words vs) ≡ length vs * 8
unfolding column_words
length-column_words [] = refl
length-column_words (v ∷ vs) = omega (
  arith,
  length-column_words vs,
  length-append (to_le_bytes 8 v) (column_words vs),
  length-to_le_bytes 8 v,
)

-- The chunks of the bytes of words are read as the words.
pub chunks-column_words :
    (vs : List ℕ)
    → All (λ v. v < 2 ^ 64) vs
    → map from_le_bytes (chunks (length vs) 8 (column_words vs)) ≡ vs
unfolding column_words chunks
chunks-column_words [] h = refl
chunks-column_words (v ∷ vs) h =
    ap₂ ◌∷◌
      (ap from_le_bytes
          (take-append_of_length 8 (to_le_bytes 8 v) (column_words vs) (length-to_le_bytes 8 v))
        ∙ from_le_bytes-to_le_bytes 8 v h.0)
      (ap (λ bs. map from_le_bytes (chunks (length vs) 8 bs))
          (drop-append_of_length 8 (to_le_bytes 8 v) (column_words vs) (length-to_le_bytes 8 v))
        ∙ chunks-column_words vs h.1)

-- The chunks of the bytes of strings are the strings.
pub column_strings-chunks :
    (w : ℕ) (vs : List (List ℕ))
    → All (λ v. length v ≡ w) vs
    → (bs : List ℕ) × (column_strings w vs ≡ ok bs)
      × (length bs ≡ length vs * w)
      × (chunks (length vs) w bs ≡ vs)
unfolding column_strings chunks
column_strings-chunks w [] h = ([], refl, omega arith, refl)
column_strings-chunks w (v ∷ vs) h =
    let (bs, written, size, cut) = column_strings-chunks w vs h.1 in
    (
      v ++ bs,
      ground (arith, written, h.0),
      omega (arith, size, length-append v bs, h.0),
      ap₂ ◌∷◌ (take-append_of_length w v bs h.0)
          (ap (chunks (length vs) w) (drop-append_of_length w v bs h.0) ∙ cut),
    )

read_values-column_words :
    (vs : List ℕ)
    → All (λ v. v < 2 ^ 64) vs
    → length vs * 8 < 2 ^ 64
    → read_values (column_words vs) (length vs) ≡ ok vs
unfolding read_values
read_values-column_words vs h small = ground (
  arith,
  length-column_words vs,
  chunks-column_words vs h,
  mul-div_cancel (length vs) {n = 8} (omega arith),
)

numeric :
    (con : List ℕ → ColumnData) (dtype : DType) (vs : List ℕ)
    → column_bytes (con vs) ≡ ok (column_words vs)
    → decode_column_file dtype (column_words vs) (length vs)
      ≡ (read_values (column_words vs) (length vs) >>= λ ws. ok (con ws))
    → All (λ v. v < 2 ^ 64) vs × (length vs * 8 < 2 ^ 64)
    → (bs : List ℕ) × (column_bytes (con vs) ≡ ok bs)
      × (decode_column_file dtype bs (length vs) ≡ ok (con vs))
numeric con dtype vs written read h =
    (column_words vs, written, ground (arith, read, read_values-column_words vs h.0 h.1))

-- The file of a column that can be sealed is read back as the column.
pub decode_column_file-column_bytes :
    (dtype : DType) (d : ColumnData)
    → matches_dtype d dtype ≡ true
    → Sealable d
    → (bs : List ℕ) × (column_bytes d ≡ ok bs)
      × (decode_column_file dtype bs (data_row_count d) ≡ ok d)
unfolding column_bytes decode_column_file data_row_count matches_dtype read_strings
decode_column_file-column_bytes f64 (f64_data vs) t h = numeric f64_data f64 vs refl refl h
decode_column_file-column_bytes i64 (i64_data vs) t h = numeric i64_data i64 vs refl refl h
decode_column_file-column_bytes timestamp (timestamp_data vs) t h =
    numeric timestamp_data timestamp vs refl refl h
decode_column_file-column_bytes (fixed_str v) (fixed_str_data w vs) t h =
    let (bs, written, size, cut) = column_strings-chunks w vs h.0 in
    (
      bs,
      written,
      ground (
        arith,
        t,
        size,
        cut,
        lt→ltb (length vs * w) (2 ^ 64) h.1,
        mul-div_cancel (length vs) {n = w} h.2,
      ),
    )
decode_column_file-column_bytes dtype d t h = absurd (ground arith)
