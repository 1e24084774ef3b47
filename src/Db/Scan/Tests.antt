-- ===== src/Db/Scan/Tests.antt =====
-- The theorem on columns of chunks at a concrete column.
use bypass_io.Prelude.{ℕ, ◌≡◌, refl, List, [], ◌∷◌, ◌++◌, get_elem?, replicate}
use bypass_io.Db.Schema.{f64}
use bypass_io.Db.Mapped.{MappedColumn, f64_value}
use bypass_io.Db.Rows.{range}
use bypass_io.Db.Scan.{Chunk, owned, mapped, value_at, flatten_chunks}
use bypass_io.Db.Scan.Values.{value_at-flatten_chunks}

abbrev words : MappedColumn
words = record {
  name = b'p' ∷ [];
  dtype = f64;
  row_count = 3;
  mmap = 7 ∷ replicate 7 0 ++ (9 ∷ replicate 7 0 ++ (5 ∷ replicate 7 0));
}

abbrev both_kinds : List (Chunk ℕ)
both_kinds =
    owned (4 ∷ 2 ∷ []) ∷ mapped (record { column = words; rows = range 1 2 }) ∷ owned (8 ∷ []) ∷ []

value_at-flatten_chunks_example :
    value_at f64_value both_kinds 3 ≡ get_elem? (flatten_chunks f64_value both_kinds) 3
unfolding bypass_io.Db.Rows.iter bypass_io.Db.Rows.rows_from bypass_io.Db.Rows.index_at
    bypass_io.Db.Rows.len f64_value bypass_io.Db.Mapped.value_bytes bypass_io.Db.Payload.slice
    bypass_io.Db.Schema.dtype_eq bypass_io.Prelude.from_le_bytes
value_at-flatten_chunks_example =
    value_at-flatten_chunks f64_value both_kinds 3 (tt, (((9, refl), ((5, refl), tt)), (tt, tt)))
